-- ===== src/Linux/Output/Run.antt =====
-- The life of a loaded module: what the user and the hook do to it, in any order.
use Prim.{tt}
use map_based_relay.Prelude.{
  append_assoc, sym, append-nil, ℕ, ◌+◌, ◌%◌, ◌^◌, List, [], ◌∷◌, ◌++◌, Option, none, some, Bool,
  false, ◌≡◌, length, length-append, arith, refl, ap, ◌∙◌, subst, OnSome, All, All-append,
}
use map_based_relay.Wave.Graph.{Graph, graph_create}
use map_based_relay.Linux.Neighbors.{NeighborTable}
use map_based_relay.Linux.Control.{
  GraphDeliver, netlink_recv_cb, created_status, status_geohash_write, status_mbr_start_write,
  status_stat_on_write, status_stat_write_write, status_relay_work_write,
}
use map_based_relay.Linux.Output.{
  PacketStat, Module, SkBuff, Frame, Verdict, accept, stolen, eth_p_maprelay, output_handler,
}
use map_based_relay.Linux.Output.Handled.{
  Handled, passed, relayed, Accounted, gained, output_handler-Handled,
}

-- The memory that is shared is not cleared: the table may be anything.
abbrev pub loaded_module : (neighbors : List NeighborTable) → Module
loaded_module neighbors = record {
  status = created_status;
  graph = graph_create;
  neighbors = neighbors;
  statis = [];
  mac_this = 0;
  addrinit_flag = false;
}

-- A module; the value that was last written to its counter, which is 0 before the first; the frames
-- that it sent before that, and those that it has sent since; and the statistics that it has printed and
-- all that were noted, the latest first.
pub data Run
    : Module
      → (written : ℕ) → (before sent : List Frame) → (printed noted : List PacketStat)
      → Type 0 where
  loaded : (neighbors : List NeighborTable) → Run (loaded_module neighbors) 0 [] [] [] []
  heard :
      {m : Module} {written : ℕ} {before sent : List Frame} {printed noted : List PacketStat}
      (neighbors : List NeighborTable)
      → Run m written before sent printed noted
      → Run (record m { neighbors = neighbors }) written before sent printed noted
  moved :
      {m : Module} {written : ℕ} {before sent : List Frame} {printed noted : List PacketStat}
      (val : Option ℕ)
      → Run m written before sent printed noted
      → Run
          (record m { status = (status_geohash_write m.status [] val).0 })
          written
          before
          sent
          printed
          noted
  switched :
      {m : Module} {written : ℕ} {before sent : List Frame} {printed noted : List PacketStat}
      (val : Option ℕ)
      → Run m written before sent printed noted
      → Run
          (record m { status = status_mbr_start_write m.status val })
          written
          before
          sent
          printed
          noted
  counter_written :
      {m : Module} {written : ℕ} {before sent : List Frame} {printed noted : List PacketStat}
      (val : ℕ)
      → Run m written before sent printed noted
      → Run
          (record m { status = status_relay_work_write m.status (some val) })
          val
          (before ++ sent)
          []
          printed
          noted
  counter_refused :
      {m : Module} {written : ℕ} {before sent : List Frame} {printed noted : List PacketStat}
      → Run m written before sent printed noted
      → Run
          (record m { status = status_relay_work_write m.status none })
          written
          before
          sent
          printed
          noted
  stats_switched :
      {m : Module} {written : ℕ} {before sent : List Frame} {printed noted : List PacketStat}
      (val : Option ℕ)
      → Run m written before sent printed noted
      → Run
          (record m { status = status_stat_on_write m.status val })
          written
          before
          sent
          printed
          noted
  stats_asked :
      {m : Module} {written : ℕ} {before sent : List Frame} {printed noted : List PacketStat}
      (val : Option ℕ)
      → Run m written before sent printed noted
      → Run
          (record m { status = status_stat_write_write m.status val })
          written
          before
          sent
          printed
          noted
  commanded :
      {m : Module} {written : ℕ} {before sent : List Frame} {printed noted : List PacketStat}
      (d : GraphDeliver) (g : Graph)
      → netlink_recv_cb m.graph d ≡ some g
      → Run m written before sent printed noted
      → Run (record m { graph = g }) written before sent printed noted
  let_pass :
      {m : Module} {written : ℕ} {before sent : List Frame} {printed noted : List PacketStat}
      (dev_addrs : List ℕ) (sec nsec : ℕ) (expanded : Bool) (skb : Option SkBuff) (m' : Module)
      (now : List PacketStat)
      → output_handler dev_addrs sec nsec expanded m skb ≡ some (m', now, accept)
      → Run m written before sent printed noted
      → Run m' written before sent (now ++ printed) noted
  sent_on :
      {m : Module} {written : ℕ} {before sent : List Frame} {printed noted : List PacketStat}
      (dev_addrs : List ℕ) (sec nsec : ℕ) (expanded : Bool) (skb : Option SkBuff) (m' : Module)
      (now : List PacketStat) (f : Frame)
      → output_handler dev_addrs sec nsec expanded m skb ≡ some (m', now, stolen f)
      → Run m written before sent printed noted
      → Run m' written before
          (sent ++ f ∷ [])
          (now ++ printed)
          (gained sec nsec m (stolen f) ++ noted)

pub record IsCounted (m : Module) (written : ℕ) (before sent : List Frame)
    (printed noted : List PacketStat) : Type 0 where
  pub relay_work : m.status.relay_work ≡ (written + length sent) % 2 ^ 32
  pub stats : m.statis ++ printed ≡ noted
  pub marked : All (λ f. f.h_proto ≡ eth_p_maprelay) (before ++ sent)

counter-moved :
    (m : Module) (val : Option ℕ)
    → (status_geohash_write m.status [] val).0.relay_work ≡ m.status.relay_work
counter-moved m none = refl
counter-moved m (some val) = ground arith

-- The hook's step.
module _ (dev_addrs : List ℕ) (sec nsec : ℕ) (expanded : Bool) (m : Module)
    (skb : Option SkBuff) where
  hook :
      (m' : Module) (now : List PacketStat) (v : Verdict)
      → output_handler dev_addrs sec nsec expanded m skb ≡ some (m', now, v)
      → Handled m skb expanded m' v × Accounted sec nsec m m' now v
  hook m' now v e =
      subst (OnSome (λ r. Handled m skb expanded r.0 r.2 × Accounted sec nsec m r.0 r.1 r.2)) e
        (output_handler-Handled dev_addrs sec nsec expanded m skb)

accepted-counter :
    {m m' : Module} {skb : Option SkBuff} {expanded : Bool}
    → Handled m skb expanded m' accept
    → m'.status.relay_work ≡ m.status.relay_work
accepted-counter (passed e) = e

stolen-counter :
    {m m' : Module} {skb : Option SkBuff} {expanded : Bool} {f : Frame}
    → Handled m skb expanded m' (stolen f)
    → (m'.status.relay_work ≡ (m.status.relay_work + 1) % 2 ^ 32) × (f.h_proto ≡ eth_p_maprelay)
stolen-counter (relayed packet r f a b c d e p g h w) = (w, p)

renumbered :
    {m m' : Module} {written : ℕ} {before sent : List Frame} {printed noted : List PacketStat}
    → m'.status.relay_work ≡ m.status.relay_work
    → m'.statis ≡ m.statis
    → IsCounted m written before sent printed noted
    → IsCounted m' written before sent printed noted
renumbered {printed} e f i = record {
  relay_work = e ∙ i.relay_work;
  stats = ap (λ l. l ++ printed) f ∙ i.stats;
  marked = i.marked;
}

-- After any course of events, where the user may write to the counter too, the counter in the status
-- is what was last written to it and the number of the frames sent since, modulo 2^32; every frame
-- has the type of MBR; and the statistics that are still noted, followed by those that have been printed, are
-- those of all the packets that were relayed with the statistics on, the latest first.
pub Run-IsCounted :
    {m : Module} {written : ℕ} {before sent : List Frame} {printed noted : List PacketStat}
    → Run m written before sent printed noted
    → IsCounted m written before sent printed noted
Run-IsCounted (loaded neighbors) = record { relay_work = refl; stats = refl; marked = tt }
Run-IsCounted (heard neighbors r) = renumbered refl refl (Run-IsCounted r)
Run-IsCounted (moved {m} val r) = renumbered (counter-moved m val) refl (Run-IsCounted r)
Run-IsCounted (switched none r) = renumbered refl refl (Run-IsCounted r)
Run-IsCounted (switched (some val) r) = renumbered refl refl (Run-IsCounted r)
Run-IsCounted (counter_refused r) = renumbered refl refl (Run-IsCounted r)
Run-IsCounted (counter_written {m} {before = before} {sent = sent} val r) =
    let i = Run-IsCounted r in
    record {
      relay_work = omega arith;
      stats = i.stats;
      marked = rw (append-nil (before ++ sent)) i.marked;
    }
Run-IsCounted (stats_switched none r) = renumbered refl refl (Run-IsCounted r)
Run-IsCounted (stats_switched (some val) r) = renumbered refl refl (Run-IsCounted r)
Run-IsCounted (stats_asked none r) = renumbered refl refl (Run-IsCounted r)
Run-IsCounted (stats_asked (some val) r) = renumbered refl refl (Run-IsCounted r)
Run-IsCounted (commanded d g e r) = renumbered refl refl (Run-IsCounted r)
Run-IsCounted (let_pass {m} {printed = printed} dev_addrs sec nsec expanded skb m' now e r) =
    let (handled, accounted) = hook dev_addrs sec nsec expanded m skb m' now accept e in
    let i = Run-IsCounted r in
    record {
      relay_work = accepted-counter handled ∙ i.relay_work;
      stats = sym (append_assoc m'.statis now printed) ∙ ap (λ l. l ++ printed) accounted ∙ i.stats;
      marked = i.marked;
    }
Run-IsCounted
      (sent_on {m} {before = before} {sent = sent} {printed = printed} dev_addrs sec nsec expanded
        skb m' now f e r) =
    let (handled, accounted) = hook dev_addrs sec nsec expanded m skb m' now (stolen f) e in
    let i = Run-IsCounted r in
    let (counted, mark) = stolen-counter handled in
    record {
      relay_work = omega (arith, counted, i.relay_work, length-append sent (f ∷ []));
      stats =
          sym (append_assoc m'.statis now printed)
          ∙ ap (λ l. l ++ printed) accounted
          ∙ append_assoc (gained sec nsec m (stolen f)) m.statis printed
          ∙ ap (λ l. gained sec nsec m (stolen f) ++ l) i.stats;
      marked =
          rw (sym (append_assoc before sent (f ∷ [])))
            (All-append _ (before ++ sent) (f ∷ []) i.marked (mark, tt));
    }
