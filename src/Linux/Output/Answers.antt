-- ===== src/Linux/Output/Answers.antt =====
-- The hook has an answer for every packet, whatever happened before.
use Prim.{tt}
use map_based_relay.Prelude.{
  ℕ, ◌<◌, List, Option, none, some, Bool, true, ◌≡◌, ◌==◌, inl, inr, refl, sym, ◌∙◌, subst,
  Option-cases, Bool-cases, OnSome, OnSome-bind, All, is_some,
}
use map_based_relay.Wave.Cross.Ids.{In}
use map_based_relay.Linux.Cross.{uint64_max}
use map_based_relay.Linux.Control.Built.{IsInside, recv-IsInside, create-IsInside}
use map_based_relay.Linux.Forward.{Relayed, mbr_forward}
use map_based_relay.Linux.Forward.Decides.{mbr_forward-some, is_some-none}
use map_based_relay.Linux.Output.{
  PacketStat, Module, SkBuff, Frame, Verdict, count_relayed, relay_packet, handle, output_handler,
}
use map_based_relay.Linux.Output.Handled.{started, started-IsSameModule}
use map_based_relay.Linux.Output.Run.{
  Run, loaded, heard, moved, switched, counter_written, counter_refused, stats_switched,
  stats_asked, commanded, let_pass, sent_on,
}

relay_packet-graph :
    (sec nsec : ℕ) (expanded : Bool) (w : Module) (payload : List ℕ) (r : Relayed)
    → (relay_packet sec nsec expanded w payload r).0.graph ≡ w.graph
unfolding relay_packet count_relayed
relay_packet-graph sec nsec expanded w payload r = elim (Bool-cases (w.status.stat_on == 1)) [
  | inl on ↦ rw on refl
  | inr off ↦ rw off refl
]

handle-graph :
    (sec nsec : ℕ) (expanded : Bool) (w : Module) (skb : Option SkBuff)
    → OnSome (λ r. r.0.graph ≡ w.graph) (handle sec nsec expanded w skb)
unfolding handle
handle-graph sec nsec expanded w none = refl
handle-graph sec nsec expanded w (some skb) = elim (Bool-cases (w.status.mbr_start == 0)) [
  | inl off ↦ rw off refl
  | inr on ↦
      elim (Option-cases (mbr_forward w.graph w.neighbors w.status.geohash_this skb.nexthop)) [
        | inl e ↦ rw (on, e) tt
        | inr (o, e) ↦ elim (Option-cases o) [
          | inl f ↦ rw (on, e, f) refl
          | inr (r, f) ↦ rw (on, e, f) (relay_packet-graph sec nsec expanded w skb.payload r)
        ]
      ]
]

output_handler-graph :
    (dev_addrs : List ℕ) (sec nsec : ℕ) (expanded : Bool) (m : Module) (skb : Option SkBuff)
    → OnSome (λ r. r.0.graph ≡ m.graph) (output_handler dev_addrs sec nsec expanded m skb)
unfolding output_handler
output_handler-graph dev_addrs sec nsec expanded m skb =
    let w = started dev_addrs m in
    OnSome-bind _ (handle sec nsec expanded w skb) _ (handle-graph sec nsec expanded w skb)
      (λ r e. e ∙ (started-IsSameModule dev_addrs m).graph)

after-IsInside :
    (dev_addrs : List ℕ) (sec nsec : ℕ) (expanded : Bool) (m : Module) (skb : Option SkBuff)
    (r : Module × List PacketStat × Verdict)
    → output_handler dev_addrs sec nsec expanded m skb ≡ some r
    → IsInside m.graph
    → IsInside r.0.graph
after-IsInside dev_addrs sec nsec expanded m skb r e w =
    let same : r.0.graph ≡ m.graph =
      subst (OnSome (λ r. r.0.graph ≡ m.graph)) e
        (output_handler-graph dev_addrs sec nsec expanded m skb) in
    subst IsInside (sym same) w

Run-IsInside :
    {m : Module} {written : ℕ} {before sent : List Frame} {printed noted : List PacketStat}
    → Run m written before sent printed noted
    → IsInside m.graph
Run-IsInside (loaded neighbors) = create-IsInside
Run-IsInside (heard neighbors r) = Run-IsInside r
Run-IsInside (moved val r) = Run-IsInside r
Run-IsInside (switched val r) = Run-IsInside r
Run-IsInside (counter_written val r) = Run-IsInside r
Run-IsInside (counter_refused r) = Run-IsInside r
Run-IsInside (stats_switched val r) = Run-IsInside r
Run-IsInside (stats_asked val r) = Run-IsInside r
Run-IsInside (commanded {m} d g e r) =
    subst (OnSome IsInside) e (recv-IsInside m.graph d (Run-IsInside r))
Run-IsInside (let_pass {m} dev_addrs sec nsec expanded skb m' now e r) =
    after-IsInside dev_addrs sec nsec expanded m skb _ e (Run-IsInside r)
Run-IsInside (sent_on {m} dev_addrs sec nsec expanded skb m' now f e r) =
    after-IsInside dev_addrs sec nsec expanded m skb _ e (Run-IsInside r)

handle-some :
    (sec nsec : ℕ) (expanded : Bool) (w : Module) (skb : Option SkBuff)
    → ((nexthop : ℕ)
        → is_some (mbr_forward w.graph w.neighbors w.status.geohash_this nexthop) ≡ true)
    → is_some (handle sec nsec expanded w skb) ≡ true
unfolding handle
handle-some sec nsec expanded w none h = refl
handle-some sec nsec expanded w (some skb) h = elim (Bool-cases (w.status.mbr_start == 0)) [
  | inl off ↦ rw off refl
  | inr on ↦
      elim (Option-cases (mbr_forward w.graph w.neighbors w.status.geohash_this skb.nexthop)) [
        | inl e ↦ elim (is_some-none e (h skb.nexthop)) [ ]
        | inr (o, e) ↦ rw (on, e) refl
      ]
]

-- After any course of events the hook has an answer for every packet, as long as the graph has a vertex:
-- it follows no null pointer, and the search for the intersection ends. The block numbers of the vertex, of
-- the node and of the neighbours are under 2^64 - 1.
pub output_handler-some :
    {m : Module} {written : ℕ} {before sent : List Frame} {printed noted : List PacketStat}
    (dev_addrs : List ℕ) (sec nsec : ℕ) (expanded : Bool) (skb : Option SkBuff) (p : ℕ)
    → Run m written before sent printed noted
    → In m.graph.vertices p
    → (m.graph.heap p).geo_hash < uint64_max
    → m.status.geohash_this < uint64_max
    → All (λ n. n.geo_hash < uint64_max) m.neighbors
    → is_some (output_handler dev_addrs sec nsec expanded m skb) ≡ true
unfolding output_handler
output_handler-some {m} dev_addrs sec nsec expanded skb p r i lp lt ln =
    let w = started dev_addrs m in
    let s = started-IsSameModule dev_addrs m in
    let answers = handle-some sec nsec expanded w skb (λ nexthop.
      rw (s.graph, s.neighbors, s.geohash_this)
        (mbr_forward-some m.graph m.neighbors m.status.geohash_this nexthop p
          (λ p i. Run-IsInside r p) i lp lt ln)) in
    elim (Option-cases (handle sec nsec expanded w skb)) [
      | inl e ↦ elim (is_some-none e answers) [ ]
      | inr (o, e) ↦ rw e refl
    ]
