-- ===== src/Gpsr/Protocol/Frame.antt =====
-- Passing a packet on leaves the queue, its addresses and its timer alone.

use map_based_relay.Prelude.{
  ◌∙◌, true, ◌>>=◌, some, if◌then◌else◌, Bool, refl, ◌==◌, not, OnSome-if, OnSome-any, ◌≡◌, List, ℕ,
  OnSome, OnSome-bind,
}
use map_based_relay.Gpsr.Protocol.{
  with_headers, Event, PositionTable, zero_address, purge, still_in_rec, recovery_choice, Env,
  Protocol, Removed, remove_headers, recovery_mode, forward_greedy, forwarding, send,
}

abbrev pub Keeps : Protocol → Protocol → Type 0
Keeps s s' =
    (s'.queue ≡ s.queue)
    × (s'.queued_addresses ≡ s.queued_addresses)
    × (s'.check_timer ≡ s.check_timer)

module _ (env : Env) where
  pub recovery_mode-Keeps :
      (s : Protocol) (dst source : ℕ) (bytes : List ℕ)
      → OnSome (Keeps s) (recovery_mode env s dst source bytes)
  unfolding recovery_mode
  recovery_mode-Keeps s dst source bytes = OnSome-any (Keeps s) (remove_headers env bytes) _ (λ r.
      OnSome-if (Keeps s) (not r.type.valid) _ _ (refl, refl, refl)
        (OnSome-any (Keeps s) (recovery_choice env s.neighbors r).1 _ (λ hop.
          OnSome-if (Keeps s) (hop == zero_address) _ _ (refl, refl, refl) (refl, refl, refl))))

  on_or_recover-Keeps :
      (s : Protocol) (t : PositionTable) (b : Bool) (e : Event) (dst source : ℕ) (out : List ℕ)
      → OnSome (Keeps s) (
          if b
          then some (send e (record s { neighbors = t }))
          else recovery_mode env (record s { neighbors = t }) dst source out)
  on_or_recover-Keeps s t b e dst source out =
      OnSome-if (Keeps s) b (some (send e (record s { neighbors = t })))
        (recovery_mode env (record s { neighbors = t }) dst source out) (refl, refl, refl)
        (recovery_mode-Keeps (record s { neighbors = t }) dst source out)

  forward_greedy-Keeps :
      (s : Protocol) (dst source : ℕ) (r : Removed)
      → OnSome (Keeps s) (forward_greedy env s dst source r)
  unfolding forward_greedy
  forward_greedy-Keeps s dst source r = on_or_recover-Keeps s _ _ _ dst source _

  by_mode-Keeps :
      (s t : Protocol) (b : Bool) (dst source : ℕ) (r : Removed) (out : List ℕ)
      → Keeps s t
      → OnSome
          (λ (o : Protocol × Bool). Keeps s o.0)
          ((if b then forward_greedy env t dst source r else recovery_mode env t dst source out)
            >>= λ s'. some (s', true))
  by_mode-Keeps s t b dst source r out (e, f, g) =
      OnSome-bind (λ (o : Protocol × Bool). Keeps s o.0)
        (if b then forward_greedy env t dst source r else recovery_mode env t dst source out)
        (λ s'. some (s', true))
        (OnSome-if (Keeps t) b (forward_greedy env t dst source r)
          (recovery_mode env t dst source out) (forward_greedy-Keeps t dst source r)
          (recovery_mode-Keeps t dst source out))
        (λ s' k. (k.0 ∙ e, k.1 ∙ f, k.2 ∙ g))

  pub forwarding-Keeps :
      (s : Protocol) (dst source : ℕ) (bytes : List ℕ)
      → OnSome (λ (r : Protocol × Bool). Keeps s r.0) (forwarding env s dst source bytes)
  unfolding forwarding
  forwarding-Keeps s dst source bytes =
      OnSome-any (λ (r : Protocol × Bool). Keeps s r.0) (remove_headers env bytes) _
        (λ r.
          OnSome-if (λ (r : Protocol × Bool). Keeps s r.0) (not r.type.valid) _ _ (refl, refl, refl)
            (by_mode-Keeps s (record s { neighbors = purge env.now s.neighbors })
              (still_in_rec env r.header == 0) dst source r
              (with_headers env r.type r.header r.rest) (refl, refl, refl)))
