-- ===== src/Equipmentd/Rounds/Kernel.antt =====
-- services/equipmentd/src/main.c: the runs of the loop that a kernel can give.
use equipment_control.Prelude.{
  ◌≡◌, refl, Bool, true, not, ◌&&◌, List, [], ◌∷◌, none, some, arith, Bytes, ℕ,
}
use equipment_control.Protocol.Double.{Double}
use equipment_control.Equipmentd.Rounds.{
  is_open, Accepted, Event, incoming, readable, Wait, interrupted, wait_failed, ready, Process,
  Flow, goes_on, over, accept_one, serve_event, serve_events, end_round, server_round,
  server_rounds,
}

abbrev pub process_of : {D : Type 0} → Flow D → Process D
process_of (goes_on p) = p
process_of (over p) = p

module _ {D : Type 0} where
  -- The kernel gives no descriptor that is open.
  unfoldable pub plausible_accepts : List Accepted → Process D → Bool
  plausible_accepts [] p = true
  plausible_accepts (a ∷ rest) p =
      not (is_open a.fd p.clients) && plausible_accepts rest (accept_one a p)

  unfoldable pub plausible_event : Event → Process D → Bool
  unfolding plausible_accepts
  plausible_event (incoming accepted) p = plausible_accepts accepted p
  plausible_event (readable fd now reads) p = true

module _ {D : Type 0} (double : Double D) (can_write : ℕ → Bytes → Bool) where
  unfoldable pub plausible_events : List Event → Process D → Bool
  unfolding plausible_event
  plausible_events [] p = true
  plausible_events (e ∷ es) p =
      plausible_event e p
      && (elim (serve_event double can_write e p) [ none ↦ true | some q ↦ plausible_events es q ])

  unfoldable pub plausible_round : Wait → Process D → Bool
  unfolding plausible_events
  plausible_round interrupted p = true
  plausible_round wait_failed p = true
  plausible_round (ready events end_ms scan_ms) p = plausible_events events p

  -- In the whole run, no descriptor that is open is given again.
  unfoldable pub plausible : List Wait → Process D → Bool
  unfolding plausible_round
  plausible [] p = true
  plausible (w ∷ ws) p = plausible_round w p && (elim (server_round double can_write w p) [
    | none ↦ true
    | some flow ↦ elim flow [ goes_on q ↦ plausible ws q | over q ↦ true ]
  ])

  plausible_events_step :
      (e : Event) (es : List Event) (p q : Process D)
      → serve_event double can_write e p ≡ some q
      → plausible_events (e ∷ es) p ≡ true
      → plausible_events es q ≡ true
  unfolding plausible_events
  plausible_events_step e es p q s h = ground arith

  plausible_step :
      (w : Wait) (ws : List Wait) (p q : Process D)
      → server_round double can_write w p ≡ some (goes_on q)
      → plausible (w ∷ ws) p ≡ true
      → plausible ws q ≡ true
  unfolding plausible
  plausible_step w ws p q s h = ground arith

  plausible_first :
      (w : Wait) (ws : List Wait) (p : Process D)
      → plausible (w ∷ ws) p ≡ true
      → plausible_round w p ≡ true
  unfolding plausible
  plausible_first w ws p h = ground arith

  -- What every event and every end of a round keeps, and so every run.
  module _ (P : Process D → Type 0)
      (on_event : (e : Event) (p : Process D)
        → plausible_event e p ≡ true
        → P p
        → (q : Process D) × (serve_event double can_write e p ≡ some q) × P q)
      (on_end : (end_ms scan_ms : ℕ) (p : Process D)
        → P p
        → (q : Process D) × (end_round double can_write end_ms scan_ms p ≡ some q) × P q) where
    events_keep :
        (es : List Event) (p : Process D)
        → plausible_events es p ≡ true
        → P p
        → (q : Process D) × (serve_events double can_write es p ≡ some q) × P q
    unfolding serve_events plausible_events
    events_keep [] p h k = (p, refl, k)
    events_keep (e ∷ es) p h k =
        let (q, s, kq) = on_event e p (ground arith) k in
        let (r, last, kr) = events_keep es q (plausible_events_step e es p q s h) kq in
        (r, rw (serve_events, s) last, kr)

    round_keeps :
        (w : Wait) (p : Process D)
        → plausible_round w p ≡ true
        → P p
        → (f : Flow D) × (server_round double can_write w p ≡ some f) × P (process_of f)
    unfolding server_round plausible_round
    round_keeps interrupted p h k = (goes_on p, refl, k)
    round_keeps wait_failed p h k = (over p, refl, k)
    round_keeps (ready events end_ms scan_ms) p h k =
        let (q, s, kq) = events_keep events p h k in
        let (r, last, kr) = on_end end_ms scan_ms q kq in
        (goes_on r, rw (server_round, s, last) refl, kr)

    rounds_by :
        (w : Wait) (ws : List Wait) (p : Process D) (f : Flow D)
        → server_round double can_write w p ≡ some f
        → plausible (w ∷ ws) p ≡ true
        → P (process_of f)
        → ((q : Process D)
            → plausible ws q ≡ true
            → P q
            → (g : Flow D) × (server_rounds double can_write ws q ≡ some g) × P (process_of g))
        → (g : Flow D) × (server_rounds double can_write (w ∷ ws) p ≡ some g) × P (process_of g)
    unfolding server_rounds
    rounds_by w ws p (goes_on q) s h k next =
        let (g, last, kg) = next q (plausible_step w ws p q s h) k in
        (g, rw (server_rounds, s) last, kg)
    rounds_by w ws p (over q) s h k next = (over q, rw (server_rounds, s) refl, k)

    pub rounds_keep :
        (ws : List Wait) (p : Process D)
        → plausible ws p ≡ true
        → P p
        → (f : Flow D) × (server_rounds double can_write ws p ≡ some f) × P (process_of f)
    unfolding server_rounds
    rounds_keep [] p h k = (goes_on p, refl, k)
    rounds_keep (w ∷ ws) p h k =
        let (f, s, kf) = round_keeps w p (plausible_first w ws p h) k in
        rounds_by w ws p f s h kf (λ q. rounds_keep ws q)
