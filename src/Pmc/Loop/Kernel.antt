-- ===== src/Pmc/Loop/Kernel.antt =====
-- nodes/pmc/src/main.c: the runs of the loop that a kernel can give.
use equipment_control.Prelude.{ℕ, ◌≡◌, Bool, true, ◌&&◌, List, [], ◌∷◌, none, some, arith, Bytes}
use equipment_control.Protocol.Double.{Double}
use equipment_control.Pmc.Snapshot.{Float}
use equipment_control.Pmc.Loop.{
  Event, incoming, readable, Wait, interrupted, wait_failed, ready, Process, goes_on, over,
  serve_event, pmc_round,
}
use equipment_control.Pmc.Loop.Listed.{plausible_accepts}

unfoldable pub plausible_event : Event → Process → Bool
unfolding plausible_accepts
plausible_event (incoming accepted) p = plausible_accepts accepted p
plausible_event (readable fd reads) p = true

module _ {D F : Type 0} (double : Double D) (float : Float F) (can_write : ℕ → Bytes → Bool) where
  unfoldable pub plausible_events : List Event → Process → Bool
  unfolding plausible_event
  plausible_events [] p = true
  plausible_events (e ∷ es) p =
      plausible_event e p && (elim (serve_event double float can_write e p) [
        | none ↦ true
        | some q ↦ plausible_events es q
      ])

  unfoldable pub plausible_round : Wait → Process → Bool
  unfolding plausible_events
  plausible_round interrupted p = true
  plausible_round wait_failed p = true
  plausible_round (ready events) p = plausible_events events p

  -- In the whole run, the kernel gives no descriptor that is open.
  unfoldable pub plausible : List Wait → Process → Bool
  unfolding plausible_round
  plausible [] p = true
  plausible (w ∷ ws) p = plausible_round w p && (elim (pmc_round double float can_write w p) [
    | none ↦ true
    | some flow ↦ elim flow [ goes_on q ↦ plausible ws q | over q ↦ true ]
  ])

  pub plausible_events_step :
      (e : Event) (es : List Event) (p q : Process)
      → serve_event double float can_write e p ≡ some q
      → plausible_events (e ∷ es) p ≡ true
      → plausible_events es q ≡ true
  unfolding plausible_events
  plausible_events_step e es p q s h = ground arith

  pub plausible_step :
      (w : Wait) (ws : List Wait) (p q : Process)
      → pmc_round double float can_write w p ≡ some (goes_on q)
      → plausible (w ∷ ws) p ≡ true
      → plausible ws q ≡ true
  unfolding plausible
  plausible_step w ws p q s h = ground arith

  pub plausible_first :
      (w : Wait) (ws : List Wait) (p : Process)
      → plausible (w ∷ ws) p ≡ true
      → plausible_round w p ≡ true
  unfolding plausible
  plausible_first w ws p h = ground arith
