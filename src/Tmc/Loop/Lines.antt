-- ===== src/Tmc/Loop/Lines.antt =====
-- nodes/tmc/src/main.c: the loop over the lines that were received.
use equipment_control.Prelude.{
  ◌∙◌, ◌⊎◌, not, ℕ, zero, suc, ◌<◌, ◌≡◌, refl, ap, Bool, some, Bytes, length, arith, Bool-cases,
  Option-cases, inl, inr, ◌==◌, ◌&&◌,
}
use equipment_control.Protocol.Double.{Double}
use equipment_control.Protocol.Message.{Message}
use equipment_control.Protocol.Session.Stream.{pop_line-cases}
use equipment_control.Protocol.Codec.Parse.{line_parse}
use equipment_control.Tmc.{TmcState, TmcEffect, TmcResult, handle_req_message}
use equipment_control.Tmc.Loop.{
  buf_size, TmcProcess, Flow, goes_on, broken, after_effect, flow_of, answer, serve_message,
  serve_line, serve_lines, is_registered,
}
use equipment_control.Tmc.Timing.{IsTimed, Begun, handle-IsTimed, handle-Begun}

-- The process of a flow.
abbrev pub process_of : Flow → TmcProcess
process_of (goes_on p) = p
process_of (broken p) = p

Flow-cases : (f : Flow) → (f ≡ goes_on (process_of f)) ⊎ (f ≡ broken (process_of f))
Flow-cases (goes_on p) = inl refl
Flow-cases (broken p) = inr refl

pub flow_of-process : (r : TmcResult) (p : TmcProcess) → process_of (flow_of r p) ≡ p
unfolding flow_of
flow_of-process TmcResult.failed p = refl
flow_of-process TmcResult.unmoved p = refl
flow_of-process TmcResult.moved p = refl

-- The time of the start is kept during a transfer and only then, and is then one of the readings of the
-- clock so far.
pub record IsClocked (clock : ℕ → ℕ) (p : TmcProcess) : Type 0 where
  pub timed : IsTimed p.ctx
  pub begun :
      p.ctx.state ≡ TmcState.transferring
      → (n : ℕ) × (n < p.readings) × (p.ctx.transfer_started_ms ≡ clock n)

-- After a reading of the clock with which a transfer may begin.
effect-IsClocked :
    (clock : ℕ → ℕ) (p : TmcProcess) (e : TmcEffect)
    → IsClocked clock p
    → IsTimed e.ctx
    → Begun (clock p.readings) p.ctx e.ctx
    → IsClocked clock (after_effect p e)
effect-IsClocked clock p e c t b = record { timed = t; begun = λ h. since (b h) }
  where
    since :
        (e.ctx.transfer_started_ms ≡ clock p.readings)
          ⊎ ((p.ctx.state ≡ TmcState.transferring)
              × (e.ctx.transfer_started_ms ≡ p.ctx.transfer_started_ms))
        → (n : ℕ) × (n < suc p.readings) × (e.ctx.transfer_started_ms ≡ clock n)
    since (inl now) = (p.readings, omega arith, now)
    since (inr (before, same)) = let (n, less, at) = c.begun before in (n, omega arith, same ∙ at)

module _ {D : Type 0} (double : Double D) (can_send : Bytes → Bool) (clock : ℕ → ℕ)
    (running_clock : (n : ℕ) → 0 < clock n) where
  -- A line leaves the session as it is, and the time of a transfer clocked.
  abbrev Keeps : TmcProcess → TmcProcess → Type 0
  Keeps p q = IsClocked clock q × (q.session ≡ p.session)

  answer-Keeps :
      (m : Message D) (p : TmcProcess)
      → IsClocked clock p
      → Keeps p (process_of (answer double can_send clock m p))
  unfolding answer
  answer-Keeps m p t =
      let e = handle_req_message double can_send (clock p.readings) p.ctx m in
      let timed =
        handle-IsTimed double can_send (clock p.readings) p.ctx m (running_clock p.readings)
          t.timed in
      let begun = handle-Begun double can_send (clock p.readings) p.ctx m in
      rw (flow_of-process e.result (after_effect p e))
        (effect-IsClocked clock p e t timed begun, refl)

  serve_message-Keeps :
      (m : Message D) (p : TmcProcess)
      → IsClocked clock p
      → Keeps p (process_of (serve_message double can_send clock m p))
  unfolding serve_message
  serve_message-Keeps m p t = elim (Bool-cases (is_registered double can_send clock m)) [
    | inl registered ↦ simp registered (t, refl)
    | inr other ↦ elim (Bool-cases (m.has_dev && not (m.dev == 100))) [
      | inl foreign ↦ simp (other, foreign) (t, refl)
      | inr own ↦ simp (other, own) (answer-Keeps m p t)
    ]
  ]

  serve_line-Keeps :
      (l : Bytes) (p : TmcProcess)
      → IsClocked clock p
      → Keeps p (process_of (serve_line double can_send clock l p))
  unfolding serve_line
  serve_line-Keeps l p t = elim (Option-cases (line_parse double l)) [
    | inl bad ↦ rw (serve_line, bad) (t, refl)
    | inr (m, e) ↦ rw (serve_line, e) (serve_message-Keeps m p t)
  ]

  pub serve_lines_total :
      (fuel : ℕ) (p : TmcProcess)
      → length p.session.buf < fuel
      → IsClocked clock p
      → (q : TmcProcess) × (serve_lines double can_send clock fuel p ≡ some q) × IsClocked clock q
  unfolding serve_lines
  serve_lines_total zero p h t = elim h [ ]
  serve_lines_total (suc fuel) p h t = elim (pop_line-cases buf_size p.session.buf) [
    | inl (inl e) ↦ (p, rw (serve_lines, e) refl, t)
    | inl (inr e) ↦ (p, rw (serve_lines, e) refl, t)
    | inr (l, rest, e, shorter) ↦
        let p' : TmcProcess = record p { session = record { buf = rest } } in
        let f = serve_line double can_send clock l p' in
        let (timed, same) = serve_line-Keeps l p' (record { timed = t.timed; begun = t.begun }) in
        elim (Flow-cases f) [
          | inl on ↦
              let (q, found, good) =
                serve_lines_total fuel (process_of f) (omega (arith, ap (λ x. length x.buf) same))
                  timed in
              (q, rw (serve_lines, e, on) found, good)
          | inr off ↦ (process_of f, rw (serve_lines, e, off) refl, timed)
        ]
  ]
