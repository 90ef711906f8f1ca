-- ===== src/Tmc/Loop/Rounds.antt =====
-- nodes/tmc/src/main.c: the time of a transfer in the rounds of `main`.
use equipment_control.Prelude.{
  ◌≤◌, ◌>>=◌, List, [], ◌∷◌, Option, none, ℕ, suc, ◌+◌, ◌<◌, ◌≡◌, refl, ◌∙◌, sym, Bool, some, Bytes,
  length, arith, Option-cases, inl, inr,
}
use equipment_control.Protocol.Double.{Double}
use equipment_control.Tmc.{TmcState, TmcEffect, tmc_init, send_status_evt}
use equipment_control.Tmc.Transfers.{Timed, send_status_evt_kept}
use equipment_control.Tmc.Loop.{
  buf_size, TmcProcess, Flow, goes_on, broken, after_effect, flow_of, answer, serve_message,
  serve_line, serve_lines, is_registered, registration, Received, arrived, ended, nothing, receive,
  tmc_round, tmc_rounds, first_status, tmc_start,
}
use equipment_control.Tmc.Loop
use equipment_control.Tmc.Timing.{tick_state_machine-IsShort, tick_state_machine-GoesOn}
use equipment_control.Protocol.Session.{session_feed, session_init}
use equipment_control.Tmc.Loop.Lines.{IsClocked, process_of, flow_of-process, serve_lines_total}

module _ (clock : ℕ → ℕ) where
  -- The time of the start is kept exactly during a transfer, and then is a reading of the clock up to the
  -- last one, at which the transfer had begun less than 2000 ms before.
  pub record IsOnTime (p : TmcProcess) : Type 0 where
    pub timed : Timed p.ctx.state p.ctx.transfer_started_ms
    pub last : ℕ
    pub is_last : p.readings ≡ suc last
    pub begun :
        p.ctx.state ≡ TmcState.transferring
        → (n : ℕ) × (n ≤ last) × (p.ctx.transfer_started_ms ≡ clock n)
    pub short : p.ctx.state ≡ TmcState.transferring → clock last < p.ctx.transfer_started_ms + 2000

  -- The loop goes on on time, or has ended with the time of a transfer kept.
  pub data Punctual : Flow → Type 0 where
    running : {p : TmcProcess} → IsOnTime p → Punctual (goes_on p)
    stopped : {p : TmcProcess} → IsClocked clock p → Punctual (broken p)

  on_time-IsClocked : (p : TmcProcess) → IsOnTime p → IsClocked clock p
  on_time-IsClocked p o = record {
    timed = o.timed;
    begun = λ h. let (n, most, at) = o.begun h in (n, omega (arith, o.is_last), at);
  }

going :
    (f : Flow) (q : TmcProcess)
    → (elim f [ goes_on p ↦ some p | broken p ↦ none ]) ≡ some q
    → process_of f ≡ q
going (goes_on p) q h = cc
going (broken p) q h = cc

module _ {D : Type 0} (double : Double D) (can_send : Bytes → Bool) (clock : ℕ → ℕ)
    (running_clock : (n : ℕ) → 0 < clock n) where
  receive_total :
      (r : Received) (p : TmcProcess)
      → IsClocked clock p
      → (f : Flow) × (receive double can_send clock r p ≡ some f) × IsClocked clock (process_of f)
  unfolding receive
  receive_total nothing p t = (goes_on p, refl, t)
  receive_total ended p t = (broken p, refl, t)
  receive_total (arrived bytes) p t = elim (Option-cases (session_feed p.session bytes)) [
    | inl overflow ↦ (broken p, rw (receive, overflow) refl, t)
    | inr (fed, f) ↦
        let (q, e, good) =
          serve_lines_total double can_send clock running_clock (suc (length fed.buf))
            (record p { session = fed }) (omega arith)
            (record { timed = t.timed; begun = t.begun }) in
        (goes_on q, rw (receive, f, e) refl, good)
  ]

  tick-IsOnTime :
      (p : TmcProcess) → IsClocked clock p → IsOnTime clock (Loop.tick double can_send clock p)
  unfolding Loop.tick
  tick-IsOnTime p t =
      let (timed, short) =
        tick_state_machine-IsShort double can_send (clock p.readings) p.ctx t.timed in
      let still = tick_state_machine-GoesOn double can_send (clock p.readings) p.ctx in
      record {
        timed = timed;
        last = p.readings;
        is_last = refl;
        begun = λ h.
            let (before, same) = still h in
            let (n, less, at) = t.begun before in (n, omega arith, same ∙ at);
        short = short;
      }

  round_by :
      (r : Received) (p : TmcProcess) (f : Flow)
      → receive double can_send clock r p ≡ some f
      → IsClocked clock (process_of f)
      → (g : Flow) × (tmc_round double can_send clock r p ≡ some g) × Punctual clock g
  unfolding tmc_round
  round_by r p (goes_on q) e t = (
    goes_on (Loop.tick double can_send clock q),
    rw (tmc_round, e) refl,
    running (tick-IsOnTime q t),
  )
  round_by r p (broken q) e t = (broken q, rw (tmc_round, e) refl, stopped t)

  rounds_by :
      (r : Received) (rs : List Received) (p : TmcProcess) (f : Flow)
      → tmc_round double can_send clock r p ≡ some f
      → Punctual clock f
      → ((q : TmcProcess)
          → IsOnTime clock q
          → (g : Flow) × (tmc_rounds double can_send clock rs q ≡ some g) × Punctual clock g)
      → (g : Flow) × (tmc_rounds double can_send clock (r ∷ rs) p ≡ some g) × Punctual clock g
  unfolding tmc_rounds
  rounds_by r rs p (goes_on q) e (running o) next =
      let (g, found, last) = next q o in (g, rw (tmc_rounds, e) found, last)
  rounds_by r rs p (broken q) e off next = (broken q, rw (tmc_rounds, e) refl, off)

  tmc_rounds_from :
      (rs : List Received) (p : TmcProcess)
      → IsOnTime clock p
      → (f : Flow) × (tmc_rounds double can_send clock rs p ≡ some f) × Punctual clock f
  unfolding tmc_rounds
  tmc_rounds_from [] p o = (goes_on p, refl, running o)
  tmc_rounds_from (r ∷ rs) p o =
      let (f, e, t) = receive_total r p (on_time-IsClocked clock p o) in
      let (g, stepped, good) = round_by r p f e t in
      rounds_by r rs p g stepped good (λ q. tmc_rounds_from rs q)

  idle-IsOnTime :
      (p q : TmcProcess) (e : TmcEffect)
      → p.ctx.state ≡ TmcState.idle
      → p.ctx.transfer_started_ms ≡ 0
      → (e.ctx.state ≡ p.ctx.state) × (e.ctx.transfer_started_ms ≡ p.ctx.transfer_started_ms)
      → after_effect p e ≡ q
      → IsOnTime clock q
  idle-IsOnTime p q e s k (es, ek) same = rw (sym same) (record {
    timed = rw (es ∙ s) (ek ∙ k);
    last = p.readings;
    is_last = refl;
    begun = λ h. cc;
    short = λ h. cc;
  })

  first_status-IsOnTime :
      (p q : TmcProcess)
      → p.ctx.state ≡ TmcState.idle
      → p.ctx.transfer_started_ms ≡ 0
      → first_status double can_send clock p ≡ some q
      → IsOnTime clock q
  unfolding first_status
  first_status-IsOnTime p q s k h =
      let e = send_status_evt double can_send (clock p.readings) p.ctx in
      let f = flow_of e.result (after_effect p e) in
      idle-IsOnTime p q e s k (send_status_evt_kept double can_send (clock p.readings) p.ctx)
        (sym (flow_of-process e.result (after_effect p e)) ∙ going f q h)

  started_by :
      (o : Option Bytes) (p : TmcProcess)
      → (o >>= λ bytes.
          first_status double can_send clock
            (record { ctx = tmc_init; session = session_init; readings = 0; sent = bytes ∷ [] }))
        ≡ some p
      → IsOnTime clock p
  unfolding tmc_init
  started_by none p h = cc
  started_by (some bytes) p h = first_status-IsOnTime _ p refl refl h

  tmc_start-IsOnTime :
      (p : TmcProcess) → tmc_start double can_send clock ≡ some p → IsOnTime clock p
  unfolding tmc_start tmc_init
  tmc_start-IsOnTime p e = started_by _ p e

  -- If no reading of the clock is 0, then once the controller has registered and sent its first status, its
  -- loop never gets stuck, whatever is received. As long as it goes on, the time of the start is kept
  -- exactly during a transfer, and then is one of the readings of the clock, less than 2000 ms before the
  -- last one.
  pub tmc_rounds-Punctual :
      (rs : List Received) (p : TmcProcess)
      → tmc_start double can_send clock ≡ some p
      → (f : Flow) × (tmc_rounds double can_send clock rs p ≡ some f) × Punctual clock f
  tmc_rounds-Punctual rs p e = tmc_rounds_from rs p (tmc_start-IsOnTime p e)
