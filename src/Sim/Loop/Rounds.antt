-- ===== src/Sim/Loop/Rounds.antt =====
-- nodes/deviced/sim/src/main.c: what holds after every round of the loop.
use equipment_control.Prelude.{
  ℕ, ◌≡◌, refl, ◌∙◌, ap, sym, Bool, true, List, [], ◌∷◌, Option, none, some, Bytes, Bool-cases, inl,
  inr,
}
use equipment_control.Protocol.Double.{Double}
use equipment_control.Sim.{telemetry_build_status_evt, telemetry_build_telemetry_evt, SimState}
use equipment_control.Sim.Run.{boot, then_input, tick, WellFormed, Reached-WellFormed}
use equipment_control.Sim.Process.{
  Arithmetic, process_model_update, process_model_apply_state, InRange, init-InRange,
  apply_state-InRange, update-InRange,
}
use equipment_control.Sim.Loop.{
  buf_size, SimProcess, state_eq, send_to, answer, serve_line, serve_lines, receive, send_status,
  report, measure, sim_round, sim_start, sim_rounds,
}
use equipment_control.Sim.Loop.Lines.{Told, IsSound, send_to-fields, send_to-IsSound, receive_total}
use equipment_control.Sim.Loop.Status.{
  status_line, last_status, last_status-status, status_line-is_status, format_status,
  registration-IsOther, telemetry-IsOther,
}
use equipment_control.Sim.Loop

state_eq→eq : (a b : SimState) → state_eq a b ≡ true → a ≡ b
unfolding state_eq
state_eq→eq SimState.booting SimState.booting h = refl
state_eq→eq SimState.idle SimState.idle h = refl
state_eq→eq SimState.ready SimState.ready h = refl
state_eq→eq SimState.processing SimState.processing h = refl
state_eq→eq SimState.done SimState.done h = refl
state_eq→eq SimState.fault SimState.fault h = refl
state_eq→eq SimState.recovering SimState.recovering h = refl
state_eq→eq _ _ h = cc

module _ {D : Type 0} where
  -- The last STATUS event that was sent says the state that the device is in.
  abbrev pub IsReported : ℕ → SimProcess D → Type 0
  IsReported dev p = last_status p.sent ≡ some (status_line dev p.ctx.fsm.state)

  -- The state is the one that is noted as reported.
  abbrev IsNoted : SimProcess D → Type 0
  IsNoted p = p.last_state ≡ p.ctx.fsm.state

module _ {D : Type 0} (double : Double D) (numbers : Arithmetic D) (can_send : Bytes → Bool)
    (dev : ℕ) (status_sent : (s : SimState) → can_send (status_line dev s) ≡ true) where
  open double use {zero_double}

  send_to-status :
      (d : ℕ) (s : SimState) (p : SimProcess D)
      → d ≡ dev
      → last_status
          (send_to double numbers can_send buf_size
            (telemetry_build_status_evt zero_double d s)
            p).sent
        ≡ some (status_line dev s)
  unfolding send_to
  send_to-status d s p e =
      rw (send_to, e, format_status double dev s, status_sent s)
        (last_status-status p.sent (status_line dev s) (status_line-is_status dev s))

  -- The STATUS of the state that is noted.
  abbrev noted : Told
  noted s = some (status_line dev s)

  tick-IsSound :
      {tell : Told} (p : SimProcess D)
      → IsSound numbers dev tell p
      → IsSound numbers dev tell (Loop.tick double numbers can_send p)
  unfolding Loop.tick
  tick-IsSound p s = record {
    same_dev = s.same_dev;
    reached = then_input tick p.ctx.fsm s.reached;
    in_range = s.in_range;
    told = s.told;
  }

  send_status-IsNoted :
      {tell : Told} (p : SimProcess D)
      → IsSound numbers dev tell p
      → IsSound numbers dev noted (send_status double numbers can_send p)
        × IsNoted (send_status double numbers can_send p)
  unfolding send_status
  send_status-IsNoted p s =
      let status = telemetry_build_status_evt zero_double p.ctx.dev_id p.ctx.fsm.state in
      let (c, md, ss, l) = send_to-fields double numbers can_send dev buf_size status p in
      (
        record {
          same_dev = ap (λ x. x.dev_id) c ∙ s.same_dev;
          reached = rw c s.reached;
          in_range = rw md s.in_range;
          told = send_to-status p.ctx.dev_id p.ctx.fsm.state p s.same_dev;
        },
        sym (ap (λ x. x.fsm.state) c),
      )

  report-IsNoted :
      (p : SimProcess D)
      → IsSound numbers dev noted p
      → IsSound numbers dev noted (report double numbers can_send p)
        × IsNoted (report double numbers can_send p)
  unfolding report
  report-IsNoted p s = elim (Bool-cases (state_eq p.ctx.fsm.state p.last_state)) [
    | inl same ↦ simp same (s, sym (state_eq→eq p.ctx.fsm.state p.last_state same))
    | inr new ↦ simp new (send_status-IsNoted p s)
  ]

  measure-IsNoted :
      (p : SimProcess D)
      → IsSound numbers dev noted p
      → IsNoted p
      → IsSound numbers dev noted (measure double numbers can_send p)
        × IsNoted (measure double numbers can_send p)
  unfolding measure
  measure-IsNoted p s r =
      let model =
        process_model_update numbers (process_model_apply_state p.model p.ctx.fsm.state) in
      let event =
        telemetry_build_telemetry_evt zero_double p.ctx.dev_id model.temp model.pressure
          model.flow in
      let p' : SimProcess D = record p { model = model } in
      let (c, md, ss, l) = send_to-fields double numbers can_send dev buf_size event p' in
      let range =
        update-InRange numbers _ (apply_state-InRange numbers p.model p.ctx.fsm.state s.in_range) in
      (
        send_to-IsSound double numbers can_send dev buf_size event p'
            (telemetry-IsOther double _ _ _ _)
            (record {
              same_dev = s.same_dev;
              reached = s.reached;
              in_range = range;
              told = s.told;
            }),
        l ∙ r ∙ sym (ap (λ x. x.fsm.state) c),
      )

  sim_rounds_total :
      (rs : List (Option Bytes)) (p : SimProcess D)
      → IsSound numbers dev noted p
      → IsNoted p
      → (q : SimProcess D) × (sim_rounds double numbers can_send rs p ≡ some q)
        × IsSound numbers dev noted q
        × IsNoted q
  unfolding sim_rounds sim_round
  sim_rounds_total [] p s r = (p, refl, s, r)
  sim_rounds_total (received ∷ rs) p s r =
      let (q, e, sound) = receive_total double numbers can_send dev received p s in
      let (ticked, reported) =
        report-IsNoted (Loop.tick double numbers can_send q) (tick-IsSound q sound) in
      let (measured, still) = measure-IsNoted _ ticked reported in
      let (last, found, good, same) = sim_rounds_total rs _ measured still in
      (last, rw e found, good, same)

  -- If the STATUS lines of the device can be sent, then however often the loop runs and whatever is
  -- received, it does not get stuck, and after each round the last of the STATUS events among the lines
  -- that were sent says the state of the device, which is well formed, and the readings are within their
  -- bounds.
  pub sim_rounds-IsReported :
      (rs : List (Option Bytes))
      → (q : SimProcess D) × (sim_rounds double numbers can_send rs
            (sim_start double numbers can_send dev)
          ≡ some q)
        × IsReported dev q
        × WellFormed q.ctx.fsm
        × InRange numbers q.model
  unfolding sim_start
  sim_rounds-IsReported rs =
      let registered =
        send_to-IsSound double numbers can_send dev {tell = λ s. none} 512 _ _
          (registration-IsOther double numbers can_send dev)
          (record {
            same_dev = refl;
            reached = boot;
            in_range = init-InRange numbers;
            told = refl;
          }) in
      let (sound, reported) = send_status-IsNoted _ (tick-IsSound _ registered) in
      let (q, e, good, same) = sim_rounds_total rs _ sound reported in
      (q, e, good.told ∙ ap noted same, Reached-WellFormed q.ctx.fsm good.reached, good.in_range)
