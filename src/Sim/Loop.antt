-- ===== src/Sim/Loop.antt =====
-- nodes/deviced/sim/src/main.c: the loop of `main`. What `recv` gives is an argument of each round, `none`
-- for a result that is not positive; `can_send` says which sends succeed, whose results the code ignores.
-- Nothing is sent of a message that does not fit its buffer.
pub mod Status
pub mod Lines
pub mod Rounds
use equipment_control.Prelude.{
  ℕ, zero, suc, Bool, true, false, not, List, [], ◌∷◌, ◌++◌, Option, none, some, if◌then◌else◌,
  Bytes, length, ◌>>=◌,
}
use equipment_control.Protocol.Double.{Double}
use equipment_control.Protocol.Message.{Role, MsgType, Message, zero_message}
use equipment_control.Protocol.Session.{
  Session, session_init, session_feed, session_pop_line, line, no_line, too_long,
}
use equipment_control.Protocol.Codec.Parse.{line_parse}
use equipment_control.Protocol.Codec.Format.{line_format}
use equipment_control.Sim.{
  SimState, Fsm, fsm_init, fsm_tick, SimCtx, sim_handle_message, telemetry_build_status_evt,
  telemetry_build_telemetry_evt,
}
use equipment_control.Sim.Process.{
  Arithmetic, ProcessModel, process_model_init, process_model_apply_state, process_model_update,
}

abbrev pub buf_size : ℕ
buf_size = 1024

-- `sim_ctx_t` with `last_state` of `main`, and what was sent so far.
pub record SimProcess (D : Type 0) : Type 0 where
  pub ctx : SimCtx
  pub model : ProcessModel D
  pub session : Session
  pub last_state : SimState
  pub sent : List Bytes

-- `a == b` on the states.
unfoldable pub state_eq : SimState → SimState → Bool
state_eq SimState.booting SimState.booting = true
state_eq SimState.idle SimState.idle = true
state_eq SimState.ready SimState.ready = true
state_eq SimState.processing SimState.processing = true
state_eq SimState.done SimState.done = true
state_eq SimState.fault SimState.fault = true
state_eq SimState.recovering SimState.recovering = true
state_eq _ _ = false

module _ {D : Type 0} (double : Double D) (numbers : Arithmetic D) (can_send : Bytes → Bool) where
  open double use {zero_double}

  -- `line_format` into a buffer and `send`.
  unfoldable pub send_to : ℕ → Message D → SimProcess D → SimProcess D
  send_to size m p = elim (line_format double m size) [
    | none ↦ p
    | some bytes ↦ if can_send bytes then record p { sent = p.sent ++ bytes ∷ [] } else p
  ]

  -- The answer to a message, if there is one.
  unfoldable pub answer : Message D → SimProcess D → SimProcess D
  answer m p =
      let (ctx, out) = sim_handle_message zero_double p.ctx m in
      let p' : SimProcess D = record p { ctx = ctx } in
      elim out [ none ↦ p' | some reply ↦ send_to buf_size reply p' ]

  unfoldable pub serve_line : Bytes → SimProcess D → SimProcess D
  serve_line l p = elim (line_parse double l) [ none ↦ p | some m ↦ answer m p ]

  -- The loop over the lines; `none` means that the fuel ran out.
  unfoldable pub serve_lines : ℕ → SimProcess D → Option (SimProcess D)
  serve_lines zero p = none
  serve_lines (suc fuel) p = elim (session_pop_line p.session buf_size) [
    | line l rest ↦ serve_lines fuel (serve_line l (record p { session = rest }))
    | no_line ↦ some p
    | too_long ↦ some p
  ]

  -- What was received is dropped if it does not fit the session.
  unfoldable pub receive : Option Bytes → SimProcess D → Option (SimProcess D)
  receive none p = some p
  receive (some bytes) p = elim (session_feed p.session bytes) [
    | none ↦ serve_lines (suc (length p.session.buf)) p
    | some fed ↦ serve_lines (suc (length fed.buf)) (record p { session = fed })
  ]

  unfoldable pub send_status : SimProcess D → SimProcess D
  send_status p =
      record (send_to buf_size (telemetry_build_status_evt zero_double p.ctx.dev_id p.ctx.fsm.state)
        p) { last_state = p.ctx.fsm.state }

  unfoldable pub tick : SimProcess D → SimProcess D
  tick p = record p { ctx = record p.ctx { fsm = fsm_tick p.ctx.fsm } }

  unfoldable pub report : SimProcess D → SimProcess D
  report p = if not (state_eq p.ctx.fsm.state p.last_state) then send_status p else p

  unfoldable pub measure : SimProcess D → SimProcess D
  measure p =
      let model =
        process_model_update numbers (process_model_apply_state p.model p.ctx.fsm.state) in
      send_to buf_size
        (telemetry_build_telemetry_evt zero_double p.ctx.dev_id model.temp model.pressure
          model.flow)
        (record p { model = model })

  -- One round of `while(1)`.
  unfoldable pub sim_round : Option Bytes → SimProcess D → Option (SimProcess D)
  sim_round received p = receive received p >>= λ q. some (measure (report (tick q)))

  abbrev pub registration : ℕ → Message D
  registration dev = record (zero_message zero_double) {
    role = Role.evt;
    type = MsgType.register;
    dev = dev;
    has_dev = true;
  }

  -- What comes before the loop, once the socket is connected. The status is sent unconditionally.
  unfoldable pub sim_start : ℕ → SimProcess D
  sim_start dev = send_status (
      tick (
        send_to 512 (registration dev) (record {
          ctx = record { dev_id = dev; fsm = fsm_init };
          model = process_model_init numbers;
          session = session_init;
          last_state = SimState.booting;
          sent = [];
        })))

  unfoldable pub sim_rounds : List (Option Bytes) → SimProcess D → Option (SimProcess D)
  sim_rounds [] p = some p
  sim_rounds (r ∷ rs) p = sim_round r p >>= sim_rounds rs
