-- ===== src/Tmc/Loop.antt =====
-- nodes/tmc/src/main.c: `main` of the transfer module controller, once the socket is connected. What `recv`
-- gives is an argument of each round; `clock n` is what the n-th call of `now_ms` returns, where the
-- calls during one request are taken to return the same.
pub mod Lines
pub mod Rounds
use equipment_control.Prelude.{
  true, ℕ, zero, suc, Bool, not, ◌&&◌, List, [], ◌∷◌, ◌++◌, Option, none, some, ◌==◌, if◌then◌else◌,
  Bytes, length, ◌>>=◌,
}
use equipment_control.Prelude.Int.{pos, eqb_ℤ}
use equipment_control.Protocol.Double.{Double}
use equipment_control.Protocol.Message.{Role, MsgType, role_eq, type_eq, Message, zero_message}
use equipment_control.Protocol.Session.{
  Session, session_init, session_feed, session_pop_line, line, no_line, too_long,
}
use equipment_control.Protocol.Codec.Parse.{line_parse}
use equipment_control.Tmc.{
  TmcCtx, TmcEffect, TmcResult, tmc_init, send_message, send_status_evt, handle_req_message,
  tick_state_machine,
}

abbrev pub buf_size : ℕ
buf_size = 1024

-- The context with its session, the calls of the clock and the lines that were sent.
pub record TmcProcess : Type 0 where
  pub ctx : TmcCtx
  pub session : Session
  pub readings : ℕ
  pub sent : List Bytes

-- What `recv` gives: bytes, the end of the connection or an error, or nothing for now.
pub data Received : Type 0 where
  arrived : Bytes → Received
  ended nothing : Received

-- Whether a loop goes on.
pub data Flow : Type 0 where
  goes_on broken : TmcProcess → Flow

-- The process after a call of the clock and what was done with it.
abbrev pub after_effect : TmcProcess → TmcEffect → TmcProcess
after_effect p e = record p { ctx = e.ctx; readings = suc p.readings; sent = p.sent ++ e.sent }

unfoldable pub flow_of : TmcResult → TmcProcess → Flow
flow_of TmcResult.failed p = broken p
flow_of TmcResult.unmoved p = goes_on p
flow_of TmcResult.moved p = goes_on p

module _ {D : Type 0} (double : Double D) (can_send : Bytes → Bool) (clock : ℕ → ℕ) where
  open double use {zero_double}

  abbrev registration : Message D
  registration = record (zero_message zero_double) {
    role = Role.req;
    type = MsgType.register;
    dev = 100;
    has_dev = true;
    seq = 1;
    has_seq = true;
  }

  -- The acknowledgement of the registration.
  unfoldable pub is_registered : Message D → Bool
  is_registered m =
      role_eq m.role Role.resp && type_eq m.type MsgType.register && m.has_ok && eqb_ℤ m.ok (pos 1)

  unfoldable pub answer : Message D → TmcProcess → Flow
  unfolding flow_of
  answer m p =
      let e = handle_req_message double can_send (clock p.readings) p.ctx m in
      flow_of e.result (after_effect p e)

  unfoldable pub serve_message : Message D → TmcProcess → Flow
  unfolding is_registered answer
  serve_message m p =
      if is_registered m
      then goes_on p
      else (if m.has_dev && not (m.dev == 100) then goes_on p else answer m p)

  unfoldable pub serve_line : Bytes → TmcProcess → Flow
  unfolding serve_message
  serve_line l p = elim (line_parse double l) [ none ↦ goes_on p | some m ↦ serve_message m p ]

  -- The loop over the lines; `none` means that the fuel ran out. A line that fails ends this loop only.
  unfoldable pub serve_lines : ℕ → TmcProcess → Option TmcProcess
  serve_lines zero p = none
  serve_lines (suc fuel) p = elim (session_pop_line p.session buf_size) [
    | line l rest ↦ elim (serve_line l (record p { session = rest })) [
      | goes_on q ↦ serve_lines fuel q
      | broken q ↦ some q
    ]
    | no_line ↦ some p
    | too_long ↦ some p
  ]

  -- What was received; an overflow of the session breaks the loop of `main`.
  unfoldable pub receive : Received → TmcProcess → Option Flow
  receive nothing p = some (goes_on p)
  receive ended p = some (broken p)
  receive (arrived bytes) p = elim (session_feed p.session bytes) [
    | none ↦ some (broken p)
    | some fed ↦ elim (serve_lines (suc (length fed.buf)) (record p { session = fed })) [
      | none ↦ none
      | some q ↦ some (goes_on q)
    ]
  ]

  unfoldable pub tick : TmcProcess → TmcProcess
  tick p = after_effect p (tick_state_machine double can_send (clock p.readings) p.ctx)

  -- One round of `while(1)`.
  unfoldable pub tmc_round : Received → TmcProcess → Option Flow
  tmc_round received p = elim (receive received p) [
    | none ↦ none
    | some (broken q) ↦ some (broken q)
    | some (goes_on q) ↦ some (goes_on (tick q))
  ]

  unfoldable pub tmc_rounds : List Received → TmcProcess → Option Flow
  tmc_rounds [] p = some (goes_on p)
  tmc_rounds (r ∷ rs) p = elim (tmc_round r p) [
    | none ↦ none
    | some (broken q) ↦ some (broken q)
    | some (goes_on q) ↦ tmc_rounds rs q
  ]

  -- The status that follows the registration.
  unfoldable pub first_status : TmcProcess → Option TmcProcess
  unfolding flow_of
  first_status p =
      let e = send_status_evt double can_send (clock p.readings) p.ctx in
      elim (flow_of e.result (after_effect p e)) [ goes_on q ↦ some q | broken q ↦ none ]

  -- What comes before the loop; `none` for the exit with status 1.
  unfoldable pub tmc_start : Option TmcProcess
  unfolding tmc_init
  tmc_start = send_message double can_send registration >>= λ bytes.
      first_status
        (record { ctx = tmc_init; session = session_init; readings = 0; sent = bytes ∷ [] })
