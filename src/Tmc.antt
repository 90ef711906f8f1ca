-- ===== src/Tmc.antt =====
-- nodes/tmc/src/main.c: the transfer module controller. Pointers are never null and the socket is open;
-- `can_send` says which sends succeed, and `now` is what `now_ms()` returns during a call. The lines
-- that were sent are collected in order.
pub mod Loop
pub mod Timing
pub mod Transfers
pub mod Heartbeats
use equipment_control.Prelude.{
  ℕ, ◌+◌, Bool, true, false, not, ◌&&◌, ◌||◌, List, [], ◌∷◌, ◌++◌, Option, none, some, ◌==◌, leb,
  ltb, if◌then◌else◌, Bytes, codes, copy_str,
}
use equipment_control.Prelude.Int.{ℤ, pos}
use equipment_control.Protocol.Double.{Double}
use equipment_control.Protocol.Message.{Role, MsgType, role_eq, Message, zero_message}
use equipment_control.Protocol.Codec.Format.{line_format}

pub data TmcState : Type 0 where
  idle transferring done fault : TmcState

pub record TmcCtx : Type 0 where
  pub state : TmcState
  pub transfer_started_ms : ℕ
  pub last_status_sent_ms : ℕ

-- The context before the loop of `main`.
unfoldable pub tmc_init : TmcCtx
tmc_init = record { state = TmcState.idle; transfer_started_ms = 0; last_status_sent_ms = 0 }

unfoldable pub tmc_state_to_string : TmcState → Bytes
tmc_state_to_string TmcState.idle = codes "IDLE"
tmc_state_to_string TmcState.transferring = codes "TRANSFERRING"
tmc_state_to_string TmcState.done = codes "DONE"
tmc_state_to_string TmcState.fault = codes "FAULT"

-- The results -1, 0 and 1 of `handle_req_message`.
pub data TmcResult : Type 0 where
  failed unmoved moved : TmcResult

-- What a call leaves: the context, the lines that were sent and the result.
pub record TmcEffect : Type 0 where
  pub ctx : TmcCtx
  pub sent : List Bytes
  pub result : TmcResult

abbrev tmc_effect : TmcCtx → List Bytes → TmcResult → TmcEffect
tmc_effect ctx sent result = record { ctx = ctx; sent = sent; result = result }

module _ {D : Type 0} (double : Double D) (can_send : Bytes → Bool) where
  open double use {zero_double}

  -- The line that was sent, `none` for the result -1.
  unfoldable pub send_message : Message D → Option Bytes
  send_message m = elim (line_format double m 1024) [
    | none ↦ none
    | some line ↦ if can_send line then some line else none
  ]

  unfoldable pub status_evt : TmcState → Message D
  unfolding tmc_state_to_string
  status_evt s = record (zero_message zero_double) {
    role = Role.evt;
    type = MsgType.status;
    dev = 100;
    has_dev = true;
    state = copy_str 31 (tmc_state_to_string s);
    has_state = true;
  }

  -- The text `text` is that of a refusal.
  unfoldable pub simple_resp : Message D → Bool → ℕ → Bytes → Message D
  simple_resp m ok code text =
      let out : Message D = record (zero_message zero_double) {
        role = Role.resp;
        type = if ok then m.type else MsgType.error;
        dev = if m.has_dev then m.dev else 0;
        has_dev = m.has_dev;
        seq = if m.has_seq then m.seq else 0;
        has_seq = m.has_seq;
        ok = if ok then pos 1 else pos 0;
        has_ok = true;
      } in
      if ok
      then out
      else record out { code = pos code; has_code = true; msg = copy_str 127 text; has_msg = true }

  unfoldable pub status_resp : Message D → TmcState → Message D
  unfolding tmc_state_to_string
  status_resp m s = record (zero_message zero_double) {
    role = Role.resp;
    type = MsgType.status;
    dev = if m.has_dev then m.dev else 0;
    has_dev = m.has_dev;
    seq = if m.has_seq then m.seq else 0;
    has_seq = m.has_seq;
    ok = pos 1;
    has_ok = true;
    state = copy_str 31 (tmc_state_to_string s);
    has_state = true;
  }

  -- The context that `send_status_evt` leaves, and the line if it was sent.
  unfoldable pub sent_status : ℕ → TmcCtx → Option Bytes → TmcEffect
  sent_status now ctx none = tmc_effect ctx [] failed
  sent_status now ctx (some line) =
      tmc_effect (record ctx { last_status_sent_ms = now }) (line ∷ []) moved

  unfoldable pub send_status_evt : ℕ → TmcCtx → TmcEffect
  unfolding sent_status send_message status_evt
  send_status_evt now ctx = sent_status now ctx (send_message (status_evt ctx.state))

  -- A command that was accepted: the response, and then the new status.
  unfoldable pub after_response : ℕ → TmcCtx → Option Bytes → TmcEffect
  unfolding send_status_evt
  after_response now ctx none = tmc_effect ctx [] failed
  after_response now ctx (some line) =
      let e = send_status_evt now ctx in tmc_effect e.ctx (line ∷ e.sent) e.result

  unfoldable pub accept : ℕ → TmcCtx → Message D → TmcEffect
  unfolding after_response simple_resp
  accept now ctx m = after_response now ctx (send_message (simple_resp m true 0 []))

  -- `return send_...(ctx, in, ...)`
  unfoldable pub answer_only : TmcCtx → Option Bytes → TmcEffect
  answer_only ctx none = tmc_effect ctx [] failed
  answer_only ctx (some line) = tmc_effect ctx (line ∷ []) unmoved

  abbrev refuse : TmcCtx → Message D → ℕ → Bytes → TmcEffect
  refuse ctx m code text = answer_only ctx (send_message (simple_resp m false code text))

  abbrev enter_state : TmcCtx → TmcState → ℕ → TmcCtx
  enter_state ctx s started = record ctx { state = s; transfer_started_ms = started }

  -- The test for STATUS and the `switch`, on the type of the request and the state.
  unfoldable pub handle_command : MsgType → TmcState → ℕ → TmcCtx → Message D → TmcEffect
  unfolding accept answer_only send_message simple_resp status_resp
  handle_command MsgType.status s now ctx m = answer_only ctx (send_message (status_resp m s))
  handle_command MsgType.start TmcState.idle now ctx m =
      accept now (enter_state ctx TmcState.transferring now) m
  handle_command MsgType.start TmcState.done now ctx m =
      accept now (enter_state ctx TmcState.transferring now) m
  handle_command MsgType.start _ now ctx m = refuse ctx m 409 (codes "INVALID_STATE_TRANSITION")
  handle_command MsgType.stop TmcState.transferring now ctx m =
      accept now (enter_state ctx TmcState.idle 0) m
  handle_command MsgType.stop _ now ctx m = refuse ctx m 409 (codes "INVALID_STATE_TRANSITION")
  handle_command MsgType.fault _ now ctx m = accept now (enter_state ctx TmcState.fault 0) m
  handle_command MsgType.reset TmcState.fault now ctx m =
      accept now (enter_state ctx TmcState.idle 0) m
  handle_command MsgType.reset _ now ctx m = refuse ctx m 409 (codes "INVALID_STATE_TRANSITION")
  handle_command _ _ now ctx m = refuse ctx m 404 (codes "UNKNOWN_TYPE")

  unfoldable pub handle_req_message : ℕ → TmcCtx → Message D → TmcEffect
  unfolding handle_command
  handle_req_message now ctx m =
      if not (role_eq m.role Role.req)
      then tmc_effect ctx [] unmoved
      else handle_command m.type ctx.state now ctx m

  -- The end of a transfer; `now - started >= 2000` is read as `started + 2000 <= now`.
  unfoldable pub end_transfer : TmcState → ℕ → TmcCtx → TmcEffect
  unfolding send_status_evt
  end_transfer TmcState.transferring now ctx =
      if ltb 0 ctx.transfer_started_ms && leb (ctx.transfer_started_ms + 2000) now
      then send_status_evt now (enter_state ctx TmcState.done 0)
      else tmc_effect ctx [] unmoved
  end_transfer _ now ctx = tmc_effect ctx [] unmoved

  -- The status that is due; `now - last >= 1000` is read as `last + 1000 <= now`.
  unfoldable pub beat : ℕ → TmcEffect → TmcEffect
  unfolding send_status_evt
  beat now e =
      if leb (e.ctx.last_status_sent_ms + 1000) now
      then (let f = send_status_evt now e.ctx in record f { sent = e.sent ++ f.sent })
      else e

  -- The function returns nothing: the result of the effect has no meaning here.
  unfoldable pub tick_state_machine : ℕ → TmcCtx → TmcEffect
  unfolding end_transfer beat
  tick_state_machine now ctx = beat now (end_transfer ctx.state now ctx)
