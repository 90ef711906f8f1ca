-- ===== src/Tmc/Transfers.antt =====
-- nodes/tmc/src/main.c: the states of the controller and the time of a transfer.
use equipment_control.Tmc.{
  simple_resp, handle_req_message, beat, accept, TmcEffect, send_message, end_transfer, TmcCtx,
  tick_state_machine, sent_status, send_status_evt, handle_command, answer_only, after_response,
  TmcState,
}
use equipment_control.Prelude.{
  [], ℕ, ◌+◌, ◌<◌, ◌≡◌, refl, ap, sym, ◌∙◌, Bool, true, false, Option, none, some, arith, leb,
  if◌then◌else◌, Bytes,
}
use equipment_control.Protocol.Message.{Role, MsgType, Message}
use equipment_control.Protocol.Double.{Double}

-- The time of the start is kept during a transfer and only then.
abbrev pub Timed : TmcState → ℕ → Type 0
Timed TmcState.transferring n = 0 < n
Timed _ n = n ≡ 0

-- The moves that a command may make.
pub data Moves : TmcState → MsgType → TmcState → Type 0 where
  starts : Moves TmcState.idle MsgType.start TmcState.transferring
  starts_again : Moves TmcState.done MsgType.start TmcState.transferring
  stops : Moves TmcState.transferring MsgType.stop TmcState.idle
  faults : {s : TmcState} → Moves s MsgType.fault TmcState.fault
  resets : Moves TmcState.fault MsgType.reset TmcState.idle

-- The time of the start in a state that was entered at `now`.
abbrev pub begun_at : ℕ → TmcState → ℕ
begun_at now TmcState.transferring = now
begun_at now _ = 0

-- What a command at `now` does to the state and to the time of the transfer.
pub data MoveOutcome (now : ℕ) (type : MsgType) (s : TmcState) (ctx after : TmcCtx) : Type 0 where
  stays : ((next : TmcState) → ¬ Moves s type next) → after ≡ ctx → MoveOutcome now type s ctx after
  goes :
      Moves s type after.state
      → after.transfer_started_ms ≡ begun_at now after.state
      → MoveOutcome now type s ctx after

abbrev is_moving : MsgType → Bool
is_moving MsgType.start = true
is_moving MsgType.stop = true
is_moving MsgType.fault = true
is_moving MsgType.reset = true
is_moving _ = false

not_moving : {s next : TmcState} {type : MsgType} → is_moving type ≡ false → Moves s type next → ⊥
not_moving e starts = cc
not_moving e starts_again = cc
not_moving e stops = cc
not_moving e faults = cc
not_moving e resets = cc

module _ {D : Type 0} (double : Double D) (can_send : Bytes → Bool) where
  sent_status_kept :
      (now : ℕ) (ctx : TmcCtx) (o : Option Bytes)
      → ((sent_status double can_send now ctx o).ctx.state ≡ ctx.state)
        × ((sent_status double can_send now ctx o).ctx.transfer_started_ms
            ≡ ctx.transfer_started_ms)
  unfolding sent_status
  sent_status_kept now ctx none = (refl, refl)
  sent_status_kept now ctx (some line) = (refl, refl)

  pub send_status_evt_kept :
      (now : ℕ) (ctx : TmcCtx)
      → ((send_status_evt double can_send now ctx).ctx.state ≡ ctx.state)
        × ((send_status_evt double can_send now ctx).ctx.transfer_started_ms
            ≡ ctx.transfer_started_ms)
  unfolding send_status_evt
  send_status_evt_kept now ctx = sent_status_kept now ctx _

  after_response_kept :
      (now : ℕ) (ctx : TmcCtx) (o : Option Bytes)
      → ((after_response double can_send now ctx o).ctx.state ≡ ctx.state)
        × ((after_response double can_send now ctx o).ctx.transfer_started_ms
            ≡ ctx.transfer_started_ms)
  unfolding after_response
  after_response_kept now ctx none = (refl, refl)
  after_response_kept now ctx (some line) = send_status_evt_kept now ctx

  answer_only_kept :
      (ctx : TmcCtx) (o : Option Bytes) → (answer_only double can_send ctx o).ctx ≡ ctx
  unfolding answer_only
  answer_only_kept ctx none = refl
  answer_only_kept ctx (some line) = refl

  beat_kept : (now : ℕ) (e : TmcEffect) → (beat double can_send now e).ctx.state ≡ e.ctx.state
  unfolding beat
  beat_kept now e = ground (arith, send_status_evt_kept now e.ctx)

  end_transfer_at :
      (now : ℕ) (ctx : TmcCtx)
      → 0 < ctx.transfer_started_ms
      → ctx.state ≡ TmcState.transferring
      → (end_transfer double can_send TmcState.transferring now ctx).ctx.state ≡ (
          if leb (ctx.transfer_started_ms + 2000) now then TmcState.done else TmcState.transferring)
  unfolding end_transfer
  end_transfer_at now ctx p s = ground (
    arith,
    send_status_evt_kept now (record ctx { state = TmcState.done; transfer_started_ms = 0 }),
  )

  -- After the tick at `now`, a transfer whose time of start is not 0 is done when at least 2000 ms have
  -- gone by since, and goes on otherwise, whether or not the status could be sent.
  pub tick_state_machine_transfer :
      (now : ℕ) (ctx : TmcCtx)
      → ctx.state ≡ TmcState.transferring
      → 0 < ctx.transfer_started_ms
      → (tick_state_machine double can_send now ctx).ctx.state ≡ (
          if leb (ctx.transfer_started_ms + 2000) now then TmcState.done else TmcState.transferring)
  unfolding tick_state_machine
  tick_state_machine_transfer now ctx s p =
      beat_kept now (end_transfer double can_send ctx.state now ctx)
      ∙ ap (λ k. (end_transfer double can_send k now ctx).ctx.state) s
      ∙ end_transfer_at now ctx p s

  accept-MoveOutcome :
      (type : MsgType) (s : TmcState) (now : ℕ) (ctx next : TmcCtx) (m : Message D)
      → Moves s type next.state
      → next.transfer_started_ms ≡ begun_at now next.state
      → MoveOutcome now type s ctx (accept double can_send now next m).ctx
  unfolding accept
  accept-MoveOutcome type s now ctx next m mv t =
      let kept =
        after_response_kept now next
          (send_message double can_send (simple_resp double can_send m true 0 [])) in
      goes (rw kept.0 mv) (kept.1 ∙ t ∙ ap (begun_at now) (sym kept.0))

  handle_command-MoveOutcome :
      (type : MsgType) (s : TmcState) (now : ℕ) (ctx : TmcCtx) (m : Message D)
      → MoveOutcome now type s ctx (handle_command double can_send type s now ctx m).ctx
  unfolding handle_command
  handle_command-MoveOutcome MsgType.start TmcState.idle now ctx m =
      accept-MoveOutcome _ _ now ctx _ m starts refl
  handle_command-MoveOutcome MsgType.start TmcState.done now ctx m =
      accept-MoveOutcome _ _ now ctx _ m starts_again refl
  handle_command-MoveOutcome MsgType.start TmcState.transferring now ctx m =
      stays (λ n v. elim v [ ]) (answer_only_kept ctx _)
  handle_command-MoveOutcome MsgType.start TmcState.fault now ctx m =
      stays (λ n v. elim v [ ]) (answer_only_kept ctx _)
  handle_command-MoveOutcome MsgType.stop TmcState.transferring now ctx m =
      accept-MoveOutcome _ _ now ctx _ m stops refl
  handle_command-MoveOutcome MsgType.stop TmcState.idle now ctx m =
      stays (λ n v. elim v [ ]) (answer_only_kept ctx _)
  handle_command-MoveOutcome MsgType.stop TmcState.done now ctx m =
      stays (λ n v. elim v [ ]) (answer_only_kept ctx _)
  handle_command-MoveOutcome MsgType.stop TmcState.fault now ctx m =
      stays (λ n v. elim v [ ]) (answer_only_kept ctx _)
  handle_command-MoveOutcome MsgType.fault s now ctx m =
      accept-MoveOutcome _ _ now ctx _ m faults refl
  handle_command-MoveOutcome MsgType.reset TmcState.fault now ctx m =
      accept-MoveOutcome _ _ now ctx _ m resets refl
  handle_command-MoveOutcome MsgType.reset TmcState.idle now ctx m =
      stays (λ n v. elim v [ ]) (answer_only_kept ctx _)
  handle_command-MoveOutcome MsgType.reset TmcState.done now ctx m =
      stays (λ n v. elim v [ ]) (answer_only_kept ctx _)
  handle_command-MoveOutcome MsgType.reset TmcState.transferring now ctx m =
      stays (λ n v. elim v [ ]) (answer_only_kept ctx _)
  handle_command-MoveOutcome _ s now ctx m =
      stays (λ n v. not_moving refl v) (answer_only_kept ctx _)

  -- A request at `now` moves the controller exactly as `Moves` allows, and then the time of the transfer is
  -- `now` if a transfer begins, and else 0; a request that makes no move leaves the context as it was.
  pub handle_req_message-MoveOutcome :
      (now : ℕ) (ctx : TmcCtx) (m : Message D)
      → m.role ≡ Role.req
      → MoveOutcome now m.type ctx.state ctx (handle_req_message double can_send now ctx m).ctx
  unfolding handle_req_message
  handle_req_message-MoveOutcome now ctx m r =
      simp r (handle_command-MoveOutcome m.type ctx.state now ctx m)
