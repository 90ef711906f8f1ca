-- ===== src/Tests/Transfer.antt =====
-- The transfer controller on concrete inputs.
use equipment_control.Protocol.Codec.Numbers.{digits_onto, print_unsigned}
use equipment_control.Protocol.Codec.Format.{line_format}
use equipment_control.Tmc.{send_status_evt, handle_req_message, TmcState, send_message, TmcCtx}
use equipment_control.Protocol.Message.{MsgType}
use equipment_control.Prelude.{
  [], ◌∷◌, ◌*◌, ℕ, some, codes, List, arith, ◌+◌, ◌≡◌, refl, Bool, true, Bytes,
}
use equipment_control.Tests.{whole, start_one}
use equipment_control.Protocol.Session.{session_init}
use equipment_control.Tmc.Loop.{
  TmcProcess, Received, arrived, nothing, Flow, tmc_start, tmc_rounds, first_status,
}
use equipment_control.Tmc.Loop.Rounds.{tmc_rounds-Punctual, Punctual}
use equipment_control.Tmc.Transfers.{handle_req_message-MoveOutcome, MoveOutcome}

abbrev always : Bytes → Bool
always line = true

abbrev moving : TmcCtx
moving = record {
  state = TmcState.transferring;
  transfer_started_ms = 500;
  last_status_sent_ms = 500;
}

handle_req_message-MoveOutcome_example :
    MoveOutcome 600 MsgType.start TmcState.transferring moving
      (handle_req_message whole always 600 moving start_one).ctx
handle_req_message-MoveOutcome_example =
    handle_req_message-MoveOutcome whole always 600 moving start_one refl

-- A reading of the clock every 900 ms.
abbrev clock : ℕ → ℕ
clock n = n * 900 + 1

abbrev registered : TmcProcess
registered = record {
  ctx = record { state = TmcState.idle; transfer_started_ms = 0; last_status_sent_ms = 1 };
  session = session_init;
  readings = 1;
  sent = codes "REQ REGISTER dev=100 seq=1\n" ∷ codes "EVT STATUS dev=100 state=IDLE\n" ∷ [];
}

is_started : tmc_start whole always clock ≡ some registered
unfolding tmc_start first_status send_message line_format print_unsigned digits_onto send_status_evt
is_started = refl

-- A START in two parts, and then nothing for longer than a transfer.
abbrev received : List Received
received =
    arrived (codes "REQ START dev=1")
    ∷ arrived (codes "00 seq=7\n")
    ∷ nothing
    ∷ nothing
    ∷ nothing
    ∷ []

tmc_rounds-Punctual_example :
    (f : Flow) × (tmc_rounds whole always clock received registered ≡ some f) × Punctual clock f
tmc_rounds-Punctual_example =
    tmc_rounds-Punctual whole always clock (λ n. ground arith) received registered is_started
