-- ===== src/Pmc/Messages.antt =====
-- nodes/pmc/src/io_manager.c: the messages of the process module controller. `can_write` says which writes
-- succeed; a message sent is its bytes with the descriptor that they are written to.
use equipment_control.Prelude.{
  ℕ, Bool, true, ◌&&◌, List, [], ◌∷◌, ◌++◌, Option, none, some, if◌then◌else◌, Bytes, codes,
  copy_str,
}
use equipment_control.Prelude.Int.{ℤ, pos}
use equipment_control.Protocol.Double.{Double}
use equipment_control.Protocol.Message.{Role, MsgType, Message, zero_message}
use equipment_control.Protocol.Codec.Format.{line_format}
use equipment_control.Pmc.{PmcConnection}
use equipment_control.Pmc.Snapshot.{Float, Snapshot}

abbrev pub Sent : Type 0
Sent = List (ℕ × Bytes)

module _ {D : Type 0} (zero : D) where
  -- The message of `pmc_io_send_error`, before it is sent.
  unfoldable pub error_message : Message D → ℤ → Bytes → Message D
  error_message req code text = record (zero_message zero) {
    role = Role.resp;
    type = MsgType.error;
    dev = if req.has_dev then req.dev else 0;
    has_dev = req.has_dev;
    seq = if req.has_seq then req.seq else 0;
    has_seq = req.has_seq;
    ok = pos 0;
    has_ok = true;
    code = code;
    has_code = true;
    msg = copy_str 127 text;
    has_msg = true;
  }

abbrev on_off : Bool → Bytes
on_off b = if b then codes "ON" else codes "OFF"

module _ {F : Type 0} (float : Float F) where
  open float use {print_2f}

  -- The text of a snapshot, if there is one.
  unfoldable pub snapshot_text : Snapshot F → Option Bytes
  snapshot_text aux =
      if aux.valid && (aux.heater_known && aux.temp_known)
      then some
          (codes "aux_" ++ (on_off aux.heater_on ++ (b'_' ∷ (print_2f aux.temp_c ++ codes "C"))))
      else if aux.valid && aux.heater_known
      then some (codes "aux_" ++ on_off aux.heater_on)
      else if aux.valid && aux.temp_known
      then some (codes "aux_temp_" ++ (print_2f aux.temp_c ++ codes "C"))
      else none

-- `snprintf` into `msg`, with its flag.
abbrev pub with_text : {D : Type 0} → Option Bytes → Message D → Message D
with_text none m = m
with_text (some text) m = record m { msg = copy_str 127 text; has_msg = true }

module _ {D F : Type 0} (zero : D) (float : Float F) where
  -- The message of `pmc_io_send_status_cached`, before it is sent.
  unfoldable pub status_message : Message D → PmcConnection → Snapshot F → Message D
  status_message req sim aux = with_text (snapshot_text float aux) (record (zero_message zero) {
    role = Role.resp;
    type = MsgType.status;
    dev = if req.has_dev then req.dev else 0;
    has_dev = req.has_dev;
    seq = if req.has_seq then req.seq else 0;
    has_seq = req.has_seq;
    ok = pos 1;
    has_ok = true;
    state = copy_str 31 (if sim.has_state then sim.state else codes "UNKNOWN");
    has_state = true;
  })

module _ {D : Type 0} (double : Double D) (can_write : ℕ → Bytes → Bool) where
  open double use {zero_double}

  -- What is sent, or `none` for the result -1.
  unfoldable pub pmc_io_send_message : ℕ → Message D → Option Sent
  pmc_io_send_message fd m = elim (line_format double m 512) [
    | none ↦ none
    | some line ↦ if can_write fd line then some ((fd, line) ∷ []) else none
  ]

  unfoldable pub pmc_io_send_error : ℕ → Message D → ℤ → Bytes → Option Sent
  pmc_io_send_error fd req code text =
      pmc_io_send_message fd (error_message zero_double req code text)

  module _ {F : Type 0} (float : Float F) where
    unfoldable pub pmc_io_send_status_cached :
        ℕ → Message D → PmcConnection → Snapshot F → Option Sent
    pmc_io_send_status_cached fd req sim aux =
        pmc_io_send_message fd (status_message zero_double float req sim aux)
