-- ===== src/Pmc/Snapshot.antt =====
-- nodes/pmc/src/io_manager.c: the snapshot of the auxiliary device for a STATUS, and the calls that open
-- the device for one request. `float` and what the C library does with it are given.
use equipment_control.Prelude.{
  ℕ, Bool, true, false, not, ◌||◌, [], Option, none, some, if◌then◌else◌, Bytes, codes, str_eq,
  copy_str,
}
use equipment_control.Prelude.Int.{ℤ, pos, eqb_ℤ}
use equipment_control.Pmc.Serial.{Port}
use equipment_control.Pmc.Pico.{
  pico_device_open, pico_device_close, pico_device_ping, pico_device_read_temp,
  pico_device_set_heater,
}
use equipment_control.Pmc.Auxiliary.{
  AuxState, Request, ready_session, pmc_aux_read_heater_with_retry, pmc_aux_read_temp_with_retry,
}

pub record Float (F : Type 0) : Type 0 where
  -- 0.0f
  pub zero_float : F
  -- `sscanf(s, "TEMP %f", &x) == 1`, with `x`
  pub scan_temp : Bytes → Option F
  -- `snprintf(..., "%.2f", x)`
  pub print_2f : F → Bytes

pub record Snapshot (F : Type 0) : Type 0 where
  pub valid : Bool
  pub heater_known : Bool
  pub heater_on : Bool
  pub temp_known : Bool
  pub temp_c : F
  pub heater_raw : Bytes
  pub temp_raw : Bytes

module _ {F : Type 0} (float : Float F) where
  open float use {zero_float, scan_temp}

  abbrev pub zero_snapshot : Snapshot F
  zero_snapshot = record {
    valid = false;
    heater_known = false;
    heater_on = false;
    temp_known = false;
    temp_c = zero_float;
    heater_raw = [];
    temp_raw = [];
  }

  -- The reply to READ HEATER.
  unfoldable pub note_heater : Option Bytes → Snapshot F → Snapshot F
  note_heater none out = out
  note_heater (some reply) out = record out {
    heater_raw = copy_str 31 reply;
    heater_on = if str_eq reply (codes "HEATER ON") then true else out.heater_on;
    heater_known = str_eq reply (codes "HEATER ON") || str_eq reply (codes "HEATER OFF");
  }

  -- The reply to READ TEMP.
  unfoldable pub note_temp : Option Bytes → Snapshot F → Snapshot F
  note_temp none out = out
  note_temp (some reply) out = elim (scan_temp reply) [
    | none ↦ record out { temp_raw = copy_str 31 reply }
    | some value ↦ record out { temp_raw = copy_str 31 reply; temp_known = true; temp_c = value }
  ]

  unfoldable pub note_valid : Snapshot F → Snapshot F
  note_valid out = if out.heater_known || out.temp_known then record out { valid = true } else out

  -- The two reads, each with a buffer of 64 bytes.
  unfoldable pub read_both : AuxState → Snapshot F × AuxState
  read_both s =
      let (heater, s') = pmc_aux_read_heater_with_retry 64 s in
      let (temp, s'') = pmc_aux_read_temp_with_retry 64 s' in
      (note_valid (note_temp temp (note_heater heater zero_snapshot)), s'')

  -- The snapshot, with whether the result is 0.
  unfoldable pub pmc_io_read_aux_snapshot : ℤ → AuxState → (Bool × Snapshot F) × AuxState
  pmc_io_read_aux_snapshot dev_id s =
      if not (eqb_ℤ dev_id (pos 1)) || not s.cfg.enabled
      then ((true, zero_snapshot), s)
      else (let (ok, s') = ready_session s in
          if not ok
          then ((false, zero_snapshot), s')
          else (let (out, s'') = read_both s' in ((true, out), s'')))

-- What the three calls `pmc_io_uart_...` do, each with its request.
unfoldable pub open_and_request : Request → Bytes → ℕ → Port → Option Bytes × Port
open_and_request f path baudrate port =
    let ((ok, dev), opened) = pico_device_open path baudrate port in
    if not ok
    then (none, opened)
    else (let (reply, asked) = f dev opened in (reply, (pico_device_close dev asked).1))

unfoldable pub pmc_io_uart_ping : Bytes → ℕ → ℕ → Port → Option Bytes × Port
pmc_io_uart_ping path baudrate sz =
    open_and_request (λ dev port. pico_device_ping dev sz port) path baudrate

unfoldable pub pmc_io_uart_read_temp : Bytes → ℕ → ℕ → Port → Option Bytes × Port
pmc_io_uart_read_temp path baudrate sz =
    open_and_request (λ dev port. pico_device_read_temp dev sz port) path baudrate

unfoldable pub pmc_io_uart_set_heater : Bytes → ℕ → Bool → ℕ → Port → Option Bytes × Port
pmc_io_uart_set_heater path baudrate on sz =
    open_and_request (λ dev port. pico_device_set_heater dev on sz port) path baudrate
