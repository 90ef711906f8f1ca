-- ===== src/Pmc/Auxiliary.antt =====
-- nodes/pmc/src/io_manager.c: the auxiliary device, with its reconnection and its retries. The sleep
-- after an open is not modelled. `none` stands for the result -1 of a function with a reply; the reply
-- that it then leaves is overwritten by the caller, so it is not modelled.
pub mod Held
pub mod Written
use equipment_control.Prelude.{
  ℕ, suc, zero, ◌+◌, Bool, true, false, not, ◌&&◌, ◌||◌, [], ◌∷◌, Option, none, some, if◌then◌else◌,
  Bytes, codes, str_eq, has_prefix, copy_str,
}
use equipment_control.Protocol.Message.{MsgType}
use equipment_control.Prelude.Int.{ℤ, pos, eqb_ℤ}
use equipment_control.Pmc.Serial.{
  SerialLink, closed_link, Port, Reading, got, timed_out, failed, serial_link_read_line,
}
use equipment_control.Pmc.Pico.{
  PicoDevice, pico_device_open, pico_device_close, pico_device_ping, pico_device_read_temp,
  pico_device_read_heater, pico_device_set_heater,
}

pub record AuxCfg : Type 0 where
  pub enabled : Bool
  pub serial_path : Bytes
  pub baudrate : ℕ
  pub dev : PicoDevice
  pub session_ready : Bool

-- The device and the serial line, which every function here uses.
pub record AuxState : Type 0 where
  pub cfg : AuxCfg
  pub port : Port

abbrev pub no_device : PicoDevice
no_device = record { link = closed_link; connected = false }

unfoldable pub pmc_aux_reply_is : Bytes → Bytes → Bool
pmc_aux_reply_is reply expect = has_prefix reply expect

-- The loop of `pmc_aux_drain_boot_lines`.
unfoldable pub drain_lines : ℕ → SerialLink → Port → Port
drain_lines zero link port = port
drain_lines (suc i) link port =
    let (r, port') = serial_link_read_line link 128 port in
    elim r [ got line ↦ drain_lines i link port' | timed_out ↦ port' | failed ↦ port' ]

unfoldable pub pmc_aux_drain_boot_lines : AuxState → AuxState
pmc_aux_drain_boot_lines s =
    if not s.cfg.session_ready then s else record s { port = drain_lines 4 s.cfg.dev.link s.port }

-- The device that was given up before a new one is opened.
unfoldable pub close_if_connected : AuxState → AuxState
close_if_connected s =
    if s.cfg.dev.connected
    then (let (dev, port') = pico_device_close s.cfg.dev s.port in
        record { cfg = record s.cfg { dev = dev }; port = port' })
    else s

-- `pico_device_open` into the configuration, and what follows it.
unfoldable pub open_aux : Bytes → AuxState → Bool × AuxState
open_aux path s =
    let ((ok, dev), port') = pico_device_open path s.cfg.baudrate s.port in
    let s' : AuxState = record {
      cfg = record s.cfg { dev = dev; session_ready = ok };
      port = port';
    } in
    if ok then (true, pmc_aux_drain_boot_lines s') else (false, s')

abbrev pub is_empty : Bytes → Bool
is_empty [] = true
is_empty (c ∷ cs) = false

-- Whether the device is open again.
unfoldable pub pmc_aux_reconnect : AuxState → Bool × AuxState
pmc_aux_reconnect s =
    if not s.cfg.enabled || is_empty s.cfg.serial_path
    then (false, s)
    else open_aux s.cfg.serial_path (close_if_connected s)

-- A function of pico_device.c with its command and the size of its reply.
abbrev pub Request : Type 0
Request = PicoDevice → Port → Option Bytes × Port

abbrev pub request : Request → AuxState → Option Bytes × AuxState
request f s = let (r, port') = f s.cfg.dev s.port in (r, record s { port = port' })

-- The second attempt: a failure ends the session.
unfoldable pub after_reconnect : Request → AuxState → Option Bytes × AuxState
after_reconnect f s =
    let (r, s') = request f s in
    elim r [
      | none ↦ (none, record s' { cfg = record s'.cfg { session_ready = false } })
      | some reply ↦ (some reply, s')
    ]

-- What the four functions `pmc_aux_..._with_retry` do, each with its request.
unfoldable pub with_retry : Request → AuxState → Option Bytes × AuxState
with_retry f s =
    let (r, s') = request f s in
    elim r [
      | some reply ↦ (some reply, s')
      | none ↦
          (let (ok, s'') = pmc_aux_reconnect s' in
            if ok then after_reconnect f s'' else (none, s''))
    ]

unfoldable pub pmc_aux_ping_with_retry : ℕ → AuxState → Option Bytes × AuxState
pmc_aux_ping_with_retry sz s = with_retry (λ dev port. pico_device_ping dev sz port) s

unfoldable pub pmc_aux_set_heater_with_retry : Bool → ℕ → AuxState → Option Bytes × AuxState
pmc_aux_set_heater_with_retry on sz s =
    with_retry (λ dev port. pico_device_set_heater dev on sz port) s

unfoldable pub pmc_aux_read_temp_with_retry : ℕ → AuxState → Option Bytes × AuxState
pmc_aux_read_temp_with_retry sz s = with_retry (λ dev port. pico_device_read_temp dev sz port) s

unfoldable pub pmc_aux_read_heater_with_retry : ℕ → AuxState → Option Bytes × AuxState
pmc_aux_read_heater_with_retry sz s = with_retry (λ dev port. pico_device_read_heater dev sz port) s

unfoldable pub pmc_io_uart_aux_clear : AuxState → AuxState
pmc_io_uart_aux_clear s = record {
  cfg = record {
    enabled = false;
    serial_path = [];
    baudrate = 0;
    dev = no_device;
    session_ready = false;
  };
  port = (close_if_connected s).port;
}

-- Whether the device was configured and opened.
unfoldable pub pmc_io_uart_aux_configure : Bytes → ℕ → AuxState → Bool × AuxState
pmc_io_uart_aux_configure path baudrate s =
    if is_empty path
    then (false, s)
    else (let cleared = pmc_io_uart_aux_clear s in
        open_aux path (record cleared {
          cfg = record cleared.cfg {
            serial_path = copy_str 127 path;
            baudrate = baudrate;
            enabled = true;
          };
        }))

unfoldable pub pmc_io_uart_aux_shutdown : AuxState → AuxState
pmc_io_uart_aux_shutdown s = pmc_io_uart_aux_clear s

-- The session that a call begins with: opened again if it is not ready.
unfoldable pub ready_session : AuxState → Bool × AuxState
ready_session s = if s.cfg.session_ready then (true, s) else pmc_aux_reconnect s
