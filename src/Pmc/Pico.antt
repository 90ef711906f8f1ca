-- ===== src/Pmc/Pico.antt =====
-- nodes/pmc/src/pico_device.c: commands to the auxiliary device on the serial line.
pub mod Replies
pub mod First
use equipment_control.Prelude.{
  ℕ, suc, zero, Bool, true, false, not, ◌||◌, [], ◌∷◌, leb, if◌then◌else◌, Bytes, codes, ◌==◌,
  Option, none, some,
}
use equipment_control.Pmc.Serial.{
  SerialLink, closed_link, Port, Reading, got, timed_out, failed, serial_link_open,
  serial_link_close, serial_link_write_line, serial_link_read_line,
}

pub record PicoDevice : Type 0 where
  pub link : SerialLink
  pub connected : Bool

-- The device and whether it was opened; what it held before is overwritten.
unfoldable pub pico_device_open : Bytes → ℕ → Port → (Bool × PicoDevice) × Port
pico_device_open path baudrate port =
    let ((ok, link), port') = serial_link_open path baudrate port in
    ((ok, record { link = link; connected = ok }), port')

unfoldable pub pico_device_close : PicoDevice → Port → PicoDevice × Port
pico_device_close dev port =
    let (link, port') = serial_link_close dev.link port in
    (record { link = link; connected = false }, port')

-- The loop over the tries: the first line that is not empty.
unfoldable pub wait_reply : ℕ → SerialLink → ℕ → Port → Option Bytes × Port
wait_reply zero link reply_sz port = (none, port)
wait_reply (suc tries) link reply_sz port =
    let (r, port') = serial_link_read_line link reply_sz port in
    elim r [
      | got [] ↦ wait_reply tries link reply_sz port'
      | got (c ∷ cs) ↦ (some (c ∷ cs), port')
      | timed_out ↦ (none, port')
      | failed ↦ (none, port')
    ]

abbrev pub max_tries : ℕ
max_tries = 5

-- The reply, or `none` for the result -1: then what the buffer holds is not used.
unfoldable pub pico_send_and_wait : PicoDevice → Bytes → ℕ → Port → Option Bytes × Port
pico_send_and_wait dev cmd reply_sz port =
    if not dev.connected || reply_sz == 0
    then (none, port)
    else (let (written, port') = serial_link_write_line dev.link cmd port in
        if not written then (none, port') else wait_reply max_tries dev.link reply_sz port')

unfoldable pub pico_device_ping : PicoDevice → ℕ → Port → Option Bytes × Port
pico_device_ping dev reply_sz port = pico_send_and_wait dev (codes "PING") reply_sz port

unfoldable pub pico_device_read_temp : PicoDevice → ℕ → Port → Option Bytes × Port
pico_device_read_temp dev reply_sz port = pico_send_and_wait dev (codes "READ TEMP") reply_sz port

unfoldable pub pico_device_read_heater : PicoDevice → ℕ → Port → Option Bytes × Port
pico_device_read_heater dev reply_sz port =
    pico_send_and_wait dev (codes "READ HEATER") reply_sz port

unfoldable pub pico_device_set_heater : PicoDevice → Bool → ℕ → Port → Option Bytes × Port
pico_device_set_heater dev on reply_sz port =
    pico_send_and_wait dev (if on then codes "SET HEATER ON" else codes "SET HEATER OFF") reply_sz
      port
