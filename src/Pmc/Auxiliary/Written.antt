-- ===== src/Pmc/Auxiliary/Written.antt =====
-- nodes/pmc/src/io_manager.c: the lines that a call writes to the auxiliary device.
use equipment_control.Prelude.{
  ℕ, zero, suc, ◌≡◌, refl, ◌∙◌, ap, sym, Bool, not, ◌||◌, List, [], ◌∷◌, ◌++◌, if◌then◌else◌, ◌==◌,
  arith, Bool-cases, Option-cases, inl, inr, Bytes, codes, All, All-append, All-map, append_assoc,
}
use equipment_control.Pmc.Serial.{
  SerialLink, Port, serial_link_read_line, serial_link_write_line, serial_link_open,
  serial_link_close,
}
use equipment_control.Pmc.Serial.Lines.{write_line-written}
use equipment_control.Pmc.Pico.Replies.{read_line-written, wait_reply-written}
use equipment_control.Pmc.Pico.{
  max_tries, pico_device_ping, pico_device_set_heater, PicoDevice, pico_send_and_wait,
  pico_device_open, pico_device_close,
}
use equipment_control.Pmc.Auxiliary.{
  AuxState, Request, request, drain_lines, pmc_aux_drain_boot_lines, close_if_connected, open_aux,
  pmc_aux_reconnect, after_reconnect, with_retry, ready_session,
}

-- The lines written between two states of the serial line, the last one first, have a property.
pub record Wrote (P : Bytes → Type 0) (p p' : Port) : Type 0 where
  pub lines : List Bytes
  pub written_then : p'.written ≡ lines ++ p.written
  pub lines_all : All P lines

pub Wrote-none : (P : Bytes → Type 0) (p p' : Port) → p'.written ≡ p.written → Wrote P p p'
Wrote-none P p p' e = record { lines = []; written_then = e; lines_all = tt }

pub Wrote-trans : (P : Bytes → Type 0) (p q r : Port) → Wrote P p q → Wrote P q r → Wrote P p r
Wrote-trans P p q r a b = record {
  lines = b.lines ++ a.lines;
  written_then =
      b.written_then
      ∙ ap (λ t. b.lines ++ t) a.written_then
      ∙ sym (append_assoc b.lines a.lines p.written);
  lines_all = All-append P b.lines a.lines b.lines_all a.lines_all;
}

pub Wrote-map :
    (P Q : Bytes → Type 0) (p q : Port) → ((l : Bytes) → P l → Q l) → Wrote P p q → Wrote Q p q
Wrote-map P Q p q f w = record {
  lines = w.lines;
  written_then = w.written_then;
  lines_all = All-map P Q f w.lines w.lines_all;
}

drain_lines-written :
    (n : ℕ) (link : SerialLink) (port : Port) → (drain_lines n link port).written ≡ port.written
unfolding drain_lines
drain_lines-written zero link port = refl
drain_lines-written (suc n) link port = ground (
  arith,
  read_line-written link 128 port,
  drain_lines-written n link (serial_link_read_line link 128 port).1,
)

-- A line written with its newline.
abbrev pub IsLine : Bytes → Bytes → Type 0
IsLine cmd l = l ≡ cmd ++ b'\n' ∷ []

written_once-Wrote :
    (cmd : Bytes) (p p' : Port)
    → p'.written ≡ (cmd ++ b'\n' ∷ []) ∷ p.written
    → Wrote (IsLine cmd) p p'
written_once-Wrote cmd p p' e = record {
  lines = (cmd ++ b'\n' ∷ []) ∷ [];
  written_then = e;
  lines_all = (refl, tt);
}

send_and_wait-Wrote :
    (cmd : Bytes) (sz : ℕ) (dev : PicoDevice) (port : Port)
    → Wrote (IsLine cmd) port (pico_send_and_wait dev cmd sz port).1
unfolding pico_send_and_wait
send_and_wait-Wrote cmd sz dev port =
    let (one, nothing) = write_line-written dev.link cmd port in
    elim (Bool-cases (not dev.connected || sz == 0)) [
      | inl bad ↦ rw (pico_send_and_wait, bad) (Wrote-none _ port port refl)
      | inr fine ↦ elim (Bool-cases (serial_link_write_line dev.link cmd port).0) [
        | inl ok ↦
            rw (pico_send_and_wait, fine, ok)
              (written_once-Wrote cmd port _ (wait_reply-written max_tries dev.link sz _ ∙ one ok))
        | inr ko ↦ rw (pico_send_and_wait, fine, ko) (Wrote-none _ port _ (nothing ko))
      ]
    ]

-- A request that writes only lines with a property.
abbrev pub Writes : (Bytes → Type 0) → Request → Type 0
Writes P f = (dev : PicoDevice) (port : Port) → Wrote P port (f dev port).1

pub ping-Writes :
    (sz : ℕ) → Writes (IsLine (codes "PING")) (λ dev port. pico_device_ping dev sz port)
unfolding pico_device_ping
ping-Writes sz dev port = send_and_wait-Wrote (codes "PING") sz dev port

pub set_heater-Writes :
    (on : Bool) (sz : ℕ)
    → Writes
        (IsLine (if on then codes "SET HEATER ON" else codes "SET HEATER OFF"))
        (λ dev port. pico_device_set_heater dev on sz port)
unfolding pico_device_set_heater
set_heater-Writes on sz dev port = send_and_wait-Wrote _ sz dev port

serial_link_open-written :
    (path : Bytes) (baudrate : ℕ) (port : Port)
    → (serial_link_open path baudrate port).1.written ≡ port.written
unfolding serial_link_open
serial_link_open-written path baudrate port = ground arith

open_aux-written : (path : Bytes) (s : AuxState) → (open_aux path s).1.port.written ≡ s.port.written
unfolding open_aux pico_device_open pmc_aux_drain_boot_lines
open_aux-written path s =
    let ((ok, link), port) = serial_link_open path s.cfg.baudrate s.port in
    ground
      (arith, serial_link_open-written path s.cfg.baudrate s.port, drain_lines-written 4 link port)

close_if_connected-written : (s : AuxState) → (close_if_connected s).port.written ≡ s.port.written
unfolding close_if_connected pico_device_close serial_link_close
close_if_connected-written s = ground arith

reconnect-written : (s : AuxState) → (pmc_aux_reconnect s).1.port.written ≡ s.port.written
unfolding pmc_aux_reconnect
reconnect-written s =
    ground (
      arith,
      open_aux-written s.cfg.serial_path (close_if_connected s),
      close_if_connected-written s,
    )

pub ready_session-written : (s : AuxState) → (ready_session s).1.port.written ≡ s.port.written
unfolding ready_session
ready_session-written s = ground (arith, reconnect-written s)

-- However often the request is tried.
pub with_retry-Wrote :
    (P : Bytes → Type 0) (f : Request)
    → Writes P f
    → (s : AuxState) → Wrote P s.port (with_retry f s).1.port
unfolding with_retry after_reconnect
with_retry-Wrote P f w s =
    let first = w s.cfg.dev s.port in
    let again = pmc_aux_reconnect (request f s).1 in
    let twice : Wrote P s.port again.1.port =
      Wrote-trans P s.port _ _ first (Wrote-none P _ _ (reconnect-written (request f s).1)) in
    let thrice : Wrote P s.port (f again.1.cfg.dev again.1.port).1 =
      Wrote-trans P s.port _ _ twice (w again.1.cfg.dev again.1.port) in
    elim (Option-cases (f s.cfg.dev s.port).0) [
      | inr (reply, e) ↦ rw (with_retry, e) first
      | inl n ↦ elim (Bool-cases again.0) [
        | inr ko ↦ rw (with_retry, n, ko) twice
        | inl ok ↦ elim (Option-cases (f again.1.cfg.dev again.1.port).0) [
          | inl m ↦ rw (with_retry, n, ok, after_reconnect, m) thrice
          | inr (reply, e) ↦ rw (with_retry, n, ok, after_reconnect, e) thrice
        ]
      ]
    ]
