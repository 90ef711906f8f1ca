-- ===== src/Pmc/Auxiliary/Held.antt =====
-- nodes/pmc/src/io_manager.c: the descriptors that the auxiliary device holds.
use equipment_control.Prelude.{
  ◌||◌, not, Option-cases, ◌⊎◌, inr, ap, ◌∙◌, Option, ==_refl, inl, Bool-cases, ℕ, zero, suc, ◌≡◌,
  refl, true, false, List, ◌∷◌, some, none, [], arith, Bytes,
}
use equipment_control.Pmc.Serial.{
  serial_link_open, serial_link_close, SerialLink, Port, serial_link_read_line,
  serial_link_write_line,
}
use equipment_control.Pmc.Pico.{
  pico_device_open, pico_device_close, PicoDevice, wait_reply, pico_send_and_wait,
}
use equipment_control.Pmc.Auxiliary.{
  is_empty, with_retry, request, ready_session, pmc_io_uart_aux_configure, pmc_io_uart_aux_clear,
  after_reconnect, pmc_aux_reconnect, pmc_aux_drain_boot_lines, open_aux, close_if_connected,
  AuxState, Request, drain_lines,
}

-- The device is closed, or it holds one descriptor and the line is open at it; the others held are
-- `base`. A session is ready only with an open device.
pub data Owns (base : List ℕ) (s : AuxState) : Type 0 where
  shut :
      s.cfg.dev.connected ≡ false
      → s.cfg.dev.link.is_open ≡ false
      → s.cfg.session_ready ≡ false
      → s.port.held ≡ base
      → Owns base s
  open_at :
      (fd : ℕ)
      → s.cfg.dev.connected ≡ true
      → s.cfg.dev.link.is_open ≡ true
      → s.cfg.dev.link.fd ≡ some fd
      → s.port.held ≡ fd ∷ base
      → Owns base s

read_line-held :
    (link : SerialLink) (sz : ℕ) (port : Port)
    → (serial_link_read_line link sz port).1.held ≡ port.held
unfolding serial_link_read_line
read_line-held link sz port = ground arith

write_line-held :
    (link : SerialLink) (line : Bytes) (port : Port)
    → (serial_link_write_line link line port).1.held ≡ port.held
unfolding serial_link_write_line
write_line-held link line port = ground arith

wait_reply-held :
    (tries : ℕ) (link : SerialLink) (sz : ℕ) (port : Port)
    → (wait_reply tries link sz port).1.held ≡ port.held
unfolding wait_reply
wait_reply-held zero link sz port = refl
wait_reply-held (suc tries) link sz port = ground (
  arith,
  read_line-held link sz port,
  wait_reply-held tries link sz (serial_link_read_line link sz port).1,
)

drain_lines-held :
    (n : ℕ) (link : SerialLink) (port : Port) → (drain_lines n link port).held ≡ port.held
unfolding drain_lines
drain_lines-held zero link port = refl
drain_lines-held (suc n) link port = ground (
  arith,
  read_line-held link 128 port,
  drain_lines-held n link (serial_link_read_line link 128 port).1,
)

-- A request that opens and closes nothing.
abbrev pub IsSteady : Request → Type 0
IsSteady f = (dev : PicoDevice) (port : Port) → (f dev port).1.held ≡ port.held

pub send_and_wait-held :
    (cmd : Bytes) (sz : ℕ) (dev : PicoDevice) (port : Port)
    → (pico_send_and_wait dev cmd sz port).1.held ≡ port.held
unfolding pico_send_and_wait
send_and_wait-held cmd sz dev port = ground (
  arith,
  write_line-held dev.link cmd port,
  wait_reply-held 5 dev.link sz (serial_link_write_line dev.link cmd port).1,
)

close_if_connected-held :
    (base : List ℕ) (s : AuxState) → Owns base s → (close_if_connected s).port.held ≡ base
unfolding close_if_connected pico_device_close serial_link_close
close_if_connected-held base s (shut c l r h) = simp (c, h)
close_if_connected-held base s (open_at fd c l f h) = simp (c, l, f, h, ==_refl fd)

boot_lines-Owns :
    (base : List ℕ) (s : AuxState) → Owns base s → Owns base (pmc_aux_drain_boot_lines s)
unfolding pmc_aux_drain_boot_lines
boot_lines-Owns base s (shut c l r h) = simp r (shut c l r h)
boot_lines-Owns base s (open_at fd c l f h) = elim (Bool-cases s.cfg.session_ready) [
  | inl r ↦ simp r (open_at fd c l f (drain_lines-held 4 s.cfg.dev.link s.port ∙ h))
  | inr r ↦ simp r (open_at fd c l f h)
]

opened-Owns :
    (base : List ℕ) (path : Bytes) (s : AuxState) (o : List (Option ℕ))
    → s.port.opens ≡ o
    → s.port.held ≡ base
    → Owns base (open_aux path s).1
unfolding open_aux pico_device_open serial_link_open
opened-Owns base path s [] e h =
    rw (open_aux, pico_device_open, serial_link_open, e) (shut refl refl refl h)
opened-Owns base path s (none ∷ rest) e h =
    rw (open_aux, pico_device_open, e) (shut refl refl refl h)
opened-Owns base path s (some fd ∷ rest) e h =
    rw (open_aux, pico_device_open, serial_link_open, e)
      (boot_lines-Owns base _ (open_at fd refl refl refl (ap (◌∷◌ fd) h)))

open_aux-Owns :
    (base : List ℕ) (path : Bytes) (s : AuxState)
    → s.port.held ≡ base
    → Owns base (open_aux path s).1
open_aux-Owns base path s h = opened-Owns base path s s.port.opens refl h

reconnect-Owns : (base : List ℕ) (s : AuxState) → Owns base s → Owns base (pmc_aux_reconnect s).1
unfolding pmc_aux_reconnect
reconnect-Owns base s o = elim (Bool-cases (not s.cfg.enabled || is_empty s.cfg.serial_path)) [
  | inl off ↦ simp off o
  | inr on ↦ simp on (
      open_aux-Owns base s.cfg.serial_path (close_if_connected s)
        (close_if_connected-held base s o))
]

-- A change of the configuration that keeps the device, with other contents of the line.
moved-Owns :
    (base : List ℕ) (s s' : AuxState)
    → s'.cfg.dev ≡ s.cfg.dev
    → s'.port.held ≡ s.port.held
    → (s'.cfg.session_ready ≡ s.cfg.session_ready) ⊎ (s'.cfg.session_ready ≡ false)
    → Owns base s
    → Owns base s'
moved-Owns base s s' d h r (shut c l n e) = shut (rw d c) (rw d l) (ground arith) (h ∙ e)
moved-Owns base s s' d h r (open_at fd c l f e) = open_at fd (rw d c) (rw d l) (rw d f) (h ∙ e)

request-Owns :
    (base : List ℕ) (f : Request)
    → IsSteady f
    → (s : AuxState) → Owns base s
    → Owns base (request f s).1
request-Owns base f steady s o =
    moved-Owns base s (request f s).1 refl (steady s.cfg.dev s.port) (inl refl) o

after_reconnect-Owns :
    (base : List ℕ) (f : Request)
    → IsSteady f
    → (s : AuxState) → Owns base s
    → Owns base (after_reconnect f s).1
unfolding after_reconnect
after_reconnect-Owns base f steady s o = elim (Option-cases (f s.cfg.dev s.port).0) [
  | inl n ↦
      rw (after_reconnect, n) (moved-Owns base s _ refl (steady s.cfg.dev s.port) (inr refl) o)
  | inr (reply, e) ↦
      rw (after_reconnect, e) (moved-Owns base s _ refl (steady s.cfg.dev s.port) (inl refl) o)
]

pub with_retry-Owns :
    (base : List ℕ) (f : Request)
    → IsSteady f
    → (s : AuxState) → Owns base s
    → Owns base (with_retry f s).1
unfolding with_retry
with_retry-Owns base f steady s o =
    let again = reconnect-Owns base (request f s).1 (request-Owns base f steady s o) in
    elim (Option-cases (f s.cfg.dev s.port).0) [
      | inr (reply, e) ↦ rw (with_retry, e) (request-Owns base f steady s o)
      | inl n ↦ elim (Bool-cases (pmc_aux_reconnect (request f s).1).0) [
        | inl ok ↦ rw (with_retry, n, ok) (after_reconnect-Owns base f steady _ again)
        | inr ko ↦ rw (with_retry, n, ko) again
      ]
    ]

pub ready_session-Owns :
    (base : List ℕ) (s : AuxState) → Owns base s → Owns base (ready_session s).1
unfolding ready_session
ready_session-Owns base s o = elim (Bool-cases s.cfg.session_ready) [
  | inl r ↦ simp r o
  | inr r ↦ simp r (reconnect-Owns base s o)
]

pub clear-Owns : (base : List ℕ) (s : AuxState) → Owns base s → Owns base (pmc_io_uart_aux_clear s)
unfolding pmc_io_uart_aux_clear
clear-Owns base s o = shut refl refl refl (close_if_connected-held base s o)

pub clear-held :
    (base : List ℕ) (s : AuxState) → Owns base s → (pmc_io_uart_aux_clear s).port.held ≡ base
unfolding pmc_io_uart_aux_clear
clear-held base s o = close_if_connected-held base s o

pub configure-Owns :
    (base : List ℕ) (path : Bytes) (baudrate : ℕ) (s : AuxState)
    → Owns base s
    → Owns base (pmc_io_uart_aux_configure path baudrate s).1
unfolding pmc_io_uart_aux_configure
configure-Owns base [] baudrate s o = o
configure-Owns base (c ∷ path) baudrate s o = open_aux-Owns base (c ∷ path) _ (clear-held base s o)
