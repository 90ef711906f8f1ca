-- ===== src/Pmc/Lifetime.antt =====
-- nodes/pmc/src/io_manager.c: the auxiliary device over the life of the process, from `main`'s first
-- call on.
use equipment_control.Prelude.{
  ℕ, ◌≡◌, refl, Bool, List, [], ◌∷◌, Bytes, true, false, not, ◌||◌, Bool-cases, inl, inr,
}
use equipment_control.Prelude.Int.{ℤ, pos, eqb_ℤ}
use equipment_control.Protocol.Message.{MsgType}
use equipment_control.Pmc.Serial.{Port}
use equipment_control.Pmc.Pico.{
  pico_device_ping, pico_device_read_temp, pico_device_read_heater, pico_device_set_heater,
}
use equipment_control.Pmc.Auxiliary.{
  AuxState, no_device, ready_session, pmc_aux_ping_with_retry, pmc_aux_set_heater_with_retry,
  pmc_aux_read_temp_with_retry, pmc_aux_read_heater_with_retry, pmc_io_uart_aux_clear,
  pmc_io_uart_aux_configure, pmc_io_uart_aux_shutdown,
}
use equipment_control.Pmc.Auxiliary.Held.{
  Owns, shut, send_and_wait-held, with_retry-Owns, ready_session-Owns, clear-Owns, clear-held,
  configure-Owns,
}
use equipment_control.Pmc.Apply.{
  Applied, applied, refused, apply_ping, apply_heater_on, apply_heater_off, apply_start, apply_type,
  pmc_io_apply_aux_for_command,
}
use equipment_control.Pmc.Snapshot.{Float, pmc_io_read_aux_snapshot, read_both}

-- A call of one of the functions that use the configured device.
pub data AuxCall : Type 0 where
  clear : AuxCall
  configure : Bytes → ℕ → AuxCall
  apply_command : ℤ → MsgType → AuxCall
  snapshot : ℤ → AuxCall

-- What the clear that `main` begins with leaves.
abbrev pub aux_at_start : Port → AuxState
aux_at_start port = record {
  cfg = record {
    enabled = false;
    serial_path = [];
    baudrate = 0;
    dev = no_device;
    session_ready = false;
  };
  port = port;
}

module _ {F : Type 0} (float : Float F) where
  abbrev pub aux_call : AuxCall → AuxState → AuxState
  aux_call clear s = pmc_io_uart_aux_clear s
  aux_call (configure path baudrate) s = (pmc_io_uart_aux_configure path baudrate s).1
  aux_call (apply_command dev type) s = (pmc_io_apply_aux_for_command dev type s).1
  aux_call (snapshot dev) s = (pmc_io_read_aux_snapshot float dev s).1

  abbrev pub aux_calls : List AuxCall → AuxState → AuxState
  aux_calls [] s = s
  aux_calls (c ∷ cs) s = aux_calls cs (aux_call c s)

ping-Owns :
    (base : List ℕ) (sz : ℕ) (s : AuxState)
    → Owns base s
    → Owns base (pmc_aux_ping_with_retry sz s).1
unfolding pmc_aux_ping_with_retry pico_device_ping
ping-Owns base sz s o = with_retry-Owns base _ (λ dev port. send_and_wait-held _ sz dev port) s o

heater-Owns :
    (base : List ℕ) (on : Bool) (sz : ℕ) (s : AuxState)
    → Owns base s
    → Owns base (pmc_aux_set_heater_with_retry on sz s).1
unfolding pmc_aux_set_heater_with_retry pico_device_set_heater
heater-Owns base on sz s o =
    with_retry-Owns base _ (λ dev port. send_and_wait-held _ sz dev port) s o

read_temp-Owns :
    (base : List ℕ) (sz : ℕ) (s : AuxState)
    → Owns base s
    → Owns base (pmc_aux_read_temp_with_retry sz s).1
unfolding pmc_aux_read_temp_with_retry pico_device_read_temp
read_temp-Owns base sz s o =
    with_retry-Owns base _ (λ dev port. send_and_wait-held _ sz dev port) s o

read_heater-Owns :
    (base : List ℕ) (sz : ℕ) (s : AuxState)
    → Owns base s
    → Owns base (pmc_aux_read_heater_with_retry sz s).1
unfolding pmc_aux_read_heater_with_retry pico_device_read_heater
read_heater-Owns base sz s o =
    with_retry-Owns base _ (λ dev port. send_and_wait-held _ sz dev port) s o

start_by-Owns :
    (base : List ℕ) (s : AuxState) (r : Applied)
    → (apply_ping s).0 ≡ r
    → Owns base s
    → Owns base (apply_start s).1
unfolding apply_start apply_ping apply_heater_on
start_by-Owns base s applied e o =
    rw (apply_start, e) (heater-Owns base true 128 _ (ping-Owns base 128 s o))
start_by-Owns base s (refused text) e o = rw (apply_start, e) (ping-Owns base 128 s o)

start-Owns : (base : List ℕ) (s : AuxState) → Owns base s → Owns base (apply_start s).1
start-Owns base s o = start_by-Owns base s _ refl o

type-Owns :
    (base : List ℕ) (type : MsgType) (s : AuxState) → Owns base s → Owns base (apply_type type s).1
unfolding apply_type apply_heater_off
type-Owns base MsgType.start s o = start-Owns base s o
type-Owns base MsgType.stop s o = heater-Owns base false 128 s o
type-Owns base MsgType.reset s o = heater-Owns base false 128 s o
type-Owns base MsgType.fault s o = heater-Owns base false 128 s o
type-Owns base _ s o = o

pub command-Owns :
    (base : List ℕ) (dev : ℤ) (type : MsgType) (s : AuxState)
    → Owns base s
    → Owns base (pmc_io_apply_aux_for_command dev type s).1
unfolding pmc_io_apply_aux_for_command
command-Owns base dev type s o = elim (Bool-cases s.cfg.enabled) [
  | inr off ↦ simp off o
  | inl enable ↦ elim (Bool-cases (ready_session s).0) [
    | inr ko ↦ simp (enable, ko) (ready_session-Owns base s o)
    | inl ok ↦ elim (Bool-cases (eqb_ℤ dev (pos 1))) [
      | inr other ↦ simp (enable, ok, other) (ready_session-Owns base s o)
      | inl one ↦ simp (enable, ok, one) (type-Owns base type _ (ready_session-Owns base s o))
    ]
  ]
]

module _ {F : Type 0} (float : Float F) where
  pub snapshot-Owns :
      (base : List ℕ) (dev : ℤ) (s : AuxState)
      → Owns base s
      → Owns base (pmc_io_read_aux_snapshot float dev s).1
  unfolding pmc_io_read_aux_snapshot read_both
  snapshot-Owns base dev s o = elim (Bool-cases (not (eqb_ℤ dev (pos 1)) || not s.cfg.enabled)) [
    | inl off ↦ simp off o
    | inr on ↦ elim (Bool-cases (ready_session s).0) [
      | inr ko ↦ simp (on, ko) (ready_session-Owns base s o)
      | inl ok ↦
          simp (on, ok)
            (read_temp-Owns base 64 _ (read_heater-Owns base 64 _ (ready_session-Owns base s o)))
    ]
  ]

  call-Owns :
      (base : List ℕ) (c : AuxCall) (s : AuxState) → Owns base s → Owns base (aux_call float c s)
  call-Owns base clear s o = clear-Owns base s o
  call-Owns base (configure path baudrate) s o = configure-Owns base path baudrate s o
  call-Owns base (apply_command dev type) s o = command-Owns base dev type s o
  call-Owns base (snapshot dev) s o = snapshot-Owns base dev s o

  calls-Owns :
      (base : List ℕ) (cs : List AuxCall) (s : AuxState)
      → Owns base s
      → Owns base (aux_calls float cs s)
  calls-Owns base [] s o = o
  calls-Owns base (c ∷ cs) s o = calls-Owns base cs _ (call-Owns base c s o)

  -- Whatever is called in the life of the process, and however the device and the kernel behave, at most
  -- one descriptor is open for the device, the line is open at it exactly when the device counts as
  -- connected, and shutting down leaves the descriptors that were open before.
  pub aux_calls-Owns :
      (cs : List AuxCall) (port : Port)
      → let s = aux_calls float cs (aux_at_start port) in
        Owns port.held s × ((pmc_io_uart_aux_shutdown s).port.held ≡ port.held)
  unfolding pmc_io_uart_aux_shutdown
  aux_calls-Owns cs port =
      let o = calls-Owns port.held cs (aux_at_start port) (shut refl refl refl refl) in
      (o, clear-held port.held _ o)
