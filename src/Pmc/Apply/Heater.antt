-- ===== src/Pmc/Apply/Heater.antt =====
-- nodes/pmc/src/io_manager.c: when the heater of the auxiliary device is switched.
use equipment_control.Prelude.{
  sym, ◌∙◌, ◌≡◌, ◌≢◌, refl, inl, inr, Bool, true, false, Option, none, some, if◌then◌else◌, Bytes,
  codes, has_prefix, ◌↔◌, Bool-cases, arith,
}
use equipment_control.Prelude.Int.{ℤ, pos, eqb_ℤ, eqb_ℤ_iff}
use equipment_control.Protocol.Message.{MsgType}
use equipment_control.Pmc.Auxiliary.{
  AuxState, ready_session, pmc_aux_ping_with_retry, pmc_aux_set_heater_with_retry, pmc_aux_reply_is,
}
use equipment_control.Pmc.Auxiliary.Written.{
  Wrote, IsLine, ping-Writes, set_heater-Writes, with_retry-Wrote, ready_session-written,
}
use equipment_control.Pmc.Apply.{
  Applied, applied, refused, check_reply, apply_ping, apply_heater_on, apply_heater_off,
  apply_start, apply_type, pmc_io_apply_aux_for_command,
}

-- The commands that end with the heater off.
pub data IsOff : MsgType → Type 0 where
  stop : IsOff MsgType.stop
  reset : IsOff MsgType.reset
  fault : IsOff MsgType.fault

-- A reply that begins as expected.
abbrev pub IsGood : Bytes → Option Bytes → Type 0
IsGood expect reply = (text : Bytes) × (reply ≡ some text) × (has_prefix text expect ≡ true)

-- The lines of the commands.
abbrev pub IsPing : Bytes → Type 0
IsPing = IsLine (codes "PING")

abbrev pub IsHeaterOn : Bytes → Type 0
IsHeaterOn = IsLine (codes "SET HEATER ON")

abbrev pub IsHeaterOff : Bytes → Type 0
IsHeaterOff = IsLine (codes "SET HEATER OFF")

-- What a command does to the auxiliary device, from a session that is ready, with its result.
pub data Heated (type : MsgType) (s : AuxState) : Applied → AuxState → Type 0 where
  -- another command: nothing happens
  nothing :
      type ≢ MsgType.start
      → type ≢ MsgType.stop
      → type ≢ MsgType.reset
      → type ≢ MsgType.fault
      → Heated type s applied s
  -- the heater is switched off: applied exactly if the device says so
  switched_off :
      (r : Applied) (s' : AuxState)
      → IsOff type
      → Wrote IsHeaterOff s.port s'.port
      → (r ≡ applied) ↔ IsGood (codes "OK HEATER OFF") (pmc_aux_set_heater_with_retry false 128 s).0
      → Heated type s r s'
  -- a START that the device does not answer as it should: the heater is not switched
  no_pong :
      (text : Bytes) (s' : AuxState)
      → type ≡ MsgType.start
      → (IsGood (codes "OK PONG") (pmc_aux_ping_with_retry 128 s).0 → ⊥)
      → Wrote IsPing s.port s'.port
      → Heated type s (refused text) s'
  -- the heater is switched on after the answer: applied exactly if the device says so
  switched_on :
      (pinged s' : AuxState) (r : Applied)
      → type ≡ MsgType.start
      → IsGood (codes "OK PONG") (pmc_aux_ping_with_retry 128 s).0
      → pinged ≡ (pmc_aux_ping_with_retry 128 s).1
      → Wrote IsPing s.port pinged.port
      → Wrote IsHeaterOn pinged.port s'.port
      → (r ≡ applied)
        ↔ IsGood (codes "OK HEATER ON") (pmc_aux_set_heater_with_retry true 128 pinged).0
      → Heated type s r s'

-- The same with what comes before: whether there is a device, its session, and the number of the device
-- that the command is for.
pub data Commanded (dev : ℤ) (type : MsgType) (s : AuxState) : Applied → AuxState → Type 0 where
  disabled : s.cfg.enabled ≡ false → Commanded dev type s applied s
  not_ready :
      (s' : AuxState)
      → s.cfg.enabled ≡ true
      → (ready_session s).0 ≡ false
      → s'.port.written ≡ s.port.written
      → Commanded dev type s (refused (codes "AUX_SESSION_NOT_READY")) s'
  other_device :
      (s' : AuxState)
      → s.cfg.enabled ≡ true
      → (ready_session s).0 ≡ true
      → dev ≢ pos 1
      → s' ≡ (ready_session s).1
      → s'.port.written ≡ s.port.written
      → Commanded dev type s applied s'
  heated :
      (ready s' : AuxState) (r : Applied)
      → s.cfg.enabled ≡ true
      → (ready_session s).0 ≡ true
      → ready ≡ (ready_session s).1
      → dev ≡ pos 1
      → ready.port.written ≡ s.port.written
      → Heated type ready r s'
      → Commanded dev type s r s'

poor_text :
    (text expect other : Bytes)
    → some text ≡ some other
    → has_prefix other expect ≡ true
    → has_prefix text expect ≡ false
    → ⊥
poor_text text expect other same good poor = cc

check_reply-IsGood :
    (missing expect bad : Bytes) (reply : Option Bytes)
    → (check_reply missing expect bad reply ≡ applied) ↔ IsGood expect reply
unfolding check_reply pmc_aux_reply_is
check_reply-IsGood missing expect bad none = ((λ e. cc), (λ g. cc))
check_reply-IsGood missing expect bad (some text) = elim (Bool-cases (has_prefix text expect)) [
  | inl good ↦ ((λ e. (text, refl, good)), (λ g. rw good refl))
  | inr poor ↦ (
    (λ e. absurd (ground (arith, poor))),
    (λ (other, same, good). absurd (poor_text text expect other same good poor)),
  )
]

IsPing-Wrote : (s : AuxState) → Wrote IsPing s.port (pmc_aux_ping_with_retry 128 s).1.port
unfolding pmc_aux_ping_with_retry
IsPing-Wrote s = with_retry-Wrote IsPing _ (ping-Writes 128) s

heater-Wrote :
    (on : Bool) (s : AuxState)
    → Wrote
        (IsLine (if on then codes "SET HEATER ON" else codes "SET HEATER OFF"))
        s.port
        (pmc_aux_set_heater_with_retry on 128 s).1.port
unfolding pmc_aux_set_heater_with_retry
heater-Wrote on s = with_retry-Wrote _ _ (set_heater-Writes on 128) s

off-Heated :
    (type : MsgType) (s : AuxState)
    → IsOff type
    → Heated type s (apply_heater_off s).0 (apply_heater_off s).1
unfolding apply_heater_off
off-Heated type s is_off =
    switched_off _ _ is_off (heater-Wrote false s) (check_reply-IsGood _ _ _ _)

apply_ping-IsGood :
    (s : AuxState)
    → ((apply_ping s).0 ≡ applied) ↔ IsGood (codes "OK PONG") (pmc_aux_ping_with_retry 128 s).0
unfolding apply_ping
apply_ping-IsGood s = check_reply-IsGood _ _ _ _

apply_ping-then : (s : AuxState) → (apply_ping s).1 ≡ (pmc_aux_ping_with_retry 128 s).1
unfolding apply_ping
apply_ping-then s = refl

on-Heated :
    (s : AuxState)
    → (apply_ping s).0 ≡ applied
    → Heated MsgType.start s
        (apply_heater_on (apply_ping s).1).0
        (apply_heater_on (apply_ping s).1).1
unfolding apply_heater_on
on-Heated s e =
    let pinged = (apply_ping s).1 in
    switched_on pinged _ _ refl ((apply_ping-IsGood s).0 e) (apply_ping-then s)
      (rw (apply_ping-then s) (IsPing-Wrote s)) (heater-Wrote true pinged)
      (check_reply-IsGood _ _ _ _)

start_by :
    (s : AuxState) (r : Applied)
    → (apply_ping s).0 ≡ r
    → Heated MsgType.start s (apply_start s).0 (apply_start s).1
unfolding apply_start
start_by s applied e = rw (apply_start, e) (on-Heated s e)
start_by s (refused text) e =
    rw (apply_start, e)
      (no_pong text _ refl (λ good. refused_not_applied text (e' good))
        (rw (apply_ping-then s) (IsPing-Wrote s)))
  where
    refused_not_applied : (text : Bytes) → refused text ≡ applied → ⊥
    refused_not_applied text h = cc

    e' : IsGood (codes "OK PONG") (pmc_aux_ping_with_retry 128 s).0 → refused text ≡ applied
    e' good = sym e ∙ (apply_ping-IsGood s).1 good

apply_type-Heated :
    (type : MsgType) (s : AuxState) → Heated type s (apply_type type s).0 (apply_type type s).1
unfolding apply_type
apply_type-Heated MsgType.start s = start_by s _ refl
apply_type-Heated MsgType.stop s = off-Heated _ s stop
apply_type-Heated MsgType.reset s = off-Heated _ s reset
apply_type-Heated MsgType.fault s = off-Heated _ s fault
apply_type-Heated _ s = nothing (λ e. cc) (λ e. cc) (λ e. cc) (λ e. cc)

-- A command changes the heater only on device 1, in a session that is ready: a START switches it on, and
-- only after the device has answered a PING with `OK PONG`; STOP, RESET and FAULT switch it off; no other
-- line but the PING is written. The command is applied exactly if the device confirms the change, and it
-- is refused without a change if the session cannot be opened.
pub apply_aux-Commanded :
    (dev : ℤ) (type : MsgType) (s : AuxState)
    → let (r, s') = pmc_io_apply_aux_for_command dev type s in Commanded dev type s r s'
unfolding pmc_io_apply_aux_for_command
apply_aux-Commanded dev type s = elim (Bool-cases s.cfg.enabled) [
  | inr disable ↦ simp disable (disabled disable)
  | inl enable ↦ elim (Bool-cases (ready_session s).0) [
    | inr ko ↦ simp (enable, ko) (not_ready _ enable ko (ready_session-written s))
    | inl ok ↦ elim (Bool-cases (eqb_ℤ dev (pos 1))) [
      | inr other ↦
          simp (enable, ok, other)
            (other_device _ enable ok (λ same. let t = (eqb_ℤ_iff dev (pos 1)).1 same in cc) refl
              (ready_session-written s))
      | inl one ↦
          simp (enable, ok, one)
            (heated (ready_session s).1 _ _ enable ok refl ((eqb_ℤ_iff dev (pos 1)).0 one)
              (ready_session-written s) (apply_type-Heated type _))
    ]
  ]
]
