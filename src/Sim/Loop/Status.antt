-- ===== src/Sim/Loop/Status.antt =====
-- nodes/deviced/sim/src/main.c: the STATUS lines among the lines that the device sends.
use equipment_control.Prelude.{
  length-append, Bool, ℕ, ◌+◌, ◌≡◌, refl, ap, ◌∙◌, true, false, List, [], ◌∷◌, ◌++◌, Option, none,
  some, arith, ltb, le→ltb, Bytes, codes, has_prefix, if◌then◌else◌, length, length-take,
  append_assoc,
}
use equipment_control.Protocol.Double.{Double}
use equipment_control.Protocol.Message.{Role, Message}
use equipment_control.Protocol.Codec.Format.{line_format, role_to, type_to}
use equipment_control.Protocol.Codec.Numbers.{print_unsigned}
use equipment_control.Protocol.Codec.Render.{render, key_words, line_format-render}
use equipment_control.Protocol.Codec.Bounds.{IsBrief, line_format-brief}
use equipment_control.Sim.{
  SimState, fsm_state_to_string, telemetry_build_status_evt, telemetry_build_telemetry_evt,
}
use equipment_control.Sim.Process.{Arithmetic}
use equipment_control.Sim.Loop.{buf_size, registration}

-- The line of a STATUS.
abbrev pub status_line : ℕ → SimState → Bytes
status_line dev s =
    codes "EVT STATUS dev="
    ++ print_unsigned dev
    ++ codes " state="
    ++ fsm_state_to_string s
    ++ b'\n' ∷ []

-- Whether a line is a STATUS event.
abbrev pub is_status : Bytes → Bool
is_status l = has_prefix l (codes "EVT STATUS ")

-- The last STATUS among the lines, the first one first.
abbrev pub last_status : List Bytes → Option Bytes
last_status [] = none
last_status (l ∷ ls) = elim (last_status ls) [
  | some later ↦ some later
  | none ↦ if is_status l then some l else none
]

pub last_status-status :
    (ls : List Bytes) (l : Bytes) → is_status l ≡ true → last_status (ls ++ l ∷ []) ≡ some l
last_status-status [] l h = rw h refl
last_status-status (k ∷ ls) l h = rw (last_status-status ls l h) refl

pub last_status-other :
    (ls : List Bytes) (l : Bytes)
    → is_status l ≡ false
    → last_status (ls ++ l ∷ []) ≡ last_status ls
last_status-other [] l h = rw h refl
last_status-other (k ∷ ls) l h = rw (last_status-other ls l h) refl

pub status_line-is_status : (dev : ℕ) (s : SimState) → is_status (status_line dev s) ≡ true
unfolding has_prefix
status_line-is_status dev s = refl

module _ {D : Type 0} (double : Double D) where
  open double use {zero_double}

  status-IsBrief : (dev : ℕ) (s : SimState) → IsBrief (telemetry_build_status_evt zero_double dev s)
  unfolding telemetry_build_status_evt
  status-IsBrief dev s = record {
    no_temp = refl;
    no_pressure = refl;
    no_flow = refl;
    state_short = length-take 31 (fsm_state_to_string s);
    msg_short = omega arith;
  }

  render-status :
      (dev : ℕ) (s : SimState)
      → render double (telemetry_build_status_evt zero_double dev s) ++ b'\n' ∷ []
        ≡ status_line dev s
  unfolding render key_words role_to type_to telemetry_build_status_evt fsm_state_to_string
  render-status dev SimState.booting = simp append_assoc
  render-status dev SimState.idle = simp append_assoc
  render-status dev SimState.ready = simp append_assoc
  render-status dev SimState.processing = simp append_assoc
  render-status dev SimState.done = simp append_assoc
  render-status dev SimState.fault = simp append_assoc
  render-status dev SimState.recovering = simp append_assoc

  pub format_status :
      (dev : ℕ) (s : SimState)
      → line_format double (telemetry_build_status_evt zero_double dev s) buf_size
        ≡ some (status_line dev s)
  format_status dev s =
      let m = telemetry_build_status_evt zero_double dev s in
      let (fits, short) = line_format-brief double m (status-IsBrief dev s) in
      let room : ltb 1024 (length (render double m) + 2) ≡ false =
        le→ltb 1024 (length (render double m) + 2)
          (omega (arith, short, length-append {0} (render double m) (b'\n' ∷ []))) in
      line_format-render double m 1024 ∙ rw room (ap some (render-status dev s))

  -- A message whose line is not a STATUS event.
  abbrev pub IsOther : Message D → Type 0
  IsOther m = is_status (render double m ++ b'\n' ∷ []) ≡ false

  pub resp-IsOther : (m : Message D) → m.role ≡ Role.resp → IsOther m
  unfolding render role_to has_prefix
  resp-IsOther m e = rw (render, e) refl

  pub registration-IsOther :
      (numbers : Arithmetic D) (can_send : Bytes → Bool) (dev : ℕ)
      → IsOther (registration double numbers can_send dev)
  unfolding render role_to type_to has_prefix
  registration-IsOther numbers can_send dev = refl

  pub telemetry-IsOther :
      (dev : ℕ) (temp pressure flow : D)
      → IsOther (telemetry_build_telemetry_evt zero_double dev temp pressure flow)
  unfolding render role_to type_to has_prefix telemetry_build_telemetry_evt
  telemetry-IsOther dev temp pressure flow = refl
