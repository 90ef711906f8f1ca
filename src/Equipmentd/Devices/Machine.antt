-- ===== src/Equipmentd/Devices/Machine.antt =====
-- The device manager against the state machine of docs/protocol/spec.md.
use equipment_control.Prelude.{
  inr, inl, sym, Option-cases, ◌∙◌, ap, ℕ, zero, suc, ◌<◌, ◌≡◌, ◌≢◌, refl, true, List, [], ◌∷◌,
  Option, none, some, arith, if◌then◌else◌, get_elem?, set, length, length-set, get_elem?-set_self,
  get_elem?-set_ne,
}
use mathlib.Core.Option.{get_or}
use equipment_control.Prelude.Int.{ℤ, pos}
use equipment_control.Equipmentd.Devices.{
  reset_from, fault_from, stop_from, start_from, DeviceState, Device, DeviceManager,
  device_manager_max_devices, ensured, device_manager_ensure, change_state, Outcome, done, refused,
  device_manager_fault, device_manager_reset, device_manager_start, device_manager_stop,
}

-- The commands, and the transitions that the specification names; a FAULT of a device in ERROR is none.
pub data Command : Type 0 where
  start stop fault reset : Command

pub data Transition : DeviceState → Command → DeviceState → Type 0 where
  starts : Transition DeviceState.idle start DeviceState.running
  stops : Transition DeviceState.running stop DeviceState.idle
  faults_idle : Transition DeviceState.idle fault DeviceState.error
  faults_running : Transition DeviceState.running fault DeviceState.error
  resets : Transition DeviceState.error reset DeviceState.idle

unfoldable pub apply_command : Command → DeviceManager → ℤ → DeviceManager × Outcome
unfolding device_manager_start device_manager_stop device_manager_fault device_manager_reset
apply_command start = device_manager_start
apply_command stop = device_manager_stop
apply_command fault = device_manager_fault
apply_command reset = device_manager_reset

-- The array keeps its 16 slots.
abbrev pub IsArray : DeviceManager → Type 0
IsArray mgr = length mgr.devices ≡ device_manager_max_devices

-- The abstract view: the state of each device, IDLE for one that was not used yet.
abbrev shown : Option Device → DeviceState
shown none = DeviceState.idle
shown (some d) = if d.in_use then d.state else DeviceState.idle

unfoldable pub state_of : DeviceManager → ℕ → DeviceState
state_of mgr i = shown (get_elem? mgr.devices i)

-- How one command acts on the view: the device follows a transition of the specification, or the
-- command is refused where there is none and nothing changes; the other devices keep their state.
pub data Obeys (c : Command) (mgr : DeviceManager) (i : ℕ) (r : DeviceManager × Outcome)
    : Type 0 where
  follows : Transition (state_of mgr i) c (state_of r.0 i) → r.1 ≡ done → Obeys c mgr i r
  rejects :
      ((s : DeviceState) → ¬ Transition (state_of mgr i) c s)
      → r.1 ≡ refused
      → state_of r.0 i ≡ state_of mgr i
      → Obeys c mgr i r

get_elem?-lt : (ds : List Device) (i : ℕ) → i < length ds → (d : Device) × (get_elem? ds i ≡ some d)
get_elem?-lt [] i h = elim h [ ]
get_elem?-lt (d ∷ ds) zero h = (d, refl)
get_elem?-lt (d ∷ ds) (suc i) h = get_elem?-lt ds i (omega arith)

-- Every valid slot holds a device.
slot_of :
    (mgr : DeviceManager) (i : ℕ)
    → IsArray mgr
    → i < device_manager_max_devices
    → (d : Device) × (get_elem? mgr.devices i ≡ some d)
slot_of mgr i a h = get_elem?-lt mgr.devices i (omega arith)

ensured-shown :
    (id : ℤ) (d : Device) → ((ensured id d).state ≡ shown (some d)) × ((ensured id d).in_use ≡ true)
unfolding ensured
ensured-shown id d = ground arith

-- The outcome of a command whose table of states is `next`.
data Outcomes (next : DeviceState → Option DeviceState) (before after : DeviceState) (o : Outcome)
    : Type 0 where
  moved : next before ≡ some after → o ≡ done → Outcomes next before after o
  stayed : next before ≡ none → o ≡ refused → after ≡ before → Outcomes next before after o

-- What a command comes to at a slot that holds `d`.
abbrev commanded : DeviceManager → ℕ → Device → Option DeviceState → DeviceManager × Outcome
commanded mgr i e none = (record mgr { devices = set mgr.devices i e }, refused)
commanded mgr i e (some s) =
    (record mgr { devices = set (set mgr.devices i e) i (record e { state = s }) }, done)

ensure-ensured :
    (mgr : DeviceManager) (i : ℕ) (d : Device)
    → i < device_manager_max_devices
    → get_elem? mgr.devices i ≡ some d
    → device_manager_ensure mgr (pos i)
      ≡ some (i, ensured (pos i) d, record mgr { devices = set mgr.devices i (ensured (pos i) d) })
unfolding device_manager_ensure
ensure-ensured mgr i d h at = ground arith

change_state-commanded :
    (next : DeviceState → Option DeviceState) (mgr : DeviceManager) (i : ℕ) (d : Device)
    → i < device_manager_max_devices
    → get_elem? mgr.devices i ≡ some d
    → change_state mgr (pos i) next
      ≡ commanded mgr i (ensured (pos i) d) (next (ensured (pos i) d).state)
unfolding change_state
change_state-commanded next mgr i d h at =
    rw (ensure-ensured mgr i d h at, change_state)
      (elim (Option-cases (next (ensured (pos i) d).state)) [
        | inl e ↦ rw e refl
        | inr (s, e) ↦ rw e refl
      ])

module _ (mgr : DeviceManager) (i : ℕ) (e : Device) (within : i < length mgr.devices) where
  commanded-IsArray : (o : Option DeviceState) → IsArray mgr → IsArray (commanded mgr i e o).0
  commanded-IsArray none a = length-set mgr.devices i e ∙ a
  commanded-IsArray (some s) a =
      length-set (set mgr.devices i e) i (record e { state = s }) ∙ length-set mgr.devices i e ∙ a

  commanded_other :
      (o : Option DeviceState) {j : ℕ} → i ≢ j → state_of (commanded mgr i e o).0 j ≡ state_of mgr j
  unfolding state_of
  commanded_other none ne = ap shown (get_elem?-set_ne mgr.devices e ne)
  commanded_other (some s) ne = ap shown (
      get_elem?-set_ne (set mgr.devices i e) (record e { state = s }) ne
      ∙ get_elem?-set_ne mgr.devices e ne)

  commanded_self :
      (o : Option DeviceState)
      → e.in_use ≡ true
      → state_of (commanded mgr i e o).0 i ≡ get_or o e.state
  unfolding state_of
  commanded_self none u = ap shown (get_elem?-set_self mgr.devices i e within) ∙ rw u refl
  commanded_self (some s) u =
      let within' : i < length (set mgr.devices i e) =
        omega (arith, length-set {0} mgr.devices i e) in
      ap shown (get_elem?-set_self (set mgr.devices i e) i (record e { state = s }) within')
      ∙ rw u refl

module _ (next : DeviceState → Option DeviceState) (mgr : DeviceManager) (i : ℕ) (a : IsArray mgr)
    (h : i < device_manager_max_devices) where
  change_state-Outcomes :
      Outcomes next
        (state_of mgr i)
        (state_of (change_state mgr (pos i) next).0 i)
        (change_state mgr (pos i) next).1
  change_state-Outcomes =
      let (d, at) = slot_of mgr i a h in
      let (state_is, used) = ensured-shown (pos i) d in
      let before : (ensured (pos i) d).state ≡ state_of mgr i =
        state_is ∙ (unfold state_of in ap shown (sym at)) in
      let self = commanded_self mgr i (ensured (pos i) d) (omega arith) in
      rw (change_state-commanded next mgr i d h at)
        (elim (Option-cases (next (ensured (pos i) d).state)) [
          | inl e ↦ stayed (rw (← before) e) (rw e refl) (rw e (self none used ∙ before))
          | inr (s, e) ↦
              moved (rw (← before) (e ∙ ap some (sym (rw e (self (some s) used))))) (rw e refl)
        ])

  change_state_other :
      {j : ℕ} → i ≢ j → state_of (change_state mgr (pos i) next).0 j ≡ state_of mgr j
  change_state_other ne =
      let (d, at) = slot_of mgr i a h in
      rw (change_state-commanded next mgr i d h at) (commanded_other mgr i _ (omega arith) _ ne)

  change_state-IsArray : IsArray (change_state mgr (pos i) next).0
  change_state-IsArray =
      let (d, at) = slot_of mgr i a h in
      rw (change_state-commanded next mgr i d h at) (commanded-IsArray mgr i _ (omega arith) _ a)

abbrev next_of : Command → DeviceState → Option DeviceState
next_of start = start_from
next_of stop = stop_from
next_of fault = fault_from
next_of reset = reset_from

next_of-Transition : (c : Command) (s t : DeviceState) → next_of c s ≡ some t → Transition s c t
next_of-Transition start DeviceState.idle DeviceState.running h = starts
next_of-Transition stop DeviceState.running DeviceState.idle h = stops
next_of-Transition fault DeviceState.idle DeviceState.error h = faults_idle
next_of-Transition fault DeviceState.running DeviceState.error h = faults_running
next_of-Transition reset DeviceState.error DeviceState.idle h = resets
next_of-Transition _ _ _ h = cc

no-Transition : (c : Command) {s t : DeviceState} → next_of c s ≡ none → ¬ Transition s c t
no-Transition c h starts = cc
no-Transition c h stops = cc
no-Transition c h faults_idle = cc
no-Transition c h faults_running = cc
no-Transition c h resets = cc

Outcomes-Obeys :
    (c : Command) (mgr : DeviceManager) (i : ℕ) (r : DeviceManager × Outcome)
    → Outcomes (next_of c) (state_of mgr i) (state_of r.0 i) r.1
    → Obeys c mgr i r
Outcomes-Obeys c mgr i r (moved e o) = follows (next_of-Transition c _ _ e) o
Outcomes-Obeys c mgr i r (stayed e o same) = rejects (λ s t. no-Transition c e t) o same

apply_command-change_state :
    (c : Command) (mgr : DeviceManager) (id : ℤ)
    → apply_command c mgr id ≡ change_state mgr id (next_of c)
unfolding apply_command
apply_command-change_state start mgr id = refl
apply_command-change_state stop mgr id = refl
apply_command-change_state fault mgr id = refl
apply_command-change_state reset mgr id = refl

-- The four commands are the state machine of the specification, device by device: a command that the
-- specification allows is done and moves the device along, any other is refused and leaves it.
pub apply_command-Obeys :
    (c : Command) (mgr : DeviceManager) (i : ℕ)
    → IsArray mgr
    → i < device_manager_max_devices
    → Obeys c mgr i (apply_command c mgr (pos i))
      × ((j : ℕ) → i ≢ j → state_of (apply_command c mgr (pos i)).0 j ≡ state_of mgr j)
      × IsArray (apply_command c mgr (pos i)).0
apply_command-Obeys c mgr i a h = rw (apply_command-change_state c mgr (pos i)) (
  Outcomes-Obeys c mgr i _ (change_state-Outcomes (next_of c) mgr i a h),
  λ j ne. change_state_other (next_of c) mgr i a h ne,
  change_state-IsArray (next_of c) mgr i a h,
)
