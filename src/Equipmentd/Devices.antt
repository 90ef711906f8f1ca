-- ===== src/Equipmentd/Devices.antt =====
-- services/equipmentd/src/device_manager.c. The array of 16 devices is a list of that length, and a
-- pointer into it an index. A file descriptor is an `Option`, `none` for -1.
pub mod Machine
use equipment_control.Prelude.{
  ℕ, ◌<◌, Bool, true, false, ◌&&◌, List, Option, none, some, ltb, if◌then◌else◌, Bytes, codes,
  get_elem?, set, replicate, ◌>>=◌,
}
use equipment_control.Prelude.Int.{ℤ, pos, negsuc}

pub data DeviceState : Type 0 where
  idle running error : DeviceState

unfoldable pub device_state_to_string : DeviceState → Bytes
device_state_to_string DeviceState.idle = codes "IDLE"
device_state_to_string DeviceState.running = codes "RUNNING"
device_state_to_string DeviceState.error = codes "ERROR"

pub record Device : Type 0 where
  pub id : ℤ
  pub state : DeviceState
  pub attached_fd : Option ℕ
  pub in_use : Bool

abbrev pub device_manager_max_devices : ℕ
device_manager_max_devices = 16

pub record DeviceManager : Type 0 where
  pub devices : List Device
  pub initialized : Bool

-- A device whose bytes are all 0.
abbrev pub zero_device : Device
zero_device = record { id = pos 0; state = DeviceState.idle; attached_fd = some 0; in_use = false }

unfoldable pub device_manager_init : DeviceManager
device_manager_init = record {
  devices = replicate device_manager_max_devices zero_device;
  initialized = true;
}

-- `valid_dev_id`, with the index that a valid id is.
unfoldable pub valid_dev_id : ℤ → Option ℕ
valid_dev_id (pos i) = if ltb i device_manager_max_devices then some i else none
valid_dev_id (negsuc i) = none

unfoldable pub device_manager_get : DeviceManager → ℤ → Option Device
unfolding valid_dev_id
device_manager_get mgr dev_id = do
  i ← valid_dev_id dev_id
  d ← get_elem? mgr.devices i
  if d.in_use then some d else none

-- What `device_manager_ensure` makes of the slot.
unfoldable pub ensured : ℤ → Device → Device
ensured dev_id d =
    if d.in_use
    then d
    else record { id = dev_id; state = DeviceState.idle; attached_fd = none; in_use = true }

-- The pointer returned is the index with the device there; the manager has been changed.
unfoldable pub device_manager_ensure : DeviceManager → ℤ → Option (ℕ × Device × DeviceManager)
unfolding valid_dev_id ensured
device_manager_ensure mgr dev_id = do
  i ← valid_dev_id dev_id
  d ← get_elem? mgr.devices i
  let e = ensured dev_id d
  some (i, e, record mgr { devices = set mgr.devices i e })

-- The results 0, -1 and -2.
pub data Outcome : Type 0 where
  done no_device refused : Outcome

unfoldable pub device_manager_get_status : DeviceManager → ℤ → DeviceManager × Option DeviceState
unfolding device_manager_ensure
device_manager_get_status mgr dev_id = elim (device_manager_ensure mgr dev_id) [
  | none ↦ (mgr, none)
  | some (i, d, mgr') ↦ (mgr', some d.state)
]

-- The common shape of the four commands: the test on the state, and the state written.
unfoldable pub change_state :
    DeviceManager → ℤ → (DeviceState → Option DeviceState) → DeviceManager × Outcome
change_state mgr dev_id next = elim (device_manager_ensure mgr dev_id) [
  | none ↦ (mgr, no_device)
  | some (i, d, mgr') ↦ elim (next d.state) [
    | none ↦ (mgr', refused)
    | some s ↦ (record mgr' { devices = set mgr'.devices i (record d { state = s }) }, done)
  ]
]

abbrev fault_from : DeviceState → Option DeviceState
fault_from DeviceState.error = none
fault_from _ = some DeviceState.error

abbrev reset_from : DeviceState → Option DeviceState
reset_from DeviceState.error = some DeviceState.idle
reset_from _ = none

abbrev start_from : DeviceState → Option DeviceState
start_from DeviceState.idle = some DeviceState.running
start_from _ = none

abbrev stop_from : DeviceState → Option DeviceState
stop_from DeviceState.running = some DeviceState.idle
stop_from _ = none

unfoldable pub device_manager_fault : DeviceManager → ℤ → DeviceManager × Outcome
device_manager_fault mgr dev_id = change_state mgr dev_id fault_from

unfoldable pub device_manager_reset : DeviceManager → ℤ → DeviceManager × Outcome
device_manager_reset mgr dev_id = change_state mgr dev_id reset_from

unfoldable pub device_manager_start : DeviceManager → ℤ → DeviceManager × Outcome
device_manager_start mgr dev_id = change_state mgr dev_id start_from

unfoldable pub device_manager_stop : DeviceManager → ℤ → DeviceManager × Outcome
device_manager_stop mgr dev_id = change_state mgr dev_id stop_from
