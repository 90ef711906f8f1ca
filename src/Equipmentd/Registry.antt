-- ===== src/Equipmentd/Registry.antt =====
-- services/equipmentd/src/module_registry.c. Times are milliseconds of the monotonic clock, which
-- are not negative. `module_registry_dump` only prints.
use equipment_control.Prelude.{
  ℕ, ◌+◌, Bool, true, false, not, [], ltb, ◌==◌, if◌then◌else◌, Bytes, str_eq,
}
use equipment_control.Prelude.Int.{ℤ, pos}

pub data ModuleType : Type 0 where
  unknown tmc pmc : ModuleType

pub record ModuleInfo (D : Type 0) : Type 0 where
  pub registered : Bool
  pub type : ModuleType
  pub dev : ℤ
  pub busy : Bool
  pub name : Bytes
  pub current_state : Bytes
  pub has_state : Bool
  pub temp : D
  pub pressure : D
  pub flow : D
  pub has_telemetry : Bool
  pub last_update_ms : ℕ
  pub last_status_ms : ℕ
  pub last_telemetry_ms : ℕ
  pub last_state_change_ms : ℕ
  pub healthy : Bool
  pub fault_latched : Bool

pub record ModuleRegistry (D : Type 0) : Type 0 where
  pub tmc : ModuleInfo D
  pub pmc_preclean : ModuleInfo D
  pub pmc_deposition : ModuleInfo D

-- All bytes 0; the 0.0 is given.
abbrev pub zero_module : {D : Type 0} → D → ModuleInfo D
zero_module d = record {
  registered = false;
  type = ModuleType.unknown;
  dev = pos 0;
  busy = false;
  name = [];
  current_state = [];
  has_state = false;
  temp = d;
  pressure = d;
  flow = d;
  has_telemetry = false;
  last_update_ms = 0;
  last_status_ms = 0;
  last_telemetry_ms = 0;
  last_state_change_ms = 0;
  healthy = false;
  fault_latched = false;
}

unfoldable pub module_registry_init : {D : Type 0} → D → ModuleRegistry D
module_registry_init d = record {
  tmc = zero_module d;
  pmc_preclean = zero_module d;
  pmc_deposition = zero_module d;
}

module _ {D : Type 0} where
  unfoldable pub module_registry_touch : ModuleInfo D → ℕ → ModuleInfo D
  module_registry_touch m now = record m { last_update_ms = now; healthy = true }

  -- `new_state` is never null at a call. It is compared with the state that is there, and not stored.
  unfoldable pub module_registry_touch_status : ModuleInfo D → ℕ → Bytes → ModuleInfo D
  module_registry_touch_status m now new_state =
      let changed =
        if m.has_state
        then (if not (str_eq m.current_state new_state)
            then record m { last_state_change_ms = now }
            else m)
        else record m { last_state_change_ms = now } in
      record changed { last_update_ms = now; last_status_ms = now; healthy = true }

  unfoldable pub module_registry_touch_telemetry : ModuleInfo D → ℕ → ModuleInfo D
  module_registry_touch_telemetry m now = record m {
    last_update_ms = now;
    last_telemetry_ms = now;
    healthy = true;
  }

  -- `now - last > stale`, read as `last + stale < now`.
  unfoldable pub module_registry_is_stale : ModuleInfo D → ℕ → ℕ → Bool
  module_registry_is_stale m now stale =
      if not m.registered
      then true
      else if m.last_update_ms == 0
      then true
      else ltb (m.last_update_ms + stale) now
