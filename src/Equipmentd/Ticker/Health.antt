-- ===== src/Equipmentd/Ticker/Health.antt =====
-- services/equipmentd/src/main.c, router.c and module_registry.c: the health of the modules.
use equipment_control.Equipmentd.Registry.{
  ModuleRegistry, module_registry_is_stale, module_registry_touch_status,
}
use equipment_control.Equipmentd.Router.{
  store_status, mark_registered, on_module, handle_evt_type, handle_evt,
}
use equipment_control.Equipmentd.Ticker.{refresh_module_health}
use equipment_control.Prelude.{ℕ, ◌≡◌, ◌<◌, ◌+◌, true, arith, leb}
use equipment_control.Protocol.Message.{MsgType, Message}

module _ {D : Type 0} where
  -- After an event STATUS with a state for the preclean module at the time `sent`, which is not 0, the
  -- refresh at the time `now` finds that module healthy exactly when no more than 3000 ms have gone by.
  pub refresh_module_health-handle_evt :
      (reg : ModuleRegistry D) (m : Message D) (sent now : ℕ)
      → 0 < sent
      → m.has_dev ≡ true
      → m.dev ≡ 1
      → (m.has_state ≡ true) × (m.type ≡ MsgType.status)
      → (refresh_module_health now (handle_evt reg sent m)).pmc_preclean.healthy
        ≡ leb now (sent + 3000)
  unfolding refresh_module_health handle_evt handle_evt_type on_module mark_registered store_status
      module_registry_touch_status module_registry_is_stale
  refresh_module_health-handle_evt reg m sent now p d e t = ground arith
