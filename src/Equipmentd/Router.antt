-- ===== src/Equipmentd/Router.antt =====
-- services/equipmentd/src/router.c. `router_handle` also takes the device manager, which no branch
-- reads or writes; pointers are never null. A file descriptor is an `Option`, `none` for -1.
pub mod Replies
use equipment_control.Prelude.{
  ℕ, ◌+◌, Bool, true, false, not, ◌||◌, Option, none, some, ltb, ◌==◌, if◌then◌else◌, Bytes, codes,
  str_eq, copy_str,
}
use equipment_control.Prelude.Int.{ℤ, pos, to_int32}
use equipment_control.Protocol.Message.{Role, MsgType, Message, zero_message}
use equipment_control.Equipmentd.Registry.{
  ModuleType, ModuleInfo, ModuleRegistry, module_registry_touch_status,
  module_registry_touch_telemetry,
}

-- The results of `router_handle`: 0, 1 with `out` and 2.
pub data Routed (D : Type 0) : Type 0 where
  no_response : Routed D
  response : Message D → Routed D
  forward : Routed D

-- The results 0 with a target, -1, -2, -3 and -4.
pub data Resolved : Type 0 where
  resolved : ℕ → Resolved
  missing_dev no_tmc no_pmc unknown_dev : Resolved

abbrev pub is_command : MsgType → Bool
is_command MsgType.status = true
is_command MsgType.reset = true
is_command MsgType.fault = true
is_command MsgType.start = true
is_command MsgType.stop = true
is_command _ = false

abbrev pub is_ping : MsgType → Bool
is_ping MsgType.ping = true
is_ping _ = false

abbrev module_name : ℕ → Bytes
module_name dev =
    if dev == 100
    then codes "tmc"
    else if dev == 1
    then codes "pmc_preclean"
    else codes "pmc_deposition"

unfoldable pub is_busy_state : Bytes → Bool
is_busy_state s =
    str_eq s (codes "PROCESSING") || (str_eq s (codes "READY") || str_eq s (codes "TRANSFERRING"))

module _ {D : Type 0} where
  unfoldable pub resolve_controller_fd : Message D → Option ℕ → Option ℕ → Resolved
  resolve_controller_fd m pmc_fd tmc_fd =
      if not m.has_dev
      then missing_dev
      else if m.dev == 100
      then elim tmc_fd [ none ↦ no_tmc | some fd ↦ resolved fd ]
      else if m.dev == 1 || m.dev == 2
      then elim pmc_fd [ none ↦ no_pmc | some fd ↦ resolved fd ]
      else unknown_dev

module _ {D : Type 0} (zero_double : D) where
  unfoldable pub resp_base : Message D → Message D
  resp_base m = record (zero_message zero_double) {
    role = Role.resp;
    type = m.type;
    dev = if m.has_dev then m.dev else 0;
    has_dev = m.has_dev;
    seq = if m.has_seq then m.seq else 0;
    has_seq = m.has_seq;
    ok = pos 1;
    has_ok = true;
  }

  unfoldable pub make_error : Message D → ℕ → Bytes → Message D
  unfolding resp_base
  make_error m code text = record (resp_base m) {
    type = MsgType.error;
    ok = pos 0;
    code = pos code;
    has_code = true;
    msg = copy_str 127 text;
    has_msg = true;
  }

  -- A command for a device: the answer to what `resolve_controller_fd` found.
  unfoldable pub route_command : Message D → Resolved → Routed D
  unfolding make_error
  route_command m (resolved fd) = forward
  route_command m no_tmc = response (make_error m 503 (codes "TMC_NOT_CONNECTED"))
  route_command m no_pmc = response (make_error m 503 (codes "PMC_NOT_CONNECTED"))
  route_command m missing_dev = response (make_error m 404 (codes "UNKNOWN_DEV"))
  route_command m unknown_dev = response (make_error m 404 (codes "UNKNOWN_DEV"))

  unfoldable pub handle_req : Option ℕ → Option ℕ → Message D → Routed D
  unfolding make_error route_command resolve_controller_fd
  handle_req pmc_fd tmc_fd m =
      if not m.has_seq
      then response (make_error m 400 (codes "MISSING_SEQ"))
      else if is_ping m.type
      then response (resp_base m)
      else if is_command m.type
      then (if not m.has_dev
          then response (make_error m 400 (codes "MISSING_DEV"))
          else route_command m (resolve_controller_fd m pmc_fd tmc_fd))
      else response (make_error m 404 (codes "UNKNOWN_TYPE"))

module _ {D : Type 0} where
  -- A write through `target`, which is null for another device.
  unfoldable pub on_module : ModuleRegistry D → ℕ → (ModuleInfo D → ModuleInfo D) → ModuleRegistry D
  on_module reg dev f =
      if dev == 100
      then record reg { tmc = f reg.tmc }
      else if dev == 1
      then record reg { pmc_preclean = f reg.pmc_preclean }
      else if dev == 2
      then record reg { pmc_deposition = f reg.pmc_deposition }
      else reg

  -- The four writes that every event makes to its module.
  unfoldable pub mark_registered : ℕ → ModuleInfo D → ModuleInfo D
  mark_registered dev t = record t {
    registered = true;
    type = if dev == 100 then ModuleType.tmc else ModuleType.pmc;
    dev = to_int32 dev;
    name = copy_str 31 (module_name dev);
  }

  unfoldable pub store_status : ℕ → Message D → ModuleInfo D → ModuleInfo D
  unfolding is_busy_state module_registry_touch_status
  store_status now m t =
      if m.has_state
      then module_registry_touch_status
          (record t {
            busy = is_busy_state m.state;
            fault_latched = if str_eq m.state (codes "FAULT") then true else t.fault_latched;
          })
          now m.state
      else t

  unfoldable pub store_telemetry : ℕ → Message D → ModuleInfo D → ModuleInfo D
  unfolding module_registry_touch_telemetry
  store_telemetry now m t =
      module_registry_touch_telemetry
        (record t { temp = m.temp; pressure = m.pressure; flow = m.flow; has_telemetry = true }) now

  -- The `switch` of `handle_evt`, whose result is always 0.
  unfoldable pub handle_evt_type : MsgType → ModuleRegistry D → ℕ → Message D → ModuleRegistry D
  unfolding on_module mark_registered store_status store_telemetry
  handle_evt_type MsgType.register reg now m =
      if not m.has_dev then reg else on_module reg m.dev (mark_registered m.dev)
  handle_evt_type MsgType.status reg now m =
      if not m.has_dev
      then reg
      else on_module reg m.dev (λ t. store_status now m (mark_registered m.dev t))
  handle_evt_type MsgType.telemetry reg now m =
      if not m.has_dev
      then reg
      else if m.dev == 1 || m.dev == 2
      then on_module reg m.dev (λ t. store_telemetry now m (mark_registered m.dev t))
      else reg
  handle_evt_type _ reg now m = reg

  unfoldable pub handle_evt : ModuleRegistry D → ℕ → Message D → ModuleRegistry D
  unfolding handle_evt_type
  handle_evt reg now m = handle_evt_type m.type reg now m

  abbrev pub route_role :
      Role
      → D
      → ModuleRegistry D
      → Option ℕ
      → Option ℕ
      → ℕ
      → Message D
      → ModuleRegistry D × Routed D
  route_role Role.req zero reg pmc_fd tmc_fd now m = (reg, handle_req zero pmc_fd tmc_fd m)
  route_role Role.evt zero reg pmc_fd tmc_fd now m = (handle_evt reg now m, no_response)
  route_role _ zero reg pmc_fd tmc_fd now m = (reg, no_response)

  -- `now` is what `now_ms()` returns during the call.
  unfoldable pub router_handle :
      D → ModuleRegistry D → Option ℕ → Option ℕ → ℕ → Message D → ModuleRegistry D × Routed D
  unfolding handle_req handle_evt
  router_handle zero reg pmc_fd tmc_fd now m = route_role m.role zero reg pmc_fd tmc_fd now m
