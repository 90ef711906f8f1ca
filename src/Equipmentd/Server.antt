-- ===== src/Equipmentd/Server.antt =====
-- services/equipmentd/src/main.c: the context of the server and `handle_one_line`.
-- What the kernel does is given: `can_write` says which writes succeed, and the bytes that were
-- written, with their descriptors, are collected in order. Failed writes leave no bytes.
pub mod Relay
pub mod Forward
pub mod Exchange
use equipment_control.Prelude.{
  ℕ, ◌+◌, Bool, true, false, not, ◌&&◌, ◌||◌, List, [], ◌∷◌, ◌++◌, Option, none, some, leb, ltb,
  ◌==◌, if◌then◌else◌, Bytes, codes, copy_str, get_elem?,
}
use equipment_control.Prelude.Int.{ℤ, pos, eqb_ℤ}
use equipment_control.Protocol.Double.{Double}
use equipment_control.Protocol.Message.{Role, MsgType, role_eq, type_eq, Message, zero_message}
use equipment_control.Protocol.Codec.Parse.{line_parse}
use equipment_control.Protocol.Codec.Format.{line_format}
use equipment_control.Equipmentd.Devices.{DeviceManager, device_manager_init}
use equipment_control.Equipmentd.Registry.{
  ModuleInfo, ModuleRegistry, module_registry_init, module_registry_is_stale,
}
use equipment_control.Equipmentd.Tracker.{
  PendingRequest, RequestTracker, zero_request, request_tracker_init, request_tracker_alloc,
  request_tracker_find, request_tracker_remove, request_tracker_sweep_timeouts, write_slot,
}
use equipment_control.Equipmentd.Scheduler.{
  JobState, job_idle, job_stopped, job_error, Tick, scheduler_tick,
}
use equipment_control.Equipmentd.Router.{Routed, no_response, response, forward, router_handle}

abbrev pub module_stale_ms : ℕ
module_stale_ms = 3000

pub record AppCtx (D : Type 0) : Type 0 where
  pub dev_mgr : DeviceManager
  pub module_registry : ModuleRegistry D
  pub pmc_fd : Option ℕ
  pub tmc_fd : Option ℕ
  pub tracker : RequestTracker
  pub next_seq : ℕ
  pub job_state : JobState

-- The context that `main` starts with.
unfoldable pub init_ctx : {D : Type 0} → D → AppCtx D
unfolding device_manager_init module_registry_init request_tracker_init
init_ctx zero = record {
  dev_mgr = device_manager_init;
  module_registry = module_registry_init zero;
  pmc_fd = none;
  tmc_fd = none;
  tracker = request_tracker_init;
  next_seq = 1000;
  job_state = job_idle;
}

abbrev any_valid : List PendingRequest → Bool
any_valid [] = false
any_valid (r ∷ rs) = r.valid || any_valid rs

unfoldable pub tracker_has_pending : RequestTracker → Bool
tracker_has_pending t = any_valid t.items

abbrev pub fd_eq : ℕ → Option ℕ → Bool
fd_eq fd none = false
fd_eq fd (some other) = fd == other

-- The results -1, 0 and 1 of `handle_one_line`.
pub data Handled : Type 0 where
  failed silent answered : Handled

-- What a call leaves: the context, the bytes written and the result.
pub record Effect (D : Type 0) : Type 0 where
  pub ctx : AppCtx D
  pub sent : List (ℕ × Bytes)
  pub result : Handled

module _ {D : Type 0} where
  unfoldable pub resolve_target_fd : AppCtx D → ℕ → Option ℕ
  resolve_target_fd ctx dev =
      if dev == 100 then ctx.tmc_fd else if dev == 1 || dev == 2 then ctx.pmc_fd else none

  unfoldable pub is_controller_fd : AppCtx D → ℕ → Bool
  is_controller_fd ctx fd = fd_eq fd ctx.pmc_fd || fd_eq fd ctx.tmc_fd

  unfoldable pub make_parse_error : D → Message D
  make_parse_error zero = record (zero_message zero) {
    role = Role.resp;
    type = MsgType.error;
    ok = pos 0;
    has_ok = true;
    code = pos 400;
    has_code = true;
    msg = copy_str 127 (codes "PARSE_ERROR");
    has_msg = true;
  }

  abbrev effect : AppCtx D → List (ℕ × Bytes) → Handled → Effect D
  effect ctx sent result = record { ctx = ctx; sent = sent; result = result }

  abbrev clear_fault : ModuleInfo D → ModuleInfo D
  clear_fault m = record m { fault_latched = false }

  -- The latch of the module that a RESET was for.
  unfoldable pub unlatch : ModuleRegistry D → ℕ → ModuleRegistry D
  unlatch reg dev =
      if dev == 1
      then record reg { pmc_preclean = clear_fault reg.pmc_preclean }
      else if dev == 2
      then record reg { pmc_deposition = clear_fault reg.pmc_deposition }
      else if dev == 100
      then record reg { tmc = clear_fault reg.tmc }
      else reg

  -- The `switch` on the type of the pending request, after a response that says ok.
  unfoldable pub settle : MsgType → ℕ → AppCtx D → AppCtx D
  unfolding unlatch
  settle MsgType.stop dev ctx = record ctx { job_state = job_stopped }
  settle MsgType.reset dev ctx = record ctx {
    job_state = job_idle;
    module_registry = unlatch ctx.module_registry dev;
  }
  settle MsgType.fault dev ctx = record ctx { job_state = job_error }
  settle _ dev ctx = ctx

  -- `in.type != TYPE_ERROR && in.has_ok && in.ok == 1`
  unfoldable pub says_ok : Message D → Bool
  says_ok m = not (type_eq m.type MsgType.error) && (m.has_ok && eqb_ℤ m.ok (pos 1))

  -- The rest of the branch for a response that a request waits for, after the relay of it.
  unfoldable pub finish_relay : AppCtx D → ℕ → PendingRequest → Message D → AppCtx D
  unfolding settle says_ok
  finish_relay ctx slot req m =
      let settled = if says_ok m then settle req.type req.dev ctx else ctx in
      record settled { tracker = request_tracker_remove settled.tracker (some slot) }

  -- The slot that is filled when a request is forwarded.
  abbrev pub pending : ℕ → ℕ → Message D → PendingRequest
  pending fd now m = record {
    valid = true;
    client_fd = some fd;
    seq = m.seq;
    dev = m.dev;
    type = m.type;
    from_scheduler = false;
    created_ms = now;
  }

module _ {D : Type 0} (double : Double D) (can_write : ℕ → Bytes → Bool) where
  open double use {zero_double}

  -- `write(fd, wbuf, wn)` of a formatted message: the bytes, or none if `line_format` or the write fails.
  unfoldable pub send_line : ℕ → Message D → Option (List (ℕ × Bytes))
  send_line fd m = elim (line_format double m 512) [
    | none ↦ none
    | some line ↦ if can_write fd line then some ((fd, line) ∷ []) else none
  ]

  -- The answer to a REQ REGISTER with no `dev`, or with that of the TMC.
  unfoldable pub attach_controller : ℕ → AppCtx D → Message D → Effect D
  unfolding send_line
  attach_controller fd ctx m =
      let is_tmc = m.has_dev && m.dev == 100 in
      let ctx' : AppCtx D =
        if is_tmc then record ctx { tmc_fd = some fd } else record ctx { pmc_fd = some fd } in
      let out : Message D = record (zero_message zero_double) {
        role = Role.resp;
        type = MsgType.register;
        seq = if m.has_seq then m.seq else 0;
        has_seq = m.has_seq;
        dev = if m.has_dev then m.dev else 0;
        has_dev = m.has_dev;
        ok = pos 1;
        has_ok = true;
      } in
      elim (send_line fd out) [
        | none ↦ effect ctx' [] failed
        | some sent ↦ effect ctx' sent answered
      ]

  unfoldable pub relay_response : AppCtx D → ℕ → PendingRequest → Message D → Effect D
  unfolding send_line finish_relay
  relay_response ctx slot req m = elim req.client_fd [
    | none ↦ effect (finish_relay ctx slot req m) [] answered
    | some client ↦ elim (send_line client m) [
      | none ↦ effect ctx [] failed
      | some sent ↦ effect (finish_relay ctx slot req m) sent answered
    ]
  ]

  -- The write to the controller; on failure the slot is given up.
  unfoldable pub forward_line : AppCtx D → ℕ → Message D → Option ℕ → Effect D
  unfolding send_line
  forward_line ctx target m slot = elim (send_line target m) [
    | none ↦ effect (record ctx { tracker = request_tracker_remove ctx.tracker slot }) [] failed
    | some sent ↦ effect ctx sent silent
  ]

  -- A request with a number, after `request_tracker_alloc`.
  unfoldable pub forward_numbered :
      ℕ → ℕ → AppCtx D → ℕ → Message D → Option (ℕ × RequestTracker) → Effect D
  unfolding forward_line
  forward_numbered fd now ctx target m none = effect ctx [] failed
  forward_numbered fd now ctx target m (some (slot, t)) =
      forward_line (record ctx { tracker = write_slot t slot (pending fd now m) }) target m
        (some slot)

  unfoldable pub forward_to : ℕ → ℕ → AppCtx D → Message D → Option ℕ → Effect D
  unfolding forward_line forward_numbered
  forward_to fd now ctx m none = effect ctx [] failed
  forward_to fd now ctx m (some target) =
      if m.has_seq
      then forward_numbered fd now ctx target m (request_tracker_alloc ctx.tracker)
      else forward_line ctx target m none

  -- `rr == 2`: the request is remembered and goes to its controller.
  unfoldable pub forward_request : ℕ → ℕ → AppCtx D → Message D → Effect D
  unfolding resolve_target_fd forward_to
  forward_request fd now ctx m =
      if not m.has_dev
      then effect ctx [] failed
      else forward_to fd now ctx m (resolve_target_fd ctx m.dev)

  -- The common end: the answer `out` goes back to the connection.
  unfoldable pub reply : ℕ → AppCtx D → Message D → Effect D
  unfolding send_line
  reply fd ctx out = elim (send_line fd out) [
    | none ↦ effect ctx [] failed
    | some sent ↦ effect ctx sent answered
  ]

  -- What is done with the result of `router_handle`.
  unfoldable pub after_router : ℕ → ℕ → AppCtx D → Message D → Routed D → Effect D
  unfolding forward_request reply
  after_router fd now ctx m no_response = effect ctx [] silent
  after_router fd now ctx m (response out) = reply fd ctx out
  after_router fd now ctx m forward = forward_request fd now ctx m

  unfoldable pub route_line : ℕ → ℕ → AppCtx D → Message D → Effect D
  unfolding router_handle after_router
  route_line fd now ctx m =
      let (reg, routed) =
        router_handle zero_double ctx.module_registry ctx.pmc_fd ctx.tmc_fd now m in
      after_router fd now (record ctx { module_registry = reg }) m routed

  -- The slot of the request that the message answers, if it is from a controller.
  unfoldable pub waiting_slot : ℕ → AppCtx D → Message D → Option ℕ
  unfolding is_controller_fd
  waiting_slot fd ctx m =
      if is_controller_fd ctx fd && (role_eq m.role Role.resp && (m.has_seq && m.has_dev))
      then request_tracker_find ctx.tracker m.seq m.dev
      else none

  unfoldable pub relay_or_route : ℕ → ℕ → AppCtx D → Message D → Option ℕ → Effect D
  unfolding relay_response route_line
  relay_or_route fd now ctx m none = route_line fd now ctx m
  relay_or_route fd now ctx m (some slot) = elim (get_elem? ctx.tracker.items slot) [
    | none ↦ route_line fd now ctx m
    | some req ↦ relay_response ctx slot req m
  ]

  -- A line that was parsed.
  unfoldable pub handle_message : ℕ → ℕ → AppCtx D → Message D → Effect D
  unfolding attach_controller waiting_slot relay_or_route
  handle_message fd now ctx m =
      if (role_eq m.role Role.req && type_eq m.type MsgType.register)
        && (not m.has_dev || (m.has_dev && m.dev == 100))
      then attach_controller fd ctx m
      else relay_or_route fd now ctx m (waiting_slot fd ctx m)

  -- What follows `line_parse`.
  unfoldable pub handle_parsed : ℕ → ℕ → AppCtx D → Option (Message D) → Effect D
  unfolding handle_message reply make_parse_error
  handle_parsed fd now ctx none = reply fd ctx (make_parse_error zero_double)
  handle_parsed fd now ctx (some m) = handle_message fd now ctx m

  -- `fd` is that of the connection; `now` is what `now_ms()` returns during the call.
  unfoldable pub handle_one_line : ℕ → ℕ → AppCtx D → Bytes → Effect D
  unfolding handle_parsed
  handle_one_line fd now ctx line = handle_parsed fd now ctx (line_parse double line)
