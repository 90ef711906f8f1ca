-- ===== src/Equipmentd/Ticker.antt =====
-- services/equipmentd/src/main.c: what the loop of `main` does after the events: `run_scheduler` with
-- `refresh_module_health`, and the sweep of the requests. The log line is not modelled.
pub mod Health
pub mod Idle
use equipment_control.Prelude.{
  ◌==◌, ◌-◌, ◌^◌, ℕ, ◌+◌, Bool, true, false, not, List, [], ◌∷◌, Option, none, some, if◌then◌else◌,
  Bytes,
}
use equipment_control.Prelude.Int.{ℤ, pos, negsuc}
use equipment_control.Protocol.Double.{Double}
use equipment_control.Protocol.Message.{Role, MsgType, Message, zero_message}
use equipment_control.Protocol.Codec.Format.{line_format}
use equipment_control.Equipmentd.Registry.{ModuleInfo, ModuleRegistry, module_registry_is_stale}
use equipment_control.Equipmentd.Tracker.{
  PendingRequest, RequestTracker, request_tracker_alloc, request_tracker_remove,
  request_tracker_sweep_timeouts, write_slot,
}
use equipment_control.Equipmentd.Scheduler.{SchedulerAction, Tick, scheduler_tick}
use equipment_control.Equipmentd.Server.{AppCtx, module_stale_ms, tracker_has_pending}

-- `(uint32_t)action.dev`; the scheduler sends only for 1 and 2.
abbrev sent_dev : ℤ → ℕ
sent_dev (pos n) = n
sent_dev (negsuc n) = 2 ^ 32 - 1 - n

abbrev scheduled : ℕ → SchedulerAction → PendingRequest
scheduled now a = record {
  valid = true;
  client_fd = none;
  seq = a.seq;
  dev = sent_dev a.dev;
  type = MsgType.start;
  from_scheduler = true;
  created_ms = now;
}

module _ {D : Type 0} where
  abbrev refresh : ℕ → ModuleInfo D → ModuleInfo D
  refresh now m = record m { healthy = not (module_registry_is_stale m now module_stale_ms) }

  unfoldable pub refresh_module_health : ℕ → ModuleRegistry D → ModuleRegistry D
  unfolding module_registry_is_stale
  refresh_module_health now reg = record {
    tmc = refresh now reg.tmc;
    pmc_preclean = refresh now reg.pmc_preclean;
    pmc_deposition = refresh now reg.pmc_deposition;
  }

module _ {D : Type 0} (double : Double D) (can_write : ℕ → Bytes → Bool) where
  open double use {zero_double}

  abbrev start_request : SchedulerAction → Message D
  start_request a = record (zero_message zero_double) {
    role = Role.req;
    type = MsgType.start;
    dev = sent_dev a.dev;
    has_dev = true;
    seq = a.seq;
    has_seq = true;
  }

  -- The write of the START; the buffer has 256 bytes. On failure the slot is given up.
  unfoldable pub write_start : AppCtx D → ℕ → ℕ → SchedulerAction → AppCtx D × List (ℕ × Bytes)
  write_start ctx pmc slot a =
      let given_up = record ctx { tracker = request_tracker_remove ctx.tracker (some slot) } in
      elim (line_format double (start_request a) 256) [
        | none ↦ (given_up, [])
        | some line ↦ if can_write pmc line then (ctx, (pmc, line) ∷ []) else (given_up, [])
      ]

  -- What follows a tick that asks for a START.
  unfoldable pub send_start : ℕ → AppCtx D → ℕ → SchedulerAction → AppCtx D × List (ℕ × Bytes)
  unfolding write_start
  send_start now ctx pmc a = elim (request_tracker_alloc ctx.tracker) [
    | none ↦ (ctx, [])
    | some (slot, t) ↦
        write_start (record ctx { tracker = write_slot t slot (scheduled now a) }) pmc slot a
  ]

  -- The tick, and what it asks for.
  unfoldable pub after_tick : ℕ → AppCtx D → ℕ → Tick → AppCtx D × List (ℕ × Bytes)
  unfolding send_start
  after_tick now ctx pmc t =
      let ctx' = record ctx { next_seq = t.next_seq; job_state = t.job_state } in
      if not t.action.should_send then (ctx', []) else send_start now ctx' pmc t.action

  -- Returns the context and the bytes written. `now` is what `now_ms()` returns during the call.
  unfoldable pub run_scheduler : ℕ → AppCtx D → AppCtx D × List (ℕ × Bytes)
  unfolding refresh_module_health scheduler_tick tracker_has_pending after_tick
  run_scheduler now ctx =
      let reg = refresh_module_health now ctx.module_registry in
      let ctx' = record ctx { module_registry = reg } in
      elim ctx'.pmc_fd [
        | none ↦ (ctx', [])
        | some pmc ↦
            after_tick now ctx' pmc
              (scheduler_tick reg (tracker_has_pending ctx'.tracker) ctx'.next_seq ctx'.job_state)
      ]

  -- The scheduler and the sweep, at the end of each round of the loop of `main`.
  unfoldable pub after_events : ℕ → AppCtx D → AppCtx D × List (ℕ × Bytes)
  unfolding run_scheduler request_tracker_sweep_timeouts
  after_events now ctx =
      let (ctx', sent) = run_scheduler now ctx in
      (record ctx' { tracker = request_tracker_sweep_timeouts ctx'.tracker now }, sent)

abbrev pub forget : ℕ → Option ℕ → Option ℕ
forget fd none = none
forget fd (some other) = if fd == other then none else some other

module _ {D : Type 0} where
  -- The two assignments of `handle_client_event` before it closes a connection.
  unfoldable pub drop_controller : ℕ → AppCtx D → AppCtx D
  drop_controller fd ctx = record ctx {
    pmc_fd = forget fd ctx.pmc_fd;
    tmc_fd = forget fd ctx.tmc_fd;
  }
