-- ===== src/Equipmentd/Ticker/Idle.antt =====
-- services/equipmentd/src/main.c, router.c and module_registry.c: the state of a module in the
-- registry, along any run of the server.
use equipment_control.Protocol.Codec.Parse.{line_parse}
use equipment_control.Equipmentd.Tracker.{PendingRequest}
use equipment_control.Protocol.Double.{Double}
use equipment_control.Prelude.{Bytes, Option, some, none, []}
use equipment_control.Protocol.Message.{Role, Message, MsgType}
use equipment_control.Equipmentd.Ticker.{
  drop_controller, after_events, run_scheduler, after_tick, refresh_module_health,
}
use equipment_control.Equipmentd.Server.{
  forward_numbered, forward_to, handle_parsed, reply, tracker_has_pending, route_line,
  handle_one_line, after_router, relay_or_route, forward_line, finish_relay, attach_controller,
  relay_response, handle_message, forward_request, settle, init_ctx, AppCtx, unlatch,
}
use equipment_control.Equipmentd.Scheduler.{
  Tick, is_state, is_idle_usable, is_done, job_error, job_stopped, job_idle, scheduler_tick,
  JobState,
}
use equipment_control.Equipmentd.Router.{
  route_role, no_response, forward, router_handle, handle_evt, response, Routed, store_telemetry,
  store_status, mark_registered, on_module, handle_evt_type,
}
use equipment_control.Equipmentd.Registry.{
  ModuleInfo, module_registry_touch_telemetry, module_registry_touch_status, ModuleRegistry,
}
use equipment_control.Prelude.{refl, ◌≡◌, ℕ, Bool, true, false, arith}

-- No module has a state.
pub record NoState {D : Type 0} (reg : ModuleRegistry D) : Type 0 where
  pub tmc : reg.tmc.has_state ≡ false
  pub preclean : reg.pmc_preclean.has_state ≡ false
  pub deposition : reg.pmc_deposition.has_state ≡ false

-- The job does not run.
abbrev pub is_resting : JobState → Bool
is_resting job_idle = true
is_resting job_stopped = true
is_resting job_error = true
is_resting _ = false

module _ {D : Type 0} where
  handle_evt-NoState :
      (type : MsgType) (reg : ModuleRegistry D) (now : ℕ) (m : Message D)
      → NoState reg
      → NoState (handle_evt_type type reg now m)
  unfolding handle_evt_type on_module mark_registered store_status store_telemetry
      module_registry_touch_status module_registry_touch_telemetry
  handle_evt-NoState MsgType.register reg now m s = ground arith
  handle_evt-NoState MsgType.status reg now m s = ground arith
  handle_evt-NoState MsgType.telemetry reg now m s = ground arith
  handle_evt-NoState _ reg now m s = s

  router_handle-NoState :
      (zero : D) (reg : ModuleRegistry D) (pmc_fd tmc_fd : Option ℕ) (now : ℕ) (m : Message D)
      → NoState reg
      → NoState (router_handle zero reg pmc_fd tmc_fd now m).0
  unfolding router_handle handle_evt
  router_handle-NoState zero reg pmc_fd tmc_fd now m s = by_role m.role
    where
      by_role : (r : Role) → NoState (route_role r zero reg pmc_fd tmc_fd now m).0
      by_role Role.evt = handle_evt-NoState m.type reg now m s
      by_role Role.req = s
      by_role _ = s

  unlatch-NoState : (reg : ModuleRegistry D) (dev : ℕ) → NoState reg → NoState (unlatch reg dev)
  unfolding unlatch
  unlatch-NoState reg dev s = ground arith

  refresh-NoState :
      (now : ℕ) (reg : ModuleRegistry D) → NoState reg → NoState (refresh_module_health now reg)
  unfolding refresh_module_health
  refresh-NoState now reg s = record {
    tmc = s.tmc;
    preclean = s.preclean;
    deposition = s.deposition;
  }

  is_state_unset : (m : ModuleInfo D) (text : Bytes) → m.has_state ≡ false → is_state m text ≡ false
  unfolding is_state
  is_state_unset m text e = simp e

  is_done_unset : (m : ModuleInfo D) → m.has_state ≡ false → is_done m ≡ false
  unfolding is_done
  is_done_unset m e = ground arith

  is_idle_usable_unset : (m : ModuleInfo D) → m.has_state ≡ false → is_idle_usable m ≡ false
  unfolding is_idle_usable
  is_idle_usable_unset m e = ground arith

  tick_resting :
      (reg : ModuleRegistry D) (pending : Bool) (n : ℕ) (job : JobState)
      → NoState reg
      → is_resting job ≡ true
      → ((scheduler_tick reg pending n job).action.should_send ≡ false)
        × (is_resting (scheduler_tick reg pending n job).job_state ≡ true)
  unfolding scheduler_tick
  tick_resting reg pending n job_idle s r =
      simp
        (
          is_state_unset reg.pmc_preclean _ s.preclean,
          is_state_unset reg.pmc_deposition _ s.deposition,
          is_done_unset reg.pmc_preclean s.preclean,
          is_idle_usable_unset reg.pmc_preclean s.preclean,
        )
        (ground arith)
  tick_resting reg pending n job_stopped s r =
      simp
        (
          is_state_unset reg.pmc_preclean _ s.preclean,
          is_state_unset reg.pmc_deposition _ s.deposition,
        )
        (ground arith)
  tick_resting reg pending n job_error s r =
      simp
        (
          is_state_unset reg.pmc_preclean _ s.preclean,
          is_state_unset reg.pmc_deposition _ s.deposition,
        )
        (ground arith)
  tick_resting reg pending n _ s r = cc

-- Neither a state nor a job that runs.
abbrev pub Calm : {D : Type 0} → AppCtx D → Type 0
Calm ctx = NoState ctx.module_registry × (is_resting ctx.job_state ≡ true)

module _ {D : Type 0} where
  init_ctx-Calm : (zero : D) → Calm (init_ctx zero)
  unfolding init_ctx
  init_ctx-Calm zero = (record { tmc = refl; preclean = refl; deposition = refl }, refl)

  settle-Calm : (type : MsgType) (dev : ℕ) (ctx : AppCtx D) → Calm ctx → Calm (settle type dev ctx)
  unfolding settle
  settle-Calm MsgType.stop dev ctx c = (c.0, refl)
  settle-Calm MsgType.reset dev ctx c = (unlatch-NoState ctx.module_registry dev c.0, refl)
  settle-Calm MsgType.fault dev ctx c = (c.0, refl)
  settle-Calm _ dev ctx c = c

module _ {D : Type 0} (double : Double D) (can_write : ℕ → Bytes → Bool) where
  open double use {zero_double}

  after_tick-Calm :
      (now : ℕ) (ctx : AppCtx D) (pmc : ℕ) (t : Tick)
      → NoState ctx.module_registry
      → t.action.should_send ≡ false
      → is_resting t.job_state ≡ true
      → ((after_tick double can_write now ctx pmc t).1 ≡ [])
        × Calm (after_tick double can_write now ctx pmc t).0
  unfolding after_tick
  after_tick-Calm now ctx pmc t s e r = ground arith

  run_scheduler-Calm :
      (now : ℕ) (ctx : AppCtx D)
      → Calm ctx
      → ((run_scheduler double can_write now ctx).1 ≡ [])
        × Calm (run_scheduler double can_write now ctx).0
  unfolding run_scheduler
  run_scheduler-Calm now ctx c = ground (
    arith,
    after_tick-Calm now,
    refresh-NoState now ctx.module_registry,
    tick_resting (refresh_module_health now ctx.module_registry) (tracker_has_pending ctx.tracker)
        ctx.next_seq ctx.job_state,
  )

  relay_response-Calm :
      (ctx : AppCtx D) (slot : ℕ) (req : PendingRequest) (m : Message D)
      → Calm ctx
      → Calm (relay_response double can_write ctx slot req m).ctx
  unfolding relay_response finish_relay
  relay_response-Calm ctx slot req m c = ground (arith, settle-Calm req.type req.dev ctx)

  forward_request-Calm :
      (fd now : ℕ) (ctx : AppCtx D) (m : Message D)
      → Calm ctx
      → Calm (forward_request double can_write fd now ctx m).ctx
  unfolding forward_request forward_to forward_numbered forward_line
  forward_request-Calm fd now ctx m c = ground arith

  after_router-Calm :
      (fd now : ℕ) (ctx : AppCtx D) (m : Message D) (r : Routed D)
      → Calm ctx
      → Calm (after_router double can_write fd now ctx m r).ctx
  unfolding after_router reply
  after_router-Calm fd now ctx m no_response c = c
  after_router-Calm fd now ctx m (response out) c = ground arith
  after_router-Calm fd now ctx m forward c = forward_request-Calm fd now ctx m c

  route_line-Calm :
      (fd now : ℕ) (ctx : AppCtx D) (m : Message D)
      → Calm ctx
      → Calm (route_line double can_write fd now ctx m).ctx
  unfolding route_line
  route_line-Calm fd now ctx m c =
      after_router-Calm fd now _ m _
        (router_handle-NoState zero_double ctx.module_registry ctx.pmc_fd ctx.tmc_fd now m c.0, c.1)

  handle_message-Calm :
      (fd now : ℕ) (ctx : AppCtx D) (m : Message D)
      → Calm ctx
      → Calm (handle_message double can_write fd now ctx m).ctx
  unfolding handle_message attach_controller relay_or_route
  handle_message-Calm fd now ctx m c =
      ground (arith, route_line-Calm fd now ctx m c, relay_response-Calm ctx)

  handle_parsed-Calm :
      (fd now : ℕ) (ctx : AppCtx D) (o : Option (Message D))
      → Calm ctx
      → Calm (handle_parsed double can_write fd now ctx o).ctx
  unfolding handle_parsed reply
  handle_parsed-Calm fd now ctx none c = ground arith
  handle_parsed-Calm fd now ctx (some m) c = handle_message-Calm fd now ctx m c

-- One step of the server: a line is handled, a round of the loop ends, or a connection ends.
pub data Step {D : Type 0} (double : Double D) (ctx : AppCtx D) : AppCtx D → Type 0 where
  line :
      (can_write : ℕ → Bytes → Bool) (fd now : ℕ) (text : Bytes)
      → Step double ctx (handle_one_line double can_write fd now ctx text).ctx
  round :
      (can_write : ℕ → Bytes → Bool) (now : ℕ)
      → Step double ctx (after_events double can_write now ctx).0
  hang_up : (fd : ℕ) → Step double ctx (drop_controller fd ctx)

-- The contexts that the server can come to from the one that `main` starts with.
pub data Reached {D : Type 0} (double : Double D) : AppCtx D → Type 0 where
  start : Reached double (init_ctx (double.zero_double))
  next : (ctx ctx' : AppCtx D) → Reached double ctx → Step double ctx ctx' → Reached double ctx'

module _ {D : Type 0} (double : Double D) where
  Step-Calm : (ctx ctx' : AppCtx D) → Step double ctx ctx' → Calm ctx → Calm ctx'
  unfolding handle_one_line after_events drop_controller
  Step-Calm ctx _ (line w fd now text) c =
      handle_parsed-Calm double w fd now ctx (line_parse double text) c
  Step-Calm ctx _ (round w now) c = (run_scheduler-Calm double w now ctx c).1
  Step-Calm ctx _ (hang_up fd) c = ground arith

  -- However the server is run, no module gets a state, and the job is idle, stopped or in error.
  pub Reached-Calm : {ctx : AppCtx D} → Reached double ctx → Calm ctx
  Reached-Calm start = init_ctx-Calm (double.zero_double)
  Reached-Calm (next ctx ctx' r s) = Step-Calm ctx ctx' s (Reached-Calm r)

  -- In every context that the server can reach from the one that `main` starts with, by lines handled,
  -- rounds ended and connections that end, a call of `run_scheduler` writes nothing: no START is sent.
  pub run_scheduler_never_sends :
      (can_write : ℕ → Bytes → Bool) (now : ℕ) {ctx : AppCtx D}
      → Reached double ctx
      → (run_scheduler double can_write now ctx).1 ≡ []
  run_scheduler_never_sends can_write now {ctx} r =
      (run_scheduler-Calm double can_write now ctx (Reached-Calm r)).0
