-- ===== src/Tests/Server.antt =====
-- The equipment server on concrete inputs.
use equipment_control.Equipmentd.Ticker.Health.{refresh_module_health-handle_evt}
use equipment_control.Equipmentd.Router.{handle_req, handle_evt}
use equipment_control.Equipmentd.Scheduler.Steps.{
  scheduler_tick-MayStart, scheduler_tick-Edge, MayStart, Edge,
}
use equipment_control.Equipmentd.Router.Replies.{handle_req-Replied, Replied}
use equipment_control.Equipmentd.Ticker.Idle.{Step, next, run_scheduler_never_sends}
use equipment_control.Equipmentd.Server.Exchange.{exchange}
use equipment_control.Equipmentd.Scheduler.{scheduler_tick, job_idle}
use equipment_control.Protocol.Codec.Numbers.{print_int, digits_onto, print_unsigned}
use equipment_control.Equipmentd.Registry.{zero_module, ModuleRegistry, module_registry_init}
use equipment_control.Tests.{whole, started_one, start_one}
use equipment_control.Protocol.Codec.Format.{line_format}
use equipment_control.Equipmentd.Devices.{device_manager_init}
use equipment_control.Equipmentd.Tracker.Lookup.{
  lookup_request-remove, request_tracker_init-UniqueKeys, lookup_request-alloc, UniqueKeys,
  lookup_request,
}
use equipment_control.Equipmentd.Tracker.{
  zero_request, request_tracker_sweep_timeouts, request_tracker_find, request_tracker_remove,
  request_tracker_alloc, RequestTracker, write_slot, request_tracker_init,
}
use equipment_control.Equipmentd.Ticker.{refresh_module_health, run_scheduler}
use equipment_control.Equipmentd.Server.Relay.{handle_message_relays, Forgotten, IsAnswer}
use equipment_control.Equipmentd.Server.Forward.{handle_message_forwards, Remembered, IsCommand}
use equipment_control.Equipmentd.Server.{
  init_ctx, silent, pending, handle_one_line, answered, is_controller_fd, send_line,
  resolve_target_fd, handle_message, AppCtx,
}
use equipment_control.Equipmentd.Scheduler.{is_state, is_done, is_idle_usable}
use equipment_control.Prelude.{
  str_eq, arith, length, ℕ, ◌≡◌, ◌<◌, refl, none, some, List, [], ◌∷◌, Bytes, codes, Bool, true,
  false, ◌==◌, ◌&&◌, if◌then◌else◌, leb,
}
use equipment_control.Protocol.Message.{Role, MsgType, Message, zero_message}
use equipment_control.Equipmentd.Ticker.Idle.{Reached}
use equipment_control.Equipmentd.Tracker.Slots.{count_valid}
use equipment_control.Equipmentd.Tracker.Sweep.{lookup_request-sweep, in_time}

-- The controllers are connected, at 5 and 6.
abbrev pub connected : AppCtx ℕ
connected = record {
  dev_mgr = device_manager_init;
  module_registry = module_registry_init 0;
  pmc_fd = some 5;
  tmc_fd = some 6;
  tracker = request_tracker_init;
  next_seq = 1000;
  job_state = job_idle;
}

abbrev pub all_write : ℕ → Bytes → Bool
all_write fd bytes = true

abbrev asked : List (ℕ × Bytes)
asked = (5, codes "REQ START dev=1 seq=7\n") ∷ []

abbrev told : List (ℕ × Bytes)
told = (9, codes "RESP START dev=1 seq=7 ok=1\n") ∷ []

send_asked : send_line whole all_write 5 start_one ≡ some asked
unfolding send_line line_format print_unsigned digits_onto
send_asked = refl

send_told : send_line whole all_write 9 started_one ≡ some told
unfolding send_line line_format print_unsigned print_int digits_onto
send_told = refl

pub start_one-IsCommand : IsCommand start_one
start_one-IsCommand = record { is_req = refl; command = refl; numbered = refl; addressed = refl }

pub started_one-IsAnswer : IsAnswer started_one
started_one-IsAnswer = record { is_resp = refl; numbered = refl; addressed = refl }

abbrev pub after_start : AppCtx ℕ
after_start = (handle_message whole all_write 9 100 connected start_one).ctx

pub connected-room : count_valid connected.tracker.items < length connected.tracker.items
unfolding request_tracker_init
connected-room = omega arith

pub connected-UniqueKeys : UniqueKeys connected.tracker.items
connected-UniqueKeys = request_tracker_init-UniqueKeys

abbrev init_taken : RequestTracker
init_taken = write_slot request_tracker_init 0 (record zero_request { valid = true })

init_taken_first : request_tracker_alloc request_tracker_init ≡ some (0, init_taken)
unfolding request_tracker_alloc request_tracker_init
init_taken_first = refl

pub connected_fresh : lookup_request connected.tracker 7 1 ≡ none
unfolding lookup_request request_tracker_init
connected_fresh = refl

pub to_pmc : resolve_target_fd connected 1 ≡ some 5
unfolding resolve_target_fd
to_pmc = refl

exchange_example :
    ((handle_message whole all_write 9 100 connected start_one).sent ≡ asked)
    × ((handle_message whole all_write 5 200 after_start started_one).sent ≡ told)
    × ((handle_message whole all_write 5 200 after_start started_one).result ≡ answered)
    × ((seq dev : ℕ)
        → lookup_request
            (handle_message whole all_write 5 200 after_start started_one).ctx.tracker
            seq
            dev
          ≡ lookup_request connected.tracker seq dev)
exchange_example =
    exchange whole all_write 9 100 200 connected start_one started_one 5 asked told
      start_one-IsCommand to_pmc connected-room connected-UniqueKeys connected_fresh
      started_one-IsAnswer refl refl send_asked send_told

handle_message_forwards_example :
    ((handle_message whole all_write 9 100 connected start_one).sent ≡ asked)
    × ((handle_message whole all_write 9 100 connected start_one).result ≡ silent)
    × Remembered connected.tracker after_start.tracker (pending 9 100 start_one)
    × ((other : ℕ) → is_controller_fd after_start other ≡ is_controller_fd connected other)
handle_message_forwards_example =
    handle_message_forwards whole all_write 9 100 connected start_one 5 asked start_one-IsCommand
      to_pmc connected-room connected-UniqueKeys connected_fresh send_asked

pub after_start-Remembered :
    Remembered connected.tracker after_start.tracker (pending 9 100 start_one)
    × ((other : ℕ) → is_controller_fd after_start other ≡ is_controller_fd connected other)
after_start-Remembered =
    let (sent, quiet, remembered, same) =
      handle_message_forwards whole all_write 9 100 connected start_one 5 asked start_one-IsCommand
        to_pmc connected-room connected-UniqueKeys connected_fresh send_asked in
    (remembered, same)

handle_message_relays_example :
    ((handle_message whole all_write 5 200 after_start started_one).sent ≡ told)
    × ((handle_message whole all_write 5 200 after_start started_one).result ≡ answered)
    × Forgotten after_start.tracker
        (handle_message whole all_write 5 200 after_start started_one).ctx.tracker
        7
        1
unfolding is_controller_fd
handle_message_relays_example =
    let (remembered, same) = after_start-Remembered in
    handle_message_relays whole all_write 5 200 after_start started_one (pending 9 100 start_one) 9
      told started_one-IsAnswer (same 5) remembered.1 (remembered.0 7 1) refl send_told

lookup_request-alloc_example :
    ((seq dev : ℕ)
      → lookup_request (write_slot init_taken 0 (pending 9 100 start_one)) seq dev ≡ (
          if (7 == seq) && (1 == dev)
          then some (pending 9 100 start_one)
          else lookup_request request_tracker_init seq dev))
    × UniqueKeys (write_slot init_taken 0 (pending 9 100 start_one)).items
lookup_request-alloc_example =
    lookup_request-alloc request_tracker_init (pending 9 100 start_one) init_taken_first refl
      connected_fresh request_tracker_init-UniqueKeys

lookup_request-remove_example :
    ((seq dev : ℕ)
      → lookup_request
          (request_tracker_remove after_start.tracker
            (request_tracker_find after_start.tracker 7 1))
          seq
          dev
        ≡ (if (7 == seq) && (1 == dev) then none else lookup_request after_start.tracker seq dev))
    × UniqueKeys
        (request_tracker_remove after_start.tracker
          (request_tracker_find after_start.tracker 7 1)).items
lookup_request-remove_example =
    let (remembered, same) = after_start-Remembered in
    lookup_request-remove after_start.tracker 7 1 remembered.1

lookup_request-sweep_example :
    ((seq dev : ℕ)
      → lookup_request (request_tracker_sweep_timeouts after_start.tracker 20000) seq dev
        ≡ in_time 20000 (lookup_request after_start.tracker seq dev))
    × UniqueKeys (request_tracker_sweep_timeouts after_start.tracker 20000).items
    × (length (request_tracker_sweep_timeouts after_start.tracker 20000).items
        ≡ length after_start.tracker.items)
lookup_request-sweep_example =
    let (remembered, same) = after_start-Remembered in
    lookup_request-sweep after_start.tracker 20000 remembered.1

-- A preclean module that is registered, healthy and idle.
abbrev one_idle : ModuleRegistry ℕ
one_idle = record (module_registry_init 0) {
  pmc_preclean = record (zero_module 0) {
    registered = true;
    healthy = true;
    has_state = true;
    current_state = codes "IDLE";
  };
}

one_idle_sends : (scheduler_tick one_idle false 1000 job_idle).action.should_send ≡ true
unfolding scheduler_tick module_registry_init is_state str_eq is_done is_idle_usable
one_idle_sends = refl

scheduler_tick-MayStart_example :
    MayStart one_idle false 1000 job_idle (scheduler_tick one_idle false 1000 job_idle)
scheduler_tick-MayStart_example =
    scheduler_tick-MayStart one_idle false 1000 job_idle one_idle_sends

scheduler_tick-Edge_example : Edge job_idle (scheduler_tick one_idle false 1000 job_idle).job_state
scheduler_tick-Edge_example = scheduler_tick-Edge one_idle false 1000 job_idle

handle_req-Replied_example : Replied (some 5) none start_one (handle_req 0 (some 5) none start_one)
handle_req-Replied_example = handle_req-Replied 0 (some 5) none start_one

-- EVT STATUS dev=1 state=IDLE
abbrev idle_one : Message ℕ
idle_one = record (zero_message 0) {
  role = Role.evt;
  type = MsgType.status;
  dev = 1;
  has_dev = true;
  state = codes "IDLE";
  has_state = true;
}

refresh_module_health-handle_evt_example :
    (refresh_module_health 5000 (handle_evt one_idle 1000 idle_one)).pmc_preclean.healthy
    ≡ leb 5000 4000
refresh_module_health-handle_evt_example =
    refresh_module_health-handle_evt one_idle idle_one 1000 5000 (omega arith) refl refl
      (refl, refl)

run_scheduler_never_sends_example :
    (run_scheduler whole all_write 50
      (handle_one_line whole all_write 9 10 (init_ctx 0) (codes "REQ PING seq=1\n")).ctx).1
    ≡ []
run_scheduler_never_sends_example = run_scheduler_never_sends whole all_write 50 (
    next (init_ctx 0)
      (handle_one_line whole all_write 9 10 (init_ctx 0) (codes "REQ PING seq=1\n")).ctx
      Reached.start (Step.line all_write 9 10 (codes "REQ PING seq=1\n")))
