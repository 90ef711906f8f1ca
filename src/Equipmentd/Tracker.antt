-- ===== src/Equipmentd/Tracker.antt =====
-- services/equipmentd/src/request_tracker.c: requests that wait for a response. The array of 16 slots
-- is a list of that length, and a pointer into it an index.
pub mod Slots
pub mod Lookup
pub mod Sweep
use equipment_control.Prelude.{
  ℕ, suc, ◌+◌, Bool, true, false, ◌&&◌, List, [], ◌∷◌, map, Option, none, some, ltb, ◌==◌,
  if◌then◌else◌, set, replicate,
}
use equipment_control.Protocol.Message.{MsgType}

abbrev pub request_tracker_max : ℕ
request_tracker_max = 16

abbrev pub request_timeout_ms : ℕ
request_timeout_ms = 10000

-- `client_fd` is `none` for -1, a request of the scheduler.
pub record PendingRequest : Type 0 where
  pub valid : Bool
  pub client_fd : Option ℕ
  pub seq : ℕ
  pub dev : ℕ
  pub type : MsgType
  pub from_scheduler : Bool
  pub created_ms : ℕ

pub record RequestTracker : Type 0 where
  pub items : List PendingRequest

-- All bytes 0.
abbrev pub zero_request : PendingRequest
zero_request = record {
  valid = false;
  client_fd = some 0;
  seq = 0;
  dev = 0;
  type = MsgType.ping;
  from_scheduler = false;
  created_ms = 0;
}

unfoldable pub request_tracker_init : RequestTracker
request_tracker_init = record { items = replicate request_tracker_max zero_request }

abbrev shift : Option ℕ → Option ℕ
shift none = none
shift (some i) = some (suc i)

-- The loop of `request_tracker_alloc`: the first slot that is not valid.
unfoldable pub find_free : List PendingRequest → Option ℕ
find_free [] = none
find_free (r ∷ rs) = if r.valid then shift (find_free rs) else some 0

-- The pointer returned is the index of the slot, which has been zeroed and marked.
unfoldable pub request_tracker_alloc : RequestTracker → Option (ℕ × RequestTracker)
unfolding find_free
request_tracker_alloc t = elim (find_free t.items) [
  | none ↦ none
  | some i ↦ some (i, record { items = set t.items i (record zero_request { valid = true }) })
]

abbrev pub matches : ℕ → ℕ → PendingRequest → Bool
matches seq dev r = r.valid && (r.seq == seq && r.dev == dev)

-- The loop of `request_tracker_find`.
unfoldable pub find_match : ℕ → ℕ → List PendingRequest → Option ℕ
find_match seq dev [] = none
find_match seq dev (r ∷ rs) = if matches seq dev r then some 0 else shift (find_match seq dev rs)

unfoldable pub request_tracker_find : RequestTracker → ℕ → ℕ → Option ℕ
unfolding find_match
request_tracker_find t seq dev = find_match seq dev t.items

-- `none` is the null pointer, at which nothing is done.
unfoldable pub request_tracker_remove : RequestTracker → Option ℕ → RequestTracker
request_tracker_remove t none = t
request_tracker_remove t (some i) = record { items = set t.items i zero_request }

-- A write through the pointer of a slot.
abbrev pub write_slot : RequestTracker → ℕ → PendingRequest → RequestTracker
write_slot t i r = record { items = set t.items i r }

-- `now - created > REQUEST_TIMEOUT_MS`, read as `created + REQUEST_TIMEOUT_MS < now`.
abbrev pub is_expired : ℕ → PendingRequest → Bool
is_expired now r = r.valid && ltb (r.created_ms + request_timeout_ms) now

unfoldable pub sweep_items : ℕ → List PendingRequest → List PendingRequest
sweep_items now [] = []
sweep_items now (r ∷ rs) = (if is_expired now r then zero_request else r) ∷ sweep_items now rs

unfoldable pub request_tracker_sweep_timeouts : RequestTracker → ℕ → RequestTracker
unfolding sweep_items
request_tracker_sweep_timeouts t now = record { items = sweep_items now t.items }
