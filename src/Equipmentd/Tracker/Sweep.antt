-- ===== src/Equipmentd/Tracker/Sweep.antt =====
-- services/equipmentd/src/request_tracker.c: the sweep, on the tracker as a table.
use equipment_control.Prelude.{
  ℕ, ◌+◌, ◌≡◌, refl, List, [], ◌∷◌, Option, none, some, arith, if◌then◌else◌, ltb, length,
}
use equipment_control.Equipmentd.Tracker.{
  PendingRequest, RequestTracker, sweep_items, request_tracker_sweep_timeouts,
}
use equipment_control.Equipmentd.Tracker.Lookup.{UniqueKeys, first_match, lookup_request}

-- What is left at `now` of a request that may wait: nothing once more than 10000 ms have gone by.
abbrev pub in_time : ℕ → Option PendingRequest → Option PendingRequest
in_time now none = none
in_time now (some r) = if ltb (r.created_ms + 10000) now then none else some r

first_match-sweep :
    (now seq dev : ℕ) (rs : List PendingRequest)
    → UniqueKeys rs
    → first_match seq dev (sweep_items now rs) ≡ in_time now (first_match seq dev rs)
unfolding sweep_items
first_match-sweep now seq dev [] u = refl
first_match-sweep now seq dev (r ∷ rs) u = ground (arith, first_match-sweep now seq dev rs u.1)

UniqueKeys-sweep :
    (now : ℕ) (rs : List PendingRequest) → UniqueKeys rs → UniqueKeys (sweep_items now rs)
unfolding sweep_items
UniqueKeys-sweep now [] u = tt
UniqueKeys-sweep now (r ∷ rs) u =
    ground (arith, UniqueKeys-sweep now rs u.1, first_match-sweep now r.seq r.dev rs u.1)

length-sweep : (now : ℕ) (rs : List PendingRequest) → length (sweep_items now rs) ≡ length rs
unfolding sweep_items
length-sweep now [] = refl
length-sweep now (r ∷ rs) = omega (arith, length-sweep now rs)

-- In a tracker with unique keys, after the sweep at `now` each key finds the request that it found before
-- if at most 10000 ms have gone by since that was made, and else nothing; the keys are still unique, and
-- there are as many slots as before.
pub lookup_request-sweep :
    (t : RequestTracker) (now : ℕ)
    → UniqueKeys t.items
    → ((seq dev : ℕ)
        → lookup_request (request_tracker_sweep_timeouts t now) seq dev
          ≡ in_time now (lookup_request t seq dev))
      × UniqueKeys (request_tracker_sweep_timeouts t now).items
      × (length (request_tracker_sweep_timeouts t now).items ≡ length t.items)
unfolding lookup_request request_tracker_sweep_timeouts
lookup_request-sweep t now u = (
  λ seq dev. first_match-sweep now seq dev t.items u,
  UniqueKeys-sweep now t.items u,
  length-sweep now t.items,
)
