-- ===== src/Equipmentd/Tracker/Slots.antt =====
-- services/equipmentd/src/request_tracker.c: the slots of the tracker, their allocation and removal.
use equipment_control.Prelude.{
  get_elem?-set_ne, get_elem?-set_self, Bool-cases, ℕ, zero, suc, ◌+◌, ◌≤◌, ◌<◌, ◌≡◌, ◌≢◌, inl, inr,
  refl, true, false, List, [], ◌∷◌, Option, none, some, arith, if◌then◌else◌, get_elem?, set,
  length, All, length-set,
}
use equipment_control.Equipmentd.Tracker.{
  PendingRequest, RequestTracker, zero_request, shift, find_free, request_tracker_alloc,
}

-- What the loop finds: the first slot that is not valid, behind valid ones, or that all are valid.
pub data FreeSlot (rs : List PendingRequest) : Option ℕ → Type 0 where
  full : All (λ r. r.valid ≡ true) rs → FreeSlot rs none
  free :
      (i : ℕ) (r : PendingRequest)
      → get_elem? rs i ≡ some r
      → r.valid ≡ false
      → i < length rs
      → FreeSlot rs (some i)

FreeSlot-cons :
    (r : PendingRequest) (rs : List PendingRequest) {o : Option ℕ}
    → r.valid ≡ true
    → FreeSlot rs o
    → FreeSlot (r ∷ rs) (shift o)
FreeSlot-cons r rs v (full a) = full (v, a)
FreeSlot-cons r rs v (free i s at u h) = free (suc i) s at u (omega arith)

pub find_free-FreeSlot : (rs : List PendingRequest) → FreeSlot rs (find_free rs)
unfolding find_free
find_free-FreeSlot [] = full tt
find_free-FreeSlot (r ∷ rs) = elim (Bool-cases r.valid) [
  | inl v ↦ simp v (FreeSlot-cons r rs v (find_free-FreeSlot rs))
  | inr u ↦ simp u (free 0 r refl u (omega arith))
]

-- The number of requests that wait.
abbrev pub count_valid : List PendingRequest → ℕ
count_valid [] = 0
count_valid (r ∷ rs) = (if r.valid then 1 else 0) + count_valid rs

pub count_valid-le : (rs : List PendingRequest) → count_valid rs ≤ length rs
count_valid-le [] = omega arith
count_valid-le (r ∷ rs) = ground (arith, count_valid-le rs)

count_valid-set :
    (rs : List PendingRequest) (i : ℕ) (old new : PendingRequest)
    → get_elem? rs i ≡ some old
    → count_valid (set rs i new) + (if old.valid then 1 else 0)
      ≡ count_valid rs + (if new.valid then 1 else 0)
count_valid-set [] i old new at = cc
count_valid-set (r ∷ rs) zero old new at = ground arith
count_valid-set (r ∷ rs) (suc i) old new at = ground (arith, count_valid-set rs i old new at)

count_valid_full :
    (rs : List PendingRequest) → All (λ r. r.valid ≡ true) rs → count_valid rs ≡ length rs
count_valid_full [] a = refl
count_valid_full (r ∷ rs) a = ground (arith, count_valid_full rs a.1)

-- The outcome of an allocation.
pub data Allocated (t : RequestTracker) : Option (ℕ × RequestTracker) → Type 0 where
  no_room : count_valid t.items ≡ length t.items → Allocated t none
  slot :
      (i : ℕ) (t' : RequestTracker)
      → i < length t.items
      → get_elem? t'.items i ≡ some (record zero_request { valid = true })
      → ((j : ℕ) → i ≢ j → get_elem? t'.items j ≡ get_elem? t.items j)
      → count_valid t'.items ≡ count_valid t.items + 1
      → length t'.items ≡ length t.items
      → Allocated t (some (i, t'))

-- An allocation fails exactly when every slot is taken; else it takes a slot that was free, adds one
-- waiting request and leaves every other slot alone.
pub request_tracker_alloc-Allocated : (t : RequestTracker) → Allocated t (request_tracker_alloc t)
unfolding request_tracker_alloc
request_tracker_alloc-Allocated t = allocated (find_free t.items) (find_free-FreeSlot t.items)
  where
    allocated :
        (o : Option ℕ)
        → FreeSlot t.items o
        → Allocated t (elim o [
          | none ↦ none
          | some i ↦
              some (i, record { items = set t.items i (record zero_request { valid = true }) })
        ])
    allocated none (full a) = no_room (count_valid_full t.items a)
    allocated (some i) (free i' r at u h) =
        slot i _ h (get_elem?-set_self t.items i _ h) (λ j ne. get_elem?-set_ne t.items _ ne)
          (ground (arith, count_valid-set t.items i r (record zero_request { valid = true }) at))
          (length-set t.items i _)
