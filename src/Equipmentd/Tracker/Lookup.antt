-- ===== src/Equipmentd/Tracker/Lookup.antt =====
-- The tracker as a table from (seq, dev) to the request that waits.
use equipment_control.Prelude.{
  replicate, ℕ, zero, suc, ◌≡◌, ◌≢◌, inl, inr, refl, ap, ◌∙◌, true, false, ◌&&◌, List, [], ◌∷◌,
  Option, none, some, arith, ◌==◌, if◌then◌else◌, get_elem?, set, Bool-cases,
}
use equipment_control.Equipmentd.Tracker.Slots.{FreeSlot, full, free, find_free-FreeSlot}
use equipment_control.Equipmentd.Tracker.{
  request_tracker_max, request_tracker_init, PendingRequest, RequestTracker, zero_request, shift,
  find_free, request_tracker_alloc, request_tracker_remove, matches, find_match,
  request_tracker_find, write_slot,
}

-- The table: the request that `request_tracker_find` points at.
abbrev pub first_match : ℕ → ℕ → List PendingRequest → Option PendingRequest
first_match seq dev [] = none
first_match seq dev (r ∷ rs) = if matches seq dev r then some r else first_match seq dev rs

unfoldable pub lookup_request : RequestTracker → ℕ → ℕ → Option PendingRequest
lookup_request t seq dev = first_match seq dev t.items

-- The index that is found holds that request.
pub data Found (rs : List PendingRequest) (seq dev : ℕ) : Option ℕ → Type 0 where
  absent : first_match seq dev rs ≡ none → Found rs seq dev none
  present :
      (i : ℕ) (r : PendingRequest)
      → get_elem? rs i ≡ some r
      → matches seq dev r ≡ true
      → first_match seq dev rs ≡ some r
      → Found rs seq dev (some i)

Found-cons :
    (r : PendingRequest) (rs : List PendingRequest) (seq dev : ℕ) {o : Option ℕ}
    → matches seq dev r ≡ false
    → Found rs seq dev o
    → Found (r ∷ rs) seq dev (shift o)
Found-cons r rs seq dev no_match (absent e) = absent (simp no_match e)
Found-cons r rs seq dev no_match (present i s at m e) = present (suc i) s at m (simp no_match e)

pub find_match-Found :
    (rs : List PendingRequest) (seq dev : ℕ) → Found rs seq dev (find_match seq dev rs)
unfolding find_match
find_match-Found [] seq dev = absent refl
find_match-Found (r ∷ rs) seq dev = elim (Bool-cases (matches seq dev r)) [
  | inl m ↦ simp m (present 0 r refl m (simp m))
  | inr n ↦ simp n (Found-cons r rs seq dev n (find_match-Found rs seq dev))
]

-- At most one request waits under each key.
abbrev pub UniqueKeys : List PendingRequest → Type 0
UniqueKeys [] = Unit
UniqueKeys (r ∷ rs) = (r.valid ≡ true → first_match r.seq r.dev rs ≡ none) × UniqueKeys rs

UniqueKeys-replicate : (n : ℕ) → UniqueKeys (replicate n zero_request)
UniqueKeys-replicate zero = tt
UniqueKeys-replicate (suc n) = ((λ e. cc), UniqueKeys-replicate n)

pub request_tracker_init-UniqueKeys : UniqueKeys request_tracker_init.items
unfolding request_tracker_init
request_tracker_init-UniqueKeys = UniqueKeys-replicate request_tracker_max

-- Filling a slot that is not valid with a fresh key adds just that key.
first_match-set :
    (rs : List PendingRequest) (i : ℕ) (old new : PendingRequest) (seq dev : ℕ)
    → get_elem? rs i ≡ some old
    → old.valid ≡ false
    → new.valid ≡ true
    → first_match new.seq new.dev rs ≡ none
    → first_match seq dev (set rs i new)
      ≡ (if (new.seq == seq) && (new.dev == dev) then some new else first_match seq dev rs)
first_match-set [] i old new seq dev at unused v fresh = cc
first_match-set (r ∷ rs) zero old new seq dev at unused v fresh = ground arith
first_match-set (r ∷ rs) (suc i) old new seq dev at unused v fresh =
    ground (arith, first_match-set rs i old new seq dev)

first_match-at :
    (rs : List PendingRequest) (i : ℕ) (r : PendingRequest)
    → get_elem? rs i ≡ some r
    → r.valid ≡ true
    → first_match r.seq r.dev rs ≢ none
first_match-at [] i r at v = cc
first_match-at (s ∷ rs) zero r at v = ground arith
first_match-at (s ∷ rs) (suc i) r at v = ground (arith, first_match-at rs i r at v)

-- Emptying the slot of a key removes just that key, if no other slot has it.
first_match-clear :
    (rs : List PendingRequest) (i : ℕ) (old : PendingRequest) (seq dev : ℕ)
    → UniqueKeys rs
    → get_elem? rs i ≡ some old
    → old.valid ≡ true
    → first_match seq dev (set rs i zero_request)
      ≡ (if (old.seq == seq) && (old.dev == dev) then none else first_match seq dev rs)
first_match-clear [] i old seq dev u at v = cc
first_match-clear (r ∷ rs) zero old seq dev u at v = ground arith
first_match-clear (r ∷ rs) (suc i) old seq dev u at v =
    ground (arith, first_match-clear rs i old seq dev, first_match-at rs i old)

set-set :
    (rs : List PendingRequest) (i : ℕ) (a b : PendingRequest) → set (set rs i a) i b ≡ set rs i b
set-set [] i a b = refl
set-set (r ∷ rs) zero a b = refl
set-set (r ∷ rs) (suc i) a b = ap (◌∷◌ r) (set-set rs i a b)

UniqueKeys-set :
    (rs : List PendingRequest) (i : ℕ) (old new : PendingRequest)
    → get_elem? rs i ≡ some old
    → old.valid ≡ false
    → new.valid ≡ true
    → first_match new.seq new.dev rs ≡ none
    → UniqueKeys rs
    → UniqueKeys (set rs i new)
UniqueKeys-set [] i old new at unused v fresh u = tt
UniqueKeys-set (r ∷ rs) zero old new at unused v fresh u = ground arith
UniqueKeys-set (r ∷ rs) (suc i) old new at unused v fresh u =
    ground (arith, UniqueKeys-set rs i old new, first_match-set rs i old new r.seq r.dev)

first_match_cleared :
    (rs : List PendingRequest) (i seq dev : ℕ)
    → first_match seq dev rs ≡ none
    → first_match seq dev (set rs i zero_request) ≡ none
first_match_cleared [] i seq dev h = refl
first_match_cleared (r ∷ rs) zero seq dev h = ground arith
first_match_cleared (r ∷ rs) (suc i) seq dev h = ground (arith, first_match_cleared rs i seq dev)

UniqueKeys-clear :
    (rs : List PendingRequest) (i : ℕ) → UniqueKeys rs → UniqueKeys (set rs i zero_request)
UniqueKeys-clear [] i u = tt
UniqueKeys-clear (r ∷ rs) zero u = ground arith
UniqueKeys-clear (r ∷ rs) (suc i) u =
    ground (arith, UniqueKeys-clear rs i, first_match_cleared rs i r.seq r.dev)

-- What is written to the slot that was allocated.
data Written (t : RequestTracker) (new : PendingRequest) (w : RequestTracker) : Type 0 where
  written :
      (i : ℕ) (old : PendingRequest)
      → get_elem? t.items i ≡ some old
      → old.valid ≡ false
      → w.items ≡ set t.items i new
      → Written t new w

-- The result of an allocation, from the slot that the loop found.
abbrev taken : RequestTracker → Option ℕ → Option (ℕ × RequestTracker)
taken t none = none
taken t (some j) = some (j, record { items = set t.items j (record zero_request { valid = true }) })

alloc-taken : (t : RequestTracker) → taken t (find_free t.items) ≡ request_tracker_alloc t
unfolding request_tracker_alloc
alloc-taken t = go (find_free t.items) refl
  where
    go :
        (o : Option ℕ)
        → find_free t.items ≡ o
        → taken t (find_free t.items) ≡ request_tracker_alloc t
    go none e = rw (e, request_tracker_alloc) refl
    go (some j) e = rw (e, request_tracker_alloc) refl

alloc-Written :
    (t : RequestTracker) (new : PendingRequest) {i : ℕ} {t' : RequestTracker}
    → request_tracker_alloc t ≡ some (i, t')
    → Written t new (write_slot t' i new)
unfolding request_tracker_alloc
alloc-Written t new {i} {t'} h =
    from (find_free t.items) (find_free-FreeSlot t.items) (alloc-taken t ∙ h)
  where
    from :
        (o : Option ℕ)
        → FreeSlot t.items o
        → taken t o ≡ some (i, t')
        → Written t new (write_slot t' i new)
    from none (full a) e = cc
    from (some j) (free j' old at u le) e =
        written j old at u
          (grind (arith, set-set t.items j (record zero_request { valid = true }) new))

-- In a tracker with unique keys, a valid request under a fresh key is written to the slot that the
-- allocation gives: the table then has it under its key and is as before elsewhere, and the keys are
-- still unique.
pub lookup_request-alloc :
    (t : RequestTracker) (new : PendingRequest) {i : ℕ} {t' : RequestTracker}
    → request_tracker_alloc t ≡ some (i, t')
    → new.valid ≡ true
    → lookup_request t new.seq new.dev ≡ none
    → UniqueKeys t.items
    → ((seq dev : ℕ)
        → lookup_request (write_slot t' i new) seq dev
          ≡ (if (new.seq == seq) && (new.dev == dev) then some new else lookup_request t seq dev))
      × UniqueKeys (write_slot t' i new).items
unfolding lookup_request
lookup_request-alloc t new {i} {t'} h v fresh u =
    stored (write_slot t' i new) (alloc-Written t new h)
  where
    stored :
        (w : RequestTracker)
        → Written t new w
        → ((seq dev : ℕ)
            → lookup_request w seq dev ≡ (
                if (new.seq == seq) && (new.dev == dev)
                then some new
                else lookup_request t seq dev))
          × UniqueKeys w.items
    stored w (written j old at unused e) = (
      (λ seq dev.
          ap (first_match seq dev) e ∙ first_match-set t.items j old new seq dev at unused v fresh),
      rw e (UniqueKeys-set t.items j old new at unused v fresh u),
    )

-- In a tracker with unique keys, removing what is found under a key leaves a table that has nothing
-- under that key and is as before elsewhere, and the keys are still unique.
pub lookup_request-remove :
    (t : RequestTracker) (seq dev : ℕ)
    → UniqueKeys t.items
    → ((seq' dev' : ℕ)
        → lookup_request (request_tracker_remove t (request_tracker_find t seq dev)) seq' dev'
          ≡ (if (seq == seq') && (dev == dev') then none else lookup_request t seq' dev'))
      × UniqueKeys (request_tracker_remove t (request_tracker_find t seq dev)).items
unfolding lookup_request request_tracker_find request_tracker_remove
lookup_request-remove t seq dev u =
    removed (find_match seq dev t.items) (find_match-Found t.items seq dev)
  where
    removed :
        (o : Option ℕ)
        → Found t.items seq dev o
        → ((seq' dev' : ℕ)
            → lookup_request (request_tracker_remove t o) seq' dev'
              ≡ (if (seq == seq') && (dev == dev') then none else lookup_request t seq' dev'))
          × UniqueKeys (request_tracker_remove t o).items
    removed none (absent e) = ((λ seq' dev'. ground arith), u)
    removed (some i) (present j r at m e) = (
      (λ seq' dev'. ground (arith, first_match-clear t.items i r seq' dev' u at)),
      UniqueKeys-clear t.items i u,
    )
