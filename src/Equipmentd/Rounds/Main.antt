-- ===== src/Equipmentd/Rounds/Main.antt =====
-- services/equipmentd/src/main.c: `make_server`, `set_nonblocking` and the whole of `main`, with the
-- descriptors that it opens. What the kernel answers to each call is given.
use equipment_control.Equipmentd.Rounds.Tracking.{server_rounds-IsTracked, IsTracked}
use equipment_control.Equipmentd.Rounds.Kernel.{process_of, plausible}
use equipment_control.Prelude.{
  ◌∙◌, ap, ◌⊎◌, ℕ, ◌≡◌, refl, Bool, true, false, List, [], ◌∷◌, none, some, Option, ◌>>=◌, ◌&&◌,
  if◌then◌else◌, Bytes, inl, inr,
}
use equipment_control.Protocol.Double.{Double}
use equipment_control.Equipmentd.Rounds.{Process, Wait, Flow, goes_on, over, start, server_rounds}

-- The results of `socket`, `bind`, `listen`, of `fcntl` with F_GETFL and F_SETFL, of `epoll_create1` and
-- of `epoll_ctl` for the listening socket.
pub record Setup : Type 0 where
  pub made : Option ℕ
  pub bound : Bool
  pub listens : Bool
  pub flags_read : Bool
  pub flags_set : Bool
  pub epoll : Option ℕ
  pub added : Bool

-- A result, and the descriptors that are open with it.
pub record Opened (A : Type 0) : Type 0 where
  pub result : Option A
  pub held : List ℕ

unfoldable pub make_server : Setup → Opened ℕ
make_server k = elim k.made [
  | none ↦ record { result = none; held = [] }
  | some fd ↦ record { result = if k.bound && k.listens then some fd else none; held = fd ∷ [] }
]

unfoldable pub set_nonblocking : Setup → Bool
set_nonblocking k = k.flags_read && k.flags_set

-- The epoll descriptor, with the listening socket `sfd` in it.
unfoldable pub watch : ℕ → Setup → Opened (ℕ × ℕ)
watch sfd k = elim k.epoll [
  | none ↦ record { result = none; held = [] }
  | some epfd ↦
      if k.added
      then record { result = some (sfd, epfd); held = epfd ∷ sfd ∷ [] }
      else record { result = none; held = [] }
]

-- `main` before its loop; no result stands for the exit with status 1.
unfoldable pub prepare : Setup → Opened (ℕ × ℕ)
prepare k =
    let server = make_server k in
    elim server.result [
      | none ↦ record { result = none; held = server.held }
      | some sfd ↦ if set_nonblocking k then watch sfd k else record { result = none; held = [] }
    ]

-- How far `main` has come: it has returned `status` with these descriptors left open, or it waits in its
-- loop, which holds them.
pub data Stage (D : Type 0) : Type 0 where
  exited : (status : ℕ) → (held : List ℕ) → (process : Process D) → Stage D
  looping : (held : List ℕ) → (process : Process D) → Stage D

-- The end of the loop closes both descriptors.
unfoldable pub leave_loop : {D : Type 0} → List ℕ → Flow D → Stage D
leave_loop held (over p) = exited 0 [] p
leave_loop held (goes_on p) = looping held p

unfoldable pub run_prepared :
    {D : Type 0} (double : Double D) (can_write : ℕ → Bytes → Bool)
    → Opened (ℕ × ℕ)
    → List Wait
    → Option (Stage D)
run_prepared double can_write prepared ws =
    let before = start double.zero_double in
    elim prepared.result [
      | none ↦ some (exited 1 prepared.held before)
      | some fds ↦
          server_rounds double can_write ws before >>= λ flow. some (leave_loop prepared.held flow)
    ]

unfoldable pub main :
    {D : Type 0} (double : Double D) (can_write : ℕ → Bytes → Bool)
    → Setup
    → List Wait
    → Option (Stage D)
main double can_write k ws = run_prepared double can_write (prepare k) ws

-- Every call that prepares the loop succeeds.
pub record IsReady (k : Setup) (sfd epfd : ℕ) : Type 0 where
  pub made : k.made ≡ some sfd
  pub bound : k.bound ≡ true
  pub listens : k.listens ≡ true
  pub flags_read : k.flags_read ≡ true
  pub flags_set : k.flags_set ≡ true
  pub epoll : k.epoll ≡ some epfd
  pub added : k.added ≡ true

-- The socket is left open where it cannot be bound, or does not listen.
pub left_open : Setup → List ℕ
left_open k = elim k.made [ none ↦ [] | some fd ↦ if k.bound && k.listens then [] else fd ∷ [] ]

abbrev IsRefused : Setup → Type 0
IsRefused k = (sfd epfd : ℕ) → ¬ IsReady k sfd epfd

-- What is ready, and what is open.
abbrev Prepared : Setup → Opened (ℕ × ℕ) → Type 0
Prepared k o =
    ((sfd : ℕ) × (epfd : ℕ) × IsReady k sfd epfd
      × (o ≡ record { result = some (sfd, epfd); held = epfd ∷ sfd ∷ [] }))
    ⊎ (IsRefused k × (o ≡ record { result = none; held = left_open k }))

prepare_of_answers :
    (made epoll : Option ℕ) (bound listens flags_read flags_set added : Bool)
    → let k : Setup = record {
      made = made;
      bound = bound;
      listens = listens;
      flags_read = flags_read;
      flags_set = flags_set;
      epoll = epoll;
      added = added;
    } in
      Prepared k (prepare k)
unfolding prepare make_server set_nonblocking watch left_open
prepare_of_answers none epoll b l r s a = inr (λ _ _ h. let wrong = h.made in cc, refl)
prepare_of_answers (some fd) epoll false l r s a = inr (λ _ _ h. let wrong = h.bound in cc, refl)
prepare_of_answers (some fd) epoll true false r s a =
    inr (λ _ _ h. let wrong = h.listens in cc, refl)
prepare_of_answers (some fd) epoll true true false s a =
    inr (λ _ _ h. let wrong = h.flags_read in cc, refl)
prepare_of_answers (some fd) epoll true true true false a =
    inr (λ _ _ h. let wrong = h.flags_set in cc, refl)
prepare_of_answers (some fd) none true true true true a =
    inr (λ _ _ h. let wrong = h.epoll in cc, refl)
prepare_of_answers (some fd) (some e) true true true true false =
    inr (λ _ _ h. let wrong = h.added in cc, refl)
prepare_of_answers (some fd) (some e) true true true true true = inl (
  fd,
  e,
  record {
    made = refl;
    bound = refl;
    listens = refl;
    flags_read = refl;
    flags_set = refl;
    epoll = refl;
    added = refl;
  },
  refl,
)

prepare-Prepared : (k : Setup) → Prepared k (prepare k)
prepare-Prepared k =
    prepare_of_answers k.made k.epoll k.bound k.listens k.flags_read k.flags_set k.added

-- How far the process has come, with its descriptors and its connections.
pub data Ending {D : Type 0} (zero : D) (k : Setup) : Stage D → Type 0 where
  refused : IsRefused k → Ending zero k (exited 1 (left_open k) (start zero))
  ended :
      {sfd epfd : ℕ} {p : Process D}
      → IsReady k sfd epfd
      → IsTracked p
      → Ending zero k (exited 0 [] p)
  in_loop :
      {sfd epfd : ℕ} {p : Process D}
      → IsReady k sfd epfd
      → IsTracked p
      → Ending zero k (looping (epfd ∷ sfd ∷ []) p)

module _ {D : Type 0} (double : Double D) (can_write : ℕ → Bytes → Bool) where
  leave_loop-Ending :
      (k : Setup) (sfd epfd : ℕ)
      → IsReady k sfd epfd
      → (f : Flow D) → IsTracked (process_of f)
      → Ending double.zero_double k (leave_loop (epfd ∷ sfd ∷ []) f)
  unfolding leave_loop
  leave_loop-Ending k sfd epfd r (over p) t = ended r t
  leave_loop-Ending k sfd epfd r (goes_on p) t = in_loop r t

  -- `main` never gets stuck, whatever the calls that prepare its loop give and whatever the clients do, as
  -- long as the kernel gives no descriptor that is open. It returns 1, with nothing served, exactly when
  -- one of those calls fails, and then only a socket that could not be bound or does not listen is left
  -- open. Else it waits in its loop with both descriptors open, or has left it, returned 0 and closed
  -- both; the descriptors of its connections are distinct, and the table holds only open connections, each
  -- at most once.
  pub main-Ending :
      (k : Setup) (ws : List Wait)
      → plausible double can_write ws (start double.zero_double) ≡ true
      → (s : Stage D) × (main double can_write k ws ≡ some s) × Ending double.zero_double k s
  unfolding main run_prepared
  main-Ending k ws h = elim (prepare-Prepared k) [
    | inl (sfd, epfd, is_ready, o) ↦
        let (f, runs, tracked) = server_rounds-IsTracked double can_write double.zero_double ws h in
        (
          leave_loop (epfd ∷ sfd ∷ []) f,
          ap (λ prepared. run_prepared double can_write prepared ws) o ∙ rw runs refl,
          leave_loop-Ending k sfd epfd is_ready f tracked,
        )
    | inr (failed, o) ↦ (
      exited 1 (left_open k) (start double.zero_double),
      ap (λ prepared. run_prepared double can_write prepared ws) o,
      refused failed,
    )
  ]
