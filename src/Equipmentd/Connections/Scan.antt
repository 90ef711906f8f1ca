-- ===== src/Equipmentd/Connections/Scan.antt =====
-- services/equipmentd/src/connection_table.c: the scan for idle connections.
use equipment_control.Equipmentd.Connections.{
  ScanResult, close_one, keep_one, is_idle, scan_from, scan_connection_timeout, last_first,
  Connection,
}
use equipment_control.Prelude.{
  ltb, ap, inr, inl, ℕ, suc, zero, ◌+◌, ◌≤◌, ◌≡◌, refl, Bool, true, false, not, ◌&&◌, List, [], ◌∷◌,
  some, ◌==◌, length, if◌then◌else◌, arith, Bool-cases,
}

-- How many entries satisfy a test.
abbrev pub count_if : {A : Type 0} → (A → Bool) → List A → ℕ
count_if test [] = 0
count_if test (x ∷ xs) = (if test x then 1 else 0) + count_if test xs

-- An entry that was last read from more than 60000 ms before `now`.
abbrev pub is_old : ℕ → Connection → Bool
is_old now c = ltb (c.last_active_ms + 60000) now

-- How often a descriptor was closed.
abbrev pub count_closed : ℕ → List ℕ → ℕ
count_closed fd closed = count_if (λ c. c == fd) closed

count_if-last_first :
    (test : Connection → Bool) (cs : List Connection)
    → count_if test (last_first cs) ≡ count_if test cs
unfolding last_first
count_if-last_first test [] = refl
count_if-last_first test (c ∷ []) = refl
count_if-last_first test (c ∷ d ∷ rest) = ground (arith, count_if-last_first test (d ∷ rest))

length-last_first : (cs : List Connection) → length (last_first cs) ≡ length cs
unfolding last_first
length-last_first [] = refl
length-last_first (c ∷ []) = refl
length-last_first (c ∷ d ∷ rest) = ground (arith, length-last_first (d ∷ rest))

-- What the scan leaves: `kept` has the entries of the table that are not old, as they were, and `closed`
-- the descriptors of those that are, each as often as in the table.
pub data Scanned (now : ℕ) (table : List Connection) (r : ScanResult) : Type 0 where
  scanned :
      (kept : List Connection) (closed : List ℕ)
      → r ≡ some (kept, closed)
      → ((test : Connection → Bool)
          → count_if test kept ≡ count_if (λ c. test c && not (is_old now c)) table)
      → ((test : ℕ → Bool) → count_if test closed ≡ count_if (λ c. test c.fd && is_old now c) table)
      → Scanned now table r

close_one-Scanned :
    (now : ℕ) (c : Connection) (rest : List Connection) {o : ScanResult}
    → is_old now c ≡ true
    → Scanned now (last_first rest) o
    → Scanned now (c ∷ rest) (close_one c o)
close_one-Scanned now c rest i (scanned kept closed e k l) =
    scanned kept (c.fd ∷ closed) (ap (close_one c) e)
      (λ test. ground (arith, k test, count_if-last_first (λ c. test c && not (is_old now c)) rest))
      (λ test. ground (arith, l test, count_if-last_first (λ c. test c.fd && is_old now c) rest))

keep_one-Scanned :
    (now : ℕ) (c : Connection) (rest : List Connection) {o : ScanResult}
    → is_old now c ≡ false
    → Scanned now rest o
    → Scanned now (c ∷ rest) (keep_one c o)
keep_one-Scanned now c rest i (scanned kept closed e k l) =
    scanned (c ∷ kept) closed (ap (keep_one c) e) (λ test. ground (arith, k test))
      (λ test. ground (arith, l test))

scan_from-Scanned :
    (fuel now : ℕ) (cs : List Connection)
    → length cs ≤ fuel
    → Scanned now cs (scan_from fuel now cs)
unfolding scan_from
scan_from-Scanned fuel now [] h = scanned [] [] refl (λ test. refl) (λ test. refl)
scan_from-Scanned zero now (c ∷ rest) h = ground arith
scan_from-Scanned (suc fuel) now (c ∷ rest) h = elim (Bool-cases (is_idle now c)) [
  | inl i ↦
      rw (scan_from, i)
        (close_one-Scanned now c rest i
          (scan_from-Scanned fuel now (last_first rest) (omega (arith, length-last_first rest))))
  | inr i ↦
      rw (scan_from, i)
        (keep_one-Scanned now c rest i (scan_from-Scanned fuel now rest (omega arith)))
]

-- The scan ends; it keeps, as they were and each as often as before, exactly the entries of the table that
-- were read from within the last 60000 ms, and closes exactly the descriptors of the others, each as
-- often as it was in the table.
pub scan_connection_timeout-Scanned :
    (table : List Connection) (now : ℕ) → Scanned now table (scan_connection_timeout table now)
unfolding scan_connection_timeout
scan_connection_timeout-Scanned table now = scan_from-Scanned (length table) now table (omega arith)
