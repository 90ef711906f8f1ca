-- ===== src/Equipmentd/Connections.antt =====
-- services/equipmentd/src/connection_table.c: the table of the open connections, of which it uses the
-- descriptor and the time of the last read. The table is the list of its first `conn_count` entries.
-- A pointer in it is told from the others by its descriptor: those are open, so no two are the same.
pub mod Scan
use equipment_control.Prelude.{
  ℕ, suc, zero, ◌+◌, Bool, true, false, List, [], ◌∷◌, ◌++◌, Option, none, some, ◌==◌, ltb, length,
  if◌then◌else◌,
}

abbrev pub max_conn : ℕ
max_conn = 1024

abbrev pub conn_idle_timeout_ms : ℕ
conn_idle_timeout_ms = 60000

pub record Connection : Type 0 where
  pub fd : ℕ
  pub last_active_ms : ℕ

unfoldable pub register_connection : List Connection → Connection → List Connection
register_connection table conn = if ltb (length table) max_conn then table ++ conn ∷ [] else table

-- The entries after one that is overwritten by the last: the last comes first.
unfoldable pub last_first : List Connection → List Connection
last_first [] = []
last_first (c ∷ []) = c ∷ []
last_first (c ∷ d ∷ rest) = elim (last_first (d ∷ rest)) [
  | [] ↦ c ∷ []
  | last ∷ others ↦ last ∷ c ∷ others
]

unfoldable pub unregister_connection : List Connection → ℕ → List Connection
unfolding last_first
unregister_connection [] fd = []
unregister_connection (c ∷ rest) fd =
    if c.fd == fd then last_first rest else c ∷ unregister_connection rest fd

-- `now - last > timeout`, read as `last + timeout < now`.
abbrev pub is_idle : ℕ → Connection → Bool
is_idle now c = ltb (c.last_active_ms + conn_idle_timeout_ms) now

abbrev pub ScanResult : Type 0
ScanResult = Option (List Connection × List ℕ)

-- An entry that was closed, and one that stays.
abbrev pub close_one : Connection → ScanResult → ScanResult
close_one c none = none
close_one c (some (kept, closed)) = some (kept, c.fd ∷ closed)

abbrev pub keep_one : Connection → ScanResult → ScanResult
keep_one c none = none
keep_one c (some (kept, closed)) = some (c ∷ kept, closed)

-- The loop from an index on: the entries that stay, and the descriptors that were closed, in order.
-- `none` means that the fuel ran out. The entry at the index is the first with its pointer.
unfoldable pub scan_from : ℕ → ℕ → List Connection → ScanResult
unfolding last_first
scan_from fuel now [] = some ([], [])
scan_from zero now (c ∷ rest) = none
scan_from (suc fuel) now (c ∷ rest) = elim (is_idle now c) [
  | true ↦ close_one c (scan_from fuel now (last_first rest))
  | false ↦ keep_one c (scan_from fuel now rest)
]

unfoldable pub scan_connection_timeout : List Connection → ℕ → ScanResult
unfolding scan_from
scan_connection_timeout table now = scan_from (length table) now table
