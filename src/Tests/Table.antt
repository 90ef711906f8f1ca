-- ===== src/Tests/Table.antt =====
-- The table of connections on a concrete input.
use equipment_control.Equipmentd.Connections.Scan.{scan_connection_timeout-Scanned, Scanned}
use equipment_control.Equipmentd.Connections.{
  last_first, scan_from, scan_connection_timeout, Connection,
}
use equipment_control.Prelude.{◌≡◌, refl, some, List, [], ◌∷◌}

-- Two of the three connections are idle at 70000.
abbrev table : List Connection
table =
    record { fd = 7; last_active_ms = 100 }
    ∷ record { fd = 8; last_active_ms = 69000 }
    ∷ record { fd = 9; last_active_ms = 200 }
    ∷ []

scan_table :
    scan_connection_timeout table 70000
    ≡ some (record { fd = 8; last_active_ms = 69000 } ∷ [], 7 ∷ 9 ∷ [])
unfolding scan_connection_timeout scan_from last_first
scan_table = refl

scan_connection_timeout-Scanned_example : Scanned 70000 table (scan_connection_timeout table 70000)
scan_connection_timeout-Scanned_example = scan_connection_timeout-Scanned table 70000
