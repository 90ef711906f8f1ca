-- ===== src/Tests/Clients.antt =====
-- services/equipmentd/src/main.c: the service of a client, on concrete inputs.
use equipment_control.Prelude.{arith, ℕ, ◌≡◌, Bool, true, List, [], ◌∷◌, some, Bytes, codes, map}
use equipment_control.Protocol.Session.{session_init}
use equipment_control.Protocol.Session.Stream.{split_lines}
use equipment_control.Equipmentd.Server.{init_ctx}
use equipment_control.Equipmentd.Clients.{
  chunk, end_of_file, Ended, ServerState, handle_client_event,
}
use equipment_control.Equipmentd.Clients.Streams.{
  handle_client_event-lines, serve_all, finish, touched,
}
use equipment_control.Equipmentd.Clients.Endings.{handle_client_event_total, EndsWell}
use equipment_control.Tests.{whole}
use mathlib.Core.List.{flatten}

abbrev all_write : ℕ → Bytes → Bool
all_write fd bytes = true

-- A client at descriptor 9.
abbrev started : ServerState ℕ
started = record { ctx = init_ctx 0; table = record { fd = 9; last_active_ms = 0 } ∷ []; sent = [] }

abbrev pings : List Bytes
pings = codes "NG seq=1\nREQ PI" ∷ codes "NG seq=2\nREQ" ∷ []

handle_client_event-lines_example :
    handle_client_event whole all_write 9 100
      (map chunk (codes "REQ PI" ∷ pings))
      session_init
      started
    ≡ some (
        finish
          (record { buf = codes "REQ" })
          (serve_all whole all_write 9 100
            (codes "REQ PING seq=1\n" ∷ codes "REQ PING seq=2\n" ∷ [])
            (touched 9 100 started)))
unfolding split_lines flatten
handle_client_event-lines_example =
    handle_client_event-lines whole all_write 9 100 (codes "REQ PI") pings started
      (omega arith, (omega arith, (omega arith, tt)))
      (record { lines_short = (omega arith, (omega arith, tt)); rest_short = omega arith })

handle_client_event_total_example :
    (r : Ended × ServerState ℕ) × (handle_client_event whole all_write 9 100
        (chunk (codes "REQ PING seq=1\n") ∷ end_of_file ∷ [])
        session_init
        started
      ≡ some r)
    × EndsWell 9 (record { fd = 9; last_active_ms = 0 } ∷ []) r.0 r.1
handle_client_event_total_example =
    handle_client_event_total whole all_write 9 100
      (chunk (codes "REQ PING seq=1\n") ∷ end_of_file ∷ []) session_init started
