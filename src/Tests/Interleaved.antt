-- ===== src/Tests/Interleaved.antt =====
-- services/equipmentd/src/main.c: one client among others, on a concrete input.
use mathlib.Core.List.{flatten}
use equipment_control.Prelude.{
  arith, ℕ, ◌≡◌, ◌≢◌, refl, Bool, true, none, List, [], ◌∷◌, ◌++◌, some, Bytes, codes,
}
use equipment_control.Protocol.Session.{session_feed, session_pop_line, session_init}
use equipment_control.Protocol.Session.Stream.{split_lines}
use equipment_control.Equipmentd.Clients.{handle_client_event, serve_lines, touch, chunk, Read}
use equipment_control.Equipmentd.Clients.Streams.{serve_all}
use equipment_control.Equipmentd.Server.{init_ctx}
use equipment_control.Equipmentd.Rounds.{
  put_session, serve_event, settle_client, Event, readable, Process, session_of, serve_events,
  serve_client,
}
use equipment_control.Equipmentd.Rounds.Turns.{settled, noted}
use equipment_control.Equipmentd.Rounds.Interleaved.{serve_client-interleaved}
use equipment_control.Tests.{whole}

abbrev all_write : ℕ → Bytes → Bool
all_write fd bytes = true

-- Two clients, at 6 and 7.
abbrev both : Process ℕ
both = record {
  server = record { ctx = init_ctx 0; table = []; sent = [] };
  clients =
      record { fd = 6; session = session_init } ∷ record { fd = 7; session = session_init } ∷ [];
  unnoticed = [];
}

abbrev parts : List Event
parts =
    readable 6 20 (chunk (codes "REQ PI") ∷ []) ∷ readable 7 20 (chunk (codes "REQ ST") ∷ []) ∷ []

abbrev later : Process ℕ
later = record {
  server = record { ctx = init_ctx 0; table = []; sent = [] };
  clients =
      record { fd = 6; session = record { buf = codes "REQ PI" } }
      ∷ record { fd = 7; session = record { buf = codes "REQ ST" } }
      ∷ [];
  unnoticed = [];
}

abbrev ending : List Read
ending = chunk (codes "NG seq=1\nRE") ∷ []

both-later : serve_events whole all_write parts both ≡ some later
unfolding serve_events serve_event serve_client handle_client_event session_feed session_init
    serve_lines session_pop_line settle_client put_session touch session_of
both-later = refl

later-there : session_of 6 later.clients ≢ none
unfolding session_of
later-there = cc

serve_client-interleaved_example :
    (split_lines (codes "REQ PI" ++ codes "NG seq=1\nRE")
      ≡ (codes "REQ PING seq=1\n" ∷ [], codes "RE"))
    × (serve_client whole all_write 6 30 ending later
        ≡ some (
            settled whole all_write 6
              (record { buf = codes "RE" })
              (serve_all whole all_write 6 30
                (codes "REQ PING seq=1\n" ∷ [])
                (noted whole all_write 6 30 (codes "NG seq=1\nRE" ∷ []) later.server))
              later))
unfolding split_lines session_of flatten
serve_client-interleaved_example =
    serve_client-interleaved whole all_write 6 30 parts ending both later refl
      ((λ e. (omega arith, tt)), ((λ e. (omega arith, tt)), tt)) (omega arith, tt)
      (record { lines_short = (omega arith, tt); rest_short = omega arith }) both-later later-there
