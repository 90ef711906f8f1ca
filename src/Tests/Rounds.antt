-- ===== src/Tests/Rounds.antt =====
-- services/equipmentd/src/main.c: the loop of the server, on concrete inputs.
use equipment_control.Equipmentd.Ticker.{after_events}
use equipment_control.Equipmentd.Server.{handle_one_line, init_ctx}
use equipment_control.Protocol.Session.{session_feed, session_init, session_pop_line}
use equipment_control.Equipmentd.Connections.{
  register_connection, scan_connection_timeout, unregister_connection,
}
use equipment_control.Protocol.Codec.Parse.{apply_token, line_parse, parse_tokens}
use equipment_control.Protocol.Codec.Tokens.{rstrip_crlf, tokens}
use equipment_control.Protocol.Codec.Format.{line_format}
use equipment_control.Equipmentd.Scheduler.{is_done, is_idle_usable, is_state}
use equipment_control.Protocol.Codec.Numbers.{digits_onto, print_int, print_unsigned, read_uint32}
use equipment_control.Prelude.{
  c_string, ℕ, ◌≡◌, refl, Bool, true, List, [], ◌∷◌, some, Bytes, codes,
}
use equipment_control.Equipmentd.Clients.{
  accept_client, close_connection, handle_client_event, hang_up, serve_line, serve_lines, touch,
  chunk, end_of_file,
}
use equipment_control.Equipmentd.Rounds.{
  accept_one, close_idle, end_round, handle_accept_event, put_session, remove_client,
  remove_clients, serve_client, serve_event, serve_events, server_round, session_of, settle_client,
  Accepted, incoming, readable, Wait, interrupted, ready, Flow, start, server_rounds,
}
use equipment_control.Equipmentd.Rounds.Kernel.{plausible, process_of}
use equipment_control.Equipmentd.Rounds.Main.{Setup, Stage, main, Ending, main-Ending}
use equipment_control.Equipmentd.Rounds.Attached.{IsAttached, server_rounds-IsAttached}
use equipment_control.Tests.{whole}

abbrev all_write : ℕ → Bytes → Bool
all_write fd bytes = true

abbrev accepted_at : ℕ → Accepted
accepted_at fd = record { fd = fd; now = 10; nonblocking = true; allocated = true; polled = true }

-- A controller registers between the two parts of a client's request; then both go, and the descriptor of
-- the controller is given again.
abbrev waits : List Wait
waits =
    ready
      (incoming (accepted_at 5 ∷ accepted_at 6 ∷ [])
        ∷ readable 6 20 (chunk (codes "REQ PI") ∷ [])
        ∷ readable 5 20 (chunk (codes "REQ REGISTER seq=1\n") ∷ [])
        ∷ [])
      30 30
    ∷ interrupted
    ∷ ready (readable 6 40 (chunk (codes "NG seq=1\n") ∷ end_of_file ∷ []) ∷ []) 50 50
    ∷ ready (readable 5 60 (end_of_file ∷ []) ∷ incoming (accepted_at 5 ∷ []) ∷ []) 70 70
    ∷ []

waits-plausible : plausible whole all_write waits (start 0) ≡ true
unfolding plausible start accept_one serve_event serve_client session_of handle_accept_event
    handle_client_event session_feed session_init serve_lines session_pop_line settle_client
    put_session serve_line handle_one_line line_parse c_string parse_tokens tokens rstrip_crlf
    apply_token line_format print_unsigned digits_onto read_uint32 print_int server_round
    serve_events end_round close_idle scan_connection_timeout touch accept_client
    register_connection remove_clients after_events init_ctx is_state is_done is_idle_usable hang_up
    close_connection unregister_connection remove_client
waits-plausible = refl

-- Everything succeeds; the listening socket is 3, and epoll is 4.
abbrev setup : Setup
setup = record {
  made = some 3;
  bound = true;
  listens = true;
  flags_read = true;
  flags_set = true;
  epoll = some 4;
  added = true;
}

main-Ending_example : (s : Stage ℕ) × (main whole all_write setup waits ≡ some s) × Ending 0 setup s
main-Ending_example = main-Ending whole all_write setup waits waits-plausible

server_rounds-IsAttached_example :
    (f : Flow ℕ) × (server_rounds whole all_write waits (start 0) ≡ some f)
    × IsAttached (process_of f)
server_rounds-IsAttached_example = server_rounds-IsAttached whole all_write 0 waits waits-plausible
