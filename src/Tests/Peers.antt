-- ===== src/Tests/Peers.antt =====
-- nodes/pmc/src/main.c: the loop of the process module controller, on concrete inputs.
use equipment_control.Pmc.Routing.{put_conn}
use equipment_control.Protocol.Codec.Format.{line_format}
use equipment_control.Prelude.{ℕ, ◌≡◌, refl, true, false, none, some, List, [], ◌∷◌, codes}
use equipment_control.Protocol.Codec.Numbers.{digits_onto, print_unsigned, read_uint32}
use equipment_control.Protocol.Session.{session_feed, session_pop_line, session_init}
use equipment_control.Pmc.{pmc_conn_add, pmc_alarm_init, peer_eqd}
use equipment_control.Prelude.Int.{minus_one}
use equipment_control.Pmc.Lifetime.{aux_at_start}
use equipment_control.Pmc.Peer.{
  connect_to_eqd, greet, handle_connected_peer, new_connection, serve_lines, chunk, end_of_file,
}
use equipment_control.Pmc.Loop.{
  accept_all, accept_one, pmc_round, put_session, remove_client, serve_event, serve_events,
  serve_peer, session_of, settle_client, Environment, configure_aux, Accepted, incoming, readable,
  Wait, interrupted, wait_failed, ready, Process, Flow, pmc_start, pmc_rounds,
}
use equipment_control.Pmc.Loop.Kernel.{plausible}
use equipment_control.Pmc.Loop.Rounds.{IsReleased, pmc_rounds-IsReleased}
use equipment_control.Tests.{whole}
use equipment_control.Tests.Process.{whole_float, writes_all, port}

-- Only the older names are set, and PMC_AUX_BAUD is empty.
abbrev older : Environment
older = record {
  aux_port = none;
  aux_baud = some [];
  pico_port = some (codes "/dev/ttyACM0");
  pico_baud = some (codes "115200");
}

abbrev connected : Process
connected = record {
  served = record {
    state = record {
      conns =
          record {
            fd = 4;
            type = peer_eqd;
            registered = true;
            dev_id = minus_one;
            state = [];
            has_state = false;
          }
          ∷ [];
      alarm = pmc_alarm_init;
      aux = configure_aux read_uint32 older (aux_at_start port);
    };
    sent = (4, codes "REQ REGISTER seq=1\n") ∷ [];
  };
  clients = record { fd = 4; session = session_init } ∷ [];
}

is_connected :
    pmc_start whole whole_float writes_all read_uint32 older port (some 4) true ≡ some connected
unfolding pmc_start connect_to_eqd put_conn greet pmc_conn_add line_format new_connection
    print_unsigned digits_onto
is_connected = refl

abbrev accepted_at : ℕ → Accepted
accepted_at fd = record { fd = fd; nonblocking = true; allocated = true; polled = true }

-- A device registers and hangs up, its descriptor is given again, and then `epoll_wait` fails.
abbrev waits : List Wait
waits =
    ready
      (incoming (accepted_at 9 ∷ []) ∷ readable 9 (chunk (codes "EVT REGISTER dev=1\n") ∷ []) ∷ [])
    ∷ interrupted
    ∷ ready (readable 9 (end_of_file ∷ []) ∷ incoming (accepted_at 9 ∷ []) ∷ [])
    ∷ wait_failed
    ∷ []

waits-plausible : plausible whole whole_float writes_all waits connected ≡ true
unfolding plausible serve_event serve_peer session_of accept_all accept_one handle_connected_peer
    session_feed session_init serve_lines session_pop_line pmc_round serve_events settle_client
    put_session remove_client
waits-plausible = refl

pmc_rounds-IsReleased_example :
    (f : Flow) × (pmc_rounds whole whole_float writes_all waits connected ≡ some f)
    × IsReleased (3 ∷ []) f
pmc_rounds-IsReleased_example =
    pmc_rounds-IsReleased whole whole_float writes_all read_uint32 older port (some 4) true waits
      connected is_connected waits-plausible
