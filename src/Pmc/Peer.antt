-- ===== src/Pmc/Peer.antt =====
-- nodes/pmc/src/main.c: `handle_connected_peer`, `close_connection` and `connect_to_eqd`. The session of a
-- connection, which only `handle_connected_peer` uses, is kept beside the rest of it.
-- What the kernel does is given: the results of `read`, of the calls that make a connection, and which
-- writes succeed. The registration with epoll is not modelled beyond its result.
pub mod Stream
pub mod Descriptors
use equipment_control.Prelude.{
  ℕ, zero, suc, ◌+◌, Bool, true, false, not, ◌&&◌, List, [], ◌∷◌, ◌++◌, Option, none, some,
  if◌then◌else◌, Bytes, ◌==◌, length, ◌>>=◌,
}
use equipment_control.Prelude.Int.{minus_one}
use equipment_control.Protocol.Double.{Double}
use equipment_control.Protocol.Message.{Role, MsgType, type_eq, Message, zero_message}
use equipment_control.Protocol.Session.{
  Session, session_init, session_feed, session_pop_line, Popped, line, no_line, too_long,
}
use equipment_control.Protocol.Codec.Parse.{line_parse}
use equipment_control.Protocol.Codec.Format.{line_format}
use equipment_control.Pmc.{
  PmcConnection, peer_unknown, peer_eqd, pmc_conn_add, pmc_conn_remove, pmc_handle_register,
}
use equipment_control.Pmc.Snapshot.{Float}
use equipment_control.Pmc.Messages.{Sent}
use equipment_control.Pmc.Routing.{PmcState, Outcome, put_conn, pmc_route_message}

abbrev pub buf_size : ℕ
buf_size = 1024

-- A result of `read` that is not "try again".
pub data Read : Type 0 where
  chunk : Bytes → Read
  end_of_file broken : Read

-- The state of the process, with what was sent so far.
pub record Served : Type 0 where
  pub state : PmcState
  pub sent : Sent

unfoldable pub conn_at : ℕ → List PmcConnection → Option PmcConnection
conn_at fd [] = none
conn_at fd (c ∷ rest) = if c.fd == fd then some c else conn_at fd rest

unfoldable pub close_connection : ℕ → PmcState → PmcState
close_connection fd state = record state { conns = pmc_conn_remove fd state.conns }

-- A connection that `accept` or `connect_tcp` gave.
unfoldable pub new_connection : ℕ → PmcConnection
new_connection fd = record {
  fd = fd;
  type = peer_unknown;
  registered = false;
  dev_id = minus_one;
  state = [];
  has_state = false;
}

-- The loop body of `main` for an accepted descriptor, if it is made non-blocking and `malloc` succeeds:
-- `polled` says whether epoll takes it.
unfoldable pub accept_peer : Bool → ℕ → PmcState → PmcState
accept_peer polled fd state =
    let added : PmcState = record state { conns = pmc_conn_add (new_connection fd) state.conns } in
    if polled then added else close_connection fd added

module _ {D : Type 0} (double : Double D) (can_write : ℕ → Bytes → Bool) where
  open double use {zero_double}

  abbrev registration : Message D
  registration = record (zero_message zero_double) {
    role = Role.req;
    type = MsgType.register;
    seq = 1;
    has_seq = true;
  }

  -- A REGISTER is written, whether or not that succeeds.
  unfoldable pub greet : ℕ → Sent
  greet fd = elim (line_format double registration 256) [
    | none ↦ []
    | some bytes ↦ if can_write fd bytes then (fd, bytes) ∷ [] else []
  ]

  -- `fd` is the descriptor that `connect_tcp` made and `set_nonblocking` set, if both succeeded. The
  -- result is whether the connection was made.
  unfoldable pub connect_to_eqd : Option ℕ → Bool → PmcState → Bool × Served
  connect_to_eqd none polled state = (false, record { state = state; sent = [] })
  connect_to_eqd (some fd) polled state =
      let added = pmc_conn_add (new_connection fd) state.conns in
      if not polled
      then (false, record { state = record state { conns = pmc_conn_remove fd added }; sent = [] })
      else (
        true,
        record {
          state = record state {
            conns =
                put_conn
                  (record (new_connection fd) {
                    type = peer_eqd;
                    registered = true;
                    dev_id = minus_one;
                  })
                  added;
          };
          sent = greet fd;
        },
      )

module _ {D F : Type 0} (double : Double D) (float : Float F) (can_write : ℕ → Bytes → Bool) where
  -- A message that was parsed, from a connection.
  unfoldable pub handle_message : PmcConnection → Message D → PmcState → Served
  handle_message conn m state =
      if not conn.registered
      then (elim (pmc_handle_register conn m) [
        | none ↦ record { state = state; sent = [] }
        | some registered ↦ record {
          state = record state { conns = put_conn registered state.conns };
          sent = [];
        }
      ])
      else if type_eq m.type MsgType.register
      then record { state = state; sent = [] }
      else (let o = pmc_route_message double float can_write conn m state in
          record { state = o.state; sent = o.sent })

  -- A line from the connection at `fd`; one that is not understood is skipped.
  unfoldable pub handle_line : ℕ → Bytes → PmcState → Served
  handle_line fd l state = elim (line_parse double l) [
    | none ↦ record { state = state; sent = [] }
    | some m ↦ elim (conn_at fd state.conns) [
      | none ↦ record { state = state; sent = [] }
      | some conn ↦ handle_message conn m state
    ]
  ]

  -- The same after what was sent before.
  unfoldable pub then_line : ℕ → Bytes → Served → Served
  then_line fd l s =
      let next = handle_line fd l s.state in
      record { state = next.state; sent = s.sent ++ next.sent }

  -- The loop over the lines that are complete; `none` means that the fuel ran out.
  unfoldable pub serve_lines : ℕ → ℕ → Session → Served → Option (Session × Served)
  serve_lines zero fd session s = none
  serve_lines (suc fuel) fd session s = elim (session_pop_line session buf_size) [
    | line l rest ↦ serve_lines fuel fd rest (then_line fd l s)
    | no_line ↦ some (session, s)
    | too_long ↦ some (session, s)
  ]

  abbrev pub closed : ℕ → Served → Option Session × Served
  closed fd s = (none, record s { state = close_connection fd s.state })

  -- The loop over `read`, until it says "try again", where `reads` ends. The session is gone when the
  -- connection is closed.
  unfoldable pub handle_connected_peer :
      ℕ → List Read → Session → Served → Option (Option Session × Served)
  handle_connected_peer fd [] session s = some (some session, s)
  handle_connected_peer fd (end_of_file ∷ reads) session s = some (closed fd s)
  handle_connected_peer fd (broken ∷ reads) session s = some (closed fd s)
  handle_connected_peer fd (chunk bytes ∷ reads) session s = elim (session_feed session bytes) [
    | none ↦ some (closed fd s)
    | some fed ↦ serve_lines (suc (length fed.buf)) fd fed s >>= λ (rest, served).
        handle_connected_peer fd reads rest served
  ]
