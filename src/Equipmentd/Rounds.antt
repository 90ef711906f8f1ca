-- ===== src/Equipmentd/Rounds.antt =====
-- services/equipmentd/src/main.c: the loop of `main` and `handle_accept_event`: many connections, whose
-- events come in any order. What the kernel does is given: the results of `epoll_wait`, of `accept` and the
-- calls after it, and of each `read`; with each event comes what `now_ms()` returns while it is handled.
pub mod Counts
pub mod Kernel
pub mod Controllers
pub mod Tracking
pub mod Attached
pub mod Heard
pub mod Turns
pub mod Interleaved
pub mod Main
use equipment_control.Prelude.{
  ℕ, ◌+◌, Bool, true, false, not, ◌&&◌, List, [], ◌∷◌, ◌++◌, Option, none, some, if◌then◌else◌, ltb,
  ◌==◌, Bytes, ◌>>=◌,
}
use equipment_control.Protocol.Double.{Double}
use equipment_control.Protocol.Session.{Session, session_init}
use equipment_control.Equipmentd.Connections.{scan_connection_timeout, ScanResult}
use equipment_control.Equipmentd.Server.{init_ctx}
use equipment_control.Equipmentd.Ticker.{after_events}
use equipment_control.Equipmentd.Clients.{
  Read, Ended, stays, hung_up, overflowed, freed, ServerState, accept_client, handle_client_event,
}

-- An open connection with its session.
pub record Client : Type 0 where
  pub fd : ℕ
  pub session : Session

abbrev pub count_open : ℕ → List Client → ℕ
count_open fd [] = 0
count_open fd (c ∷ rest) = (if c.fd == fd then 1 else 0) + count_open fd rest

abbrev pub is_open : ℕ → List Client → Bool
is_open fd clients = ltb 0 (count_open fd clients)

unfoldable pub session_of : ℕ → List Client → Option Session
session_of fd [] = none
session_of fd (c ∷ rest) = if c.fd == fd then some c.session else session_of fd rest

unfoldable pub put_session : ℕ → Session → List Client → List Client
put_session fd session [] = []
put_session fd session (c ∷ rest) =
    if c.fd == fd then record c { session = session } ∷ rest else c ∷ put_session fd session rest

unfoldable pub remove_client : ℕ → List Client → List Client
remove_client fd [] = []
remove_client fd (c ∷ rest) =
    let others = remove_client fd rest in if c.fd == fd then others else c ∷ others

unfoldable pub remove_clients : List ℕ → List Client → List Client
remove_clients [] clients = clients
remove_clients (fd ∷ fds) clients = remove_clients fds (remove_client fd clients)

-- A descriptor that `accept` gives, with which of the calls that follow succeed: `set_nonblocking`,
-- `malloc` and `epoll_ctl`.
pub record Accepted : Type 0 where
  pub fd : ℕ
  pub now : ℕ
  pub nonblocking : Bool
  pub allocated : Bool
  pub polled : Bool

-- An event on the listening socket, or on the connection at `fd`, handled at `now`.
pub data Event : Type 0 where
  incoming : List Accepted → Event
  readable : (fd now : ℕ) → List Read → Event

-- What `epoll_wait` gives, with the times at which the round ends.
pub data Wait : Type 0 where
  interrupted wait_failed : Wait
  ready : List Event → (end_ms scan_ms : ℕ) → Wait

-- The server with its open connections. `unnoticed` collects the descriptors that were closed with no
-- look at `pmc_fd` and `tmc_fd`.
pub record Process (D : Type 0) : Type 0 where
  pub server : ServerState D
  pub clients : List Client
  pub unnoticed : List ℕ

-- Whether the loop goes on, or was left.
pub data Flow (D : Type 0) : Type 0 where
  goes_on over : Process D → Flow D

module _ {D : Type 0} where
  unfoldable pub accept_one : Accepted → Process D → Process D
  accept_one a p =
      if a.nonblocking && a.allocated
      then record p {
        server = accept_client a.polled a.fd a.now p.server;
        clients =
            if a.polled
            then record { fd = a.fd; session = session_init } ∷ p.clients
            else p.clients;
      }
      else p

  -- The loop ends where `accept` fails, whatever the reason.
  unfoldable pub handle_accept_event : List Accepted → Process D → Process D
  handle_accept_event [] p = p
  handle_accept_event (a ∷ as') p = handle_accept_event as' (accept_one a p)

  -- What the end of the service means for the connection.
  unfoldable pub settle_client : ℕ → Ended → Process D → Process D
  settle_client fd (stays session) p = record p { clients = put_session fd session p.clients }
  settle_client fd hung_up p = record p { clients = remove_client fd p.clients }
  settle_client fd freed p = record p { clients = remove_client fd p.clients }
  settle_client fd overflowed p = record p {
    clients = remove_client fd p.clients;
    unnoticed = p.unnoticed ++ fd ∷ [];
  }

  unfoldable pub close_idle : ScanResult → Process D → Option (Process D)
  close_idle none p = none
  close_idle (some (kept, closed)) p = some (record p {
    server = record p.server { table = kept };
    clients = remove_clients closed p.clients;
    unnoticed = p.unnoticed ++ closed;
  })

  -- The process before the loop.
  unfoldable pub start : D → Process D
  start zero = record {
    server = record { ctx = init_ctx zero; table = []; sent = [] };
    clients = [];
    unnoticed = [];
  }

module _ {D : Type 0} (double : Double D) (can_write : ℕ → Bytes → Bool) where
  -- epoll knows no other connections than those that are open; an event of another is skipped.
  unfoldable pub serve_client : ℕ → ℕ → List Read → Process D → Option (Process D)
  serve_client fd now reads p = elim (session_of fd p.clients) [
    | none ↦ some p
    | some session ↦
        handle_client_event double can_write fd now reads session p.server >>= λ (ended, s).
        some (settle_client fd ended (record p { server = s }))
  ]

  unfoldable pub serve_event : Event → Process D → Option (Process D)
  serve_event (incoming accepted) p = some (handle_accept_event accepted p)
  serve_event (readable fd now reads) p = serve_client fd now reads p

  unfoldable pub serve_events : List Event → Process D → Option (Process D)
  serve_events [] p = some p
  serve_events (e ∷ es) p = serve_event e p >>= serve_events es

  -- The scheduler and the sweep at `end_ms`, and the scan of the connections at `scan_ms`.
  unfoldable pub end_round : ℕ → ℕ → Process D → Option (Process D)
  end_round end_ms scan_ms p =
      let (ctx, sent) = after_events double can_write end_ms p.server.ctx in
      close_idle (scan_connection_timeout p.server.table scan_ms)
        (record p { server = record p.server { ctx = ctx; sent = p.server.sent ++ sent } })

  -- One round of `while(1)`; `none` means that the fuel of a loop ran out.
  unfoldable pub server_round : Wait → Process D → Option (Flow D)
  server_round interrupted p = some (goes_on p)
  server_round wait_failed p = some (over p)
  server_round (ready events end_ms scan_ms) p =
      serve_events events p >>= λ q. end_round end_ms scan_ms q >>= λ r. some (goes_on r)

  unfoldable pub server_rounds : List Wait → Process D → Option (Flow D)
  server_rounds [] p = some (goes_on p)
  server_rounds (w ∷ ws) p = server_round w p >>= λ flow. elim flow [
    | over q ↦ some (over q)
    | goes_on q ↦ server_rounds ws q
  ]
