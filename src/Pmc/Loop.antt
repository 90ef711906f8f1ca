-- ===== src/Pmc/Loop.antt =====
-- nodes/pmc/src/main.c: `main` of the process module controller, once the listening socket is made: the
-- settings of the auxiliary device, the connection to the equipment server, and the loop over the events of
-- all peers. What `getenv`, `atoi`, `epoll_wait`, `accept` and `read` give is given.
pub mod Auxiliary
pub mod Listed
pub mod Kernel
pub mod Rounds
use equipment_control.Prelude.{
  ℕ, ◌+◌, Bool, true, false, not, ◌&&◌, List, [], ◌∷◌, Option, none, some, if◌then◌else◌, ltb, ◌==◌,
  Bytes, ◌>>=◌,
}
use equipment_control.Protocol.Double.{Double}
use equipment_control.Protocol.Session.{Session, session_init}
use equipment_control.Pmc.{pmc_alarm_init}
use equipment_control.Pmc.Serial.{Port}
use equipment_control.Pmc.Auxiliary.{AuxState, pmc_io_uart_aux_configure, pmc_io_uart_aux_shutdown}
use equipment_control.Pmc.Lifetime.{aux_at_start}
use equipment_control.Pmc.Snapshot.{Float}
use equipment_control.Pmc.Routing.{PmcState}
use equipment_control.Pmc.Peer.{Read, Served, accept_peer, connect_to_eqd, handle_connected_peer}

-- What `getenv` gives for PMC_AUX_PORT, PMC_AUX_BAUD, PMC_PICO_PORT and PMC_PICO_BAUD.
pub record Environment : Type 0 where
  pub aux_port : Option Bytes
  pub aux_baud : Option Bytes
  pub pico_port : Option Bytes
  pub pico_baud : Option Bytes

-- The value, if it is set and not empty.
abbrev pub non_empty : Option Bytes → Option Bytes
non_empty none = none
non_empty (some []) = none
non_empty (some (c ∷ cs)) = some (c ∷ cs)

-- `if(!value || !value[0]) value = other`, and whether what comes of it is set and not empty.
abbrev pub or_older : Option Bytes → Option Bytes → Option Bytes
or_older value other = elim (non_empty value) [ none ↦ non_empty other | some v ↦ some v ]

-- The rate, where `atoi` is what that function gives; a negative rate, which no speed has, stands as 0.
unfoldable pub rate_of : (Bytes → ℕ) → Option Bytes → ℕ
rate_of atoi none = 115200
rate_of atoi (some text) = atoi text

-- The block of `main` that configures the auxiliary device; whether it could be opened is only logged.
unfoldable pub configure_aux : (Bytes → ℕ) → Environment → AuxState → AuxState
configure_aux atoi env aux = elim (or_older env.aux_port env.pico_port) [
  | none ↦ aux
  | some path ↦
      (pmc_io_uart_aux_configure path (rate_of atoi (or_older env.aux_baud env.pico_baud)) aux).1
]

-- An open connection with its session.
pub record Client : Type 0 where
  pub fd : ℕ
  pub session : Session

abbrev pub count_open : ℕ → List Client → ℕ
count_open fd [] = 0
count_open fd (c ∷ rest) = (if c.fd == fd then 1 else 0) + count_open fd rest

unfoldable pub session_of : ℕ → List Client → Option Session
session_of fd [] = none
session_of fd (c ∷ rest) = if c.fd == fd then some c.session else session_of fd rest

unfoldable pub put_session : ℕ → Session → List Client → List Client
put_session fd session [] = []
put_session fd session (c ∷ rest) =
    if c.fd == fd then record c { session = session } ∷ rest else c ∷ put_session fd session rest

unfoldable pub remove_client : ℕ → List Client → List Client
remove_client fd [] = []
remove_client fd (c ∷ rest) =
    let others = remove_client fd rest in if c.fd == fd then rest else c ∷ others

-- A descriptor that `accept` gives, with which of the calls that follow succeed: `set_nonblocking`,
-- `malloc` and `add_epoll_connection`.
pub record Accepted : Type 0 where
  pub fd : ℕ
  pub nonblocking : Bool
  pub allocated : Bool
  pub polled : Bool

-- An event on the listening socket, or on the connection at `fd`.
pub data Event : Type 0 where
  incoming : List Accepted → Event
  readable : ℕ → List Read → Event

-- What `epoll_wait` gives.
pub data Wait : Type 0 where
  interrupted wait_failed : Wait
  ready : List Event → Wait

pub record Process : Type 0 where
  pub served : Served
  pub clients : List Client

-- Whether the loop goes on, or was left and the device was shut down.
pub data Flow : Type 0 where
  goes_on over : Process → Flow

abbrev pub with_state : PmcState → Process → Process
with_state state p = record p { served = record p.served { state = state } }

unfoldable pub accept_one : Accepted → Process → Process
accept_one a p =
    if a.nonblocking && a.allocated
    then record (with_state (accept_peer a.polled a.fd p.served.state) p) {
      clients =
          if a.polled then record { fd = a.fd; session = session_init } ∷ p.clients else p.clients;
    }
    else p

-- The loop over `accept`, which ends where it fails, whatever the reason.
unfoldable pub accept_all : List Accepted → Process → Process
accept_all [] p = p
accept_all (a ∷ rest) p = accept_all rest (accept_one a p)

-- The session that is left, or the end of the connection.
unfoldable pub settle_client : ℕ → Option Session → Process → Process
settle_client fd none p = record p { clients = remove_client fd p.clients }
settle_client fd (some session) p = record p { clients = put_session fd session p.clients }

unfoldable pub shut_down : Process → Process
shut_down p =
    with_state (record p.served.state { aux = pmc_io_uart_aux_shutdown p.served.state.aux }) p

module _ {D F : Type 0} (double : Double D) (float : Float F) (can_write : ℕ → Bytes → Bool) where
  -- What comes before the loop: `eqd` is the descriptor of the connection to the equipment server, if it
  -- was made, and `polled` whether epoll takes it; `none` for the exit with status 1.
  unfoldable pub pmc_start : (Bytes → ℕ) → Environment → Port → Option ℕ → Bool → Option Process
  pmc_start atoi env port none polled = none
  pmc_start atoi env port (some eqd) polled =
      let state : PmcState = record {
        conns = [];
        alarm = pmc_alarm_init;
        aux = configure_aux atoi env (aux_at_start port);
      } in
      let (ok, served) = connect_to_eqd double can_write (some eqd) polled state in
      if ok
      then some
          (record { served = served; clients = record { fd = eqd; session = session_init } ∷ [] })
      else none

  -- epoll knows no other connections than those that are open; an event of another is skipped.
  unfoldable pub serve_peer : ℕ → List Read → Process → Option Process
  serve_peer fd reads p = elim (session_of fd p.clients) [
    | none ↦ some p
    | some session ↦
        handle_connected_peer double float can_write fd reads session p.served >>= λ (left, s).
        some (settle_client fd left (record p { served = s }))
  ]

  unfoldable pub serve_event : Event → Process → Option Process
  serve_event (incoming accepted) p = some (accept_all accepted p)
  serve_event (readable fd reads) p = serve_peer fd reads p

  unfoldable pub serve_events : List Event → Process → Option Process
  serve_events [] p = some p
  serve_events (e ∷ es) p = serve_event e p >>= serve_events es

  -- One round of `while(1)`, with what follows the loop when it is left; `none` means that the fuel of a
  -- loop ran out.
  unfoldable pub pmc_round : Wait → Process → Option Flow
  pmc_round interrupted p = some (goes_on p)
  pmc_round wait_failed p = some (over (shut_down p))
  pmc_round (ready events) p = serve_events events p >>= λ q. some (goes_on q)

  unfoldable pub pmc_rounds : List Wait → Process → Option Flow
  pmc_rounds [] p = some (goes_on p)
  pmc_rounds (w ∷ ws) p =
      pmc_round w p >>= λ flow. elim flow [ over q ↦ some (over q) | goes_on q ↦ pmc_rounds ws q ]
