-- ===== src/Tests/Process.antt =====
-- The process module controller with its auxiliary device and its peers, on concrete inputs.
use equipment_control.Prelude.{
  ◌≤◌, ◌<◌, arith, ℕ, ◌≡◌, ◌≢◌, refl, Bool, true, false, List, [], ◌∷◌, ◌++◌, none, some, Bytes,
  codes, if◌then◌else◌, has_prefix, drop, map, c_string,
}
use equipment_control.Prelude.Int.{pos, ℤ, to_int32}
use equipment_control.Protocol.Message.{Message, MsgType, Role}
use equipment_control.Protocol.Session.{session_init}
use equipment_control.Protocol.Session.Stream.{split_lines}
use equipment_control.Protocol.Codec.Numbers.{read_uint32, print_unsigned, print_int, digits_onto}
use equipment_control.Protocol.Codec.Render.{render}
use equipment_control.Protocol.Codec.Format.{line_format, role_to, type_to}
use equipment_control.Protocol.Codec.Bounds.{line_format-brief}
use equipment_control.Pmc.{
  PmcConnection, peer_eqd, peer_sim, pmc_alarm_init, route_from_eqd, decide_found, pmc_find_sim,
}
use equipment_control.Pmc.Serial.{
  b115200, read_bytes, Port, Turn, byte, interrupted, silent, SerialLink, got,
  serial_link_read_line, serial_link_write_line,
}
use equipment_control.Pmc.Serial.Lines.{read_line-write_line, text}
use equipment_control.Pmc.Pico.{PicoDevice, pico_send_and_wait, wait_reply}
use equipment_control.Pmc.Pico.First.{send_and_wait_first, IsLine, IsBlank}
use equipment_control.Pmc.Auxiliary.{AuxState, pmc_io_uart_aux_shutdown}
use equipment_control.Pmc.Auxiliary.Held.{Owns}
use equipment_control.Pmc.Apply.{pmc_io_apply_aux_for_command}
use equipment_control.Pmc.Apply.Heater.{apply_aux-Commanded, Commanded}
use equipment_control.Pmc.Lifetime.{
  AuxCall, configure, apply_command, snapshot, aux_at_start, aux_calls, aux_calls-Owns,
}
use equipment_control.Pmc.Snapshot.{Float}
use equipment_control.Pmc.Routing.{PmcState, pmc_route_message}
use equipment_control.Pmc.Routing.Answers.{pmc_route_message-Dealt, Dealt}
use equipment_control.Pmc.Routing.Cached.{status-then_request}
use equipment_control.Pmc.Peer.{chunk, Served, new_connection, handle_connected_peer}
use equipment_control.Pmc.Peer.Stream.{handle_connected_peer-lines, serve_all}
use equipment_control.Tests.{whole, start_one, started_one}
use mathlib.Core.List.{flatten}

-- Whole degrees for `float`.
abbrev pub whole_float : Float ℕ
whole_float = record {
  zero_float = 0;
  scan_temp = λ s. if has_prefix s (codes "TEMP ") then some (read_uint32 (drop 5 s)) else none;
  print_2f = λ n. print_unsigned n ++ codes ".00";
}

-- A serial line on which the device answers a PING and then that the heater is on.
abbrev pub port : Port
port = record {
  opens = some 7 ∷ [];
  writes = true ∷ true ∷ [];
  turns =
      silent ∷ interrupted ∷ map byte (codes "\nOK PONG\n") ++ map byte (codes "OK HEATER ON\n");
  speed = b115200;
  held = 3 ∷ [];
  written = [];
}

abbrev link : SerialLink
link = record { fd = some 7; path = codes "/dev/ttyACM0"; baudrate = 9600; is_open = true }

read_line-write_line_example :
    (sent : Bytes) × (serial_link_write_line link (codes "PING") port
      ≡ (true, record port { writes = true ∷ []; written = sent ∷ [] }))
    × ((sz : ℕ) (rest : List Turn)
        → 5 < sz
        → serial_link_read_line link sz (record port { turns = map byte sent ++ rest })
          ≡ (got (codes "PING"), record port { turns = rest }))
read_line-write_line_example =
    read_line-write_line link (codes "PING") (true ∷ []) port refl refl (omega arith) (
      (omega arith, omega arith, omega arith),
      (
        (omega arith, omega arith, omega arith),
        ((omega arith, omega arith, omega arith), ((omega arith, omega arith, omega arith), tt)),
      ),
    )

abbrev device : PicoDevice
device = record { link = link; connected = true }

abbrev answering : Port
answering = record port { turns = map byte (codes "\nOK PONG\r\n") }

pong : (pico_send_and_wait device (codes "PING") 128 answering).0 ≡ some (codes "OK PONG")
unfolding pico_send_and_wait wait_reply serial_link_read_line serial_link_write_line read_bytes
    c_string
pong = refl

-- An empty line and the answer to a PING, with an interruption and the line ends of a terminal.
abbrev talk : List Turn
talk = byte b'O' ∷ interrupted ∷ map byte (codes "K PONG\r")

abbrev talking : Port
talking = record {
  opens = [];
  writes = true ∷ [];
  turns = byte b'\r' ∷ byte b'\n' ∷ talk ++ byte b'\n' ∷ map byte (codes "OK");
  speed = b115200;
  held = 7 ∷ [];
  written = [];
}

talk-IsLine : IsLine 128 talk
unfolding text
talk-IsLine = record {
  is_talk = (
    omega arith,
    (
      tt,
      (
        omega arith,
        (
          omega arith,
          (omega arith, (omega arith, (omega arith, (omega arith, (omega arith, tt))))),
        ),
      ),
    ),
  );
  fits = omega arith;
}

empty-IsBlank : IsBlank 128 (byte b'\r' ∷ [])
unfolding text c_string
empty-IsBlank = (record { is_talk = (omega arith, tt); fits = omega arith }, refl)

talk_is_pong : c_string (text talk) ≡ codes "OK PONG"
unfolding text c_string
talk_is_pong = refl

send_and_wait_first_example : pico_send_and_wait device (codes "PING") 128 talking ≡ (
  some (c_string (text talk)),
  record talking { writes = []; written = codes "PING\n" ∷ []; turns = map byte (codes "OK") },
)
send_and_wait_first_example =
    send_and_wait_first device (codes "PING") 128 talking [] ((byte b'\r' ∷ []) ∷ []) talk
      (map byte (codes "OK")) refl refl (omega arith) refl (omega arith) (empty-IsBlank, tt)
      talk-IsLine (λ e. let same = talk_is_pong in cc) refl

abbrev ready : AuxState
ready = record {
  cfg = record {
    enabled = true;
    serial_path = codes "/dev/ttyACM0";
    baudrate = 9600;
    dev = device;
    session_ready = true;
  };
  port = answering;
}

apply_aux-Commanded_example :
    Commanded
      (pos 1)
      MsgType.start
      ready
      (pmc_io_apply_aux_for_command (pos 1) MsgType.start ready).0
      (pmc_io_apply_aux_for_command (pos 1) MsgType.start ready).1
apply_aux-Commanded_example = apply_aux-Commanded (pos 1) MsgType.start ready

abbrev life : List AuxCall
life =
    configure (codes "/dev/ttyACM0") 9600
    ∷ apply_command (pos 1) MsgType.start
    ∷ snapshot (pos 1)
    ∷ []

aux_calls-Owns_example :
    Owns (3 ∷ []) (aux_calls whole_float life (aux_at_start port))
    × ((pmc_io_uart_aux_shutdown (aux_calls whole_float life (aux_at_start port))).port.held
        ≡ 3 ∷ [])
aux_calls-Owns_example = aux_calls-Owns whole_float life port

line_format-brief_example :
    (line_format whole started_one 512 ≡ some (codes "RESP START dev=1 seq=7 ok=1\n")) × (28 ≤ 288)
unfolding render role_to type_to print_unsigned print_int digits_onto
line_format-brief_example = line_format-brief whole started_one (record {
  no_temp = refl;
  no_pressure = refl;
  no_flow = refl;
  state_short = omega arith;
  msg_short = omega arith;
})

abbrev pub writes_all : ℕ → Bytes → Bool
writes_all fd bytes = true

abbrev pub server : PmcConnection
server = record {
  fd = 4;
  type = peer_eqd;
  registered = true;
  dev_id = pos 0;
  state = [];
  has_state = false;
}

abbrev pub sim : PmcConnection
sim = record {
  fd = 9;
  type = peer_sim;
  registered = true;
  dev_id = pos 1;
  state = codes "IDLE";
  has_state = true;
}

abbrev pub with_both : PmcState
with_both = record { conns = sim ∷ server ∷ []; alarm = pmc_alarm_init; aux = ready }

pmc_route_message-Dealt_example :
    Dealt whole whole_float writes_all 4 start_one with_both
      (pmc_route_message whole whole_float writes_all server start_one with_both)
pmc_route_message-Dealt_example =
    pmc_route_message-Dealt whole whole_float writes_all server start_one with_both refl refl refl
      (λ bytes. refl)

-- EVT STATUS dev=1 state=PROCESSING
abbrev processing : Message ℕ
processing = record start_one {
  role = Role.evt;
  type = MsgType.status;
  has_seq = false;
  state = codes "PROCESSING";
  has_state = true;
}

status-then_request_example :
    let conns =
      (pmc_route_message whole whole_float writes_all sim processing with_both).state.conns in
    let now : PmcConnection = record sim { state = codes "PROCESSING"; has_state = true } in
    ((next : Message ℕ)
      → next.has_dev ≡ true
      → to_int32 next.dev ≡ pos 1
      → route_from_eqd conns next ≡ (some now, decide_found now next))
    × ((other : ℤ) → pos 1 ≢ other → pmc_find_sim other conns ≡ pmc_find_sim other with_both.conns)
unfolding pmc_find_sim
status-then_request_example =
    status-then_request whole whole_float writes_all sim processing with_both
      (((omega arith, tt), (tt, tt))) refl refl refl

-- A device that registers and reports its state, in two chunks.
abbrev reads : List Bytes
reads = codes "EVT REGISTER dev=1\nEVT STA" ∷ codes "TUS dev=1 state=IDLE\nEVT" ∷ []

abbrev fresh : Served
fresh = record { state = record with_both { conns = new_connection 9 ∷ server ∷ [] }; sent = [] }

handle_connected_peer-lines_example :
    handle_connected_peer whole whole_float writes_all 9 (map chunk reads) session_init fresh
    ≡ some (
      some (record { buf = codes "EVT" }),
      serve_all whole whole_float writes_all 9
          (codes "EVT REGISTER dev=1\n" ∷ codes "EVT STATUS dev=1 state=IDLE\n" ∷ [])
          fresh,
    )
unfolding split_lines flatten
handle_connected_peer-lines_example =
    handle_connected_peer-lines whole whole_float writes_all 9 reads fresh
      (omega arith, (omega arith, tt))
      (record { lines_short = (omega arith, (omega arith, tt)); rest_short = omega arith })
