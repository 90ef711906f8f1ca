-- ===== src/Pmc/Serial.antt =====
-- nodes/pmc/src/serial_transport.c: the serial line. What the kernel does is a script: which opens
-- succeed, with their descriptors, which writes succeed, and what each turn of the reading loop meets.
-- A script that has ended means refusal, and silence of the device. The terminal's settings are not
-- modelled beyond the speed; pointers are never null.
pub mod Lines
use equipment_control.Prelude.{
  ◌-◌, ℕ, suc, zero, ◌+◌, Bool, true, false, not, ◌&&◌, ◌||◌, List, [], ◌∷◌, ◌++◌, Option, none,
  some, ◌==◌, leb, ltb, length, if◌then◌else◌, Bytes, codes, copy_str, c_string,
}

pub data Speed : Type 0 where
  b9600 b19200 b38400 b57600 b115200 : Speed

unfoldable pub baud_to_speed : ℕ → Speed
baud_to_speed baudrate =
    if baudrate == 9600
    then b9600
    else if baudrate == 19200
    then b19200
    else if baudrate == 38400
    then b38400
    else if baudrate == 57600
    then b57600
    else b115200

-- One turn of the loop of `serial_link_read_line`: a call was interrupted (EINTR), `select` timed out
-- or `read` returned 0, a call failed, or a byte came.
pub data Turn : Type 0 where
  interrupted silent broken : Turn
  byte : ℕ → Turn

pub record Port : Type 0 where
  -- what `open` with `tcgetattr` and `tcsetattr` will return, `none` for a failure
  pub opens : List (Option ℕ)
  -- whether `write` will succeed
  pub writes : List Bool
  pub turns : List Turn
  -- the speed that the terminal was set to last
  pub speed : Speed
  -- the descriptors that are open, and the lines written, the last one first
  pub held : List ℕ
  pub written : List Bytes

pub record SerialLink : Type 0 where
  pub fd : Option ℕ
  pub path : Bytes
  pub baudrate : ℕ
  pub is_open : Bool

-- All bytes 0, but for `fd`, which is -1.
abbrev pub closed_link : SerialLink
closed_link = record { fd = none; path = []; baudrate = 0; is_open = false }

abbrev pub without : ℕ → List ℕ → List ℕ
without fd [] = []
without fd (x ∷ xs) = if fd == x then xs else x ∷ without fd xs

abbrev opened : Bytes → ℕ → ℕ → SerialLink
opened path baudrate fd = record {
  fd = some fd;
  path = copy_str 127 path;
  baudrate = baudrate;
  is_open = true;
}

-- The link and whether it was opened. On failure `fd` is 0, as `memset` leaves it.
unfoldable pub serial_link_open : Bytes → ℕ → Port → (Bool × SerialLink) × Port
serial_link_open path baudrate port = elim port.opens [
  | [] ↦ ((false, record closed_link { fd = some 0 }), port)
  | none ∷ rest ↦ ((false, record closed_link { fd = some 0 }), record port { opens = rest })
  | some fd ∷ rest ↦ (
    (true, opened path baudrate fd),
    record port { opens = rest; speed = baud_to_speed baudrate; held = fd ∷ port.held },
  )
]

abbrev release : Option ℕ → Port → Port
release none port = port
release (some fd) port = record port { held = without fd port.held }

unfoldable pub serial_link_close : SerialLink → Port → SerialLink × Port
serial_link_close link port = (closed_link, if link.is_open then release link.fd port else port)

-- Whether the line was written, with its newline; it must be shorter than 255 bytes.
unfoldable pub serial_link_write_line : SerialLink → Bytes → Port → Bool × Port
serial_link_write_line link line port =
    if not link.is_open || leb 256 (length line + 1) then (false, port) else (elim port.writes [
      | [] ↦ (false, port)
      | false ∷ rest ↦ (false, record port { writes = rest })
      | true ∷ rest ↦
          (true, record port { writes = rest; written = (line ++ b'\n' ∷ []) ∷ port.written })
    ])

-- The results 1 with the line, 0 and -1.
pub data Reading : Type 0 where
  got : Bytes → Reading
  timed_out failed : Reading

-- The loop, with room for `room` more bytes after those of `out`; what is left of the script comes back.
unfoldable pub read_bytes : ℕ → Bytes → List Turn → Reading × List Turn
read_bytes zero out turns = (got out, turns)
read_bytes (suc room) out [] = (timed_out, [])
read_bytes (suc room) out (interrupted ∷ rest) = read_bytes (suc room) out rest
read_bytes (suc room) out (silent ∷ rest) = (timed_out, rest)
read_bytes (suc room) out (broken ∷ rest) = (failed, rest)
read_bytes (suc room) out (byte c ∷ rest) = elim (c == b'\r') [
  | true ↦ read_bytes (suc room) out rest
  | false ↦ elim (c == b'\n') [
    | true ↦ (got out, rest)
    | false ↦ read_bytes room (out ++ c ∷ []) rest
  ]
]

abbrev pub as_string : Reading → Reading
as_string (got out) = got (c_string out)
as_string r = r

-- `out` is read as a C string, of at most `out_sz` bytes with its NUL.
unfoldable pub serial_link_read_line : SerialLink → ℕ → Port → Reading × Port
serial_link_read_line link out_sz port =
    if not link.is_open || out_sz == 0
    then (failed, port)
    else (let (r, rest) = read_bytes (out_sz - 1) [] port.turns in
        (as_string r, record port { turns = rest }))
