-- ===== src/Pmc/Serial/Lines.antt =====
-- nodes/pmc/src/serial_transport.c: what the reading loop makes of a line of the device.
use equipment_control.Prelude.{
  false, ap, ℕ, zero, suc, ◌+◌, ◌-◌, ◌≡◌, ◌≢◌, refl, ◌∙◌, ◌<◌, Bool, true, List, [], ◌∷◌, ◌++◌,
  arith, ◌==◌, if◌then◌else◌, Bytes, length, All, append-nil, append_assoc, Bool-cases, inl, inr,
  c_string, map,
}
use equipment_control.Pmc.Serial.{
  Turn, interrupted, silent, broken, byte, got, read_bytes, SerialLink, Port, serial_link_read_line,
  serial_link_write_line,
}

-- A turn within a line: an interruption, or a byte that does not end the line.
abbrev pub IsTalk : Turn → Type 0
IsTalk interrupted = Unit
IsTalk silent = ⊥
IsTalk broken = ⊥
IsTalk (byte c) = c ≢ b'\n'

-- The bytes of the turns, without the carriage returns.
unfoldable pub text : List Turn → Bytes
text [] = []
text (byte c ∷ turns) = if c == b'\r' then text turns else c ∷ text turns
text (turn ∷ turns) = text turns

read_bytes-text :
    (talk rest : List Turn) (room : ℕ) (out : Bytes)
    → All IsTalk talk
    → length (text talk) < room
    → read_bytes room out (talk ++ byte b'\n' ∷ rest) ≡ (got (out ++ text talk), rest)
unfolding read_bytes text
read_bytes-text talk rest zero out h fits = absurd (omega arith)
read_bytes-text [] rest (suc room) out h fits = rw append-nil refl
read_bytes-text (interrupted ∷ talk) rest (suc room) out h fits =
    read_bytes-text talk rest (suc room) out h.1 fits
read_bytes-text (silent ∷ talk) rest (suc room) out h fits = absurd h.0
read_bytes-text (broken ∷ talk) rest (suc room) out h fits = absurd h.0
read_bytes-text (byte c ∷ talk) rest (suc room) out h fits = elim (Bool-cases (c == b'\r')) [
  | inl cr ↦ ground (arith, read_bytes-text talk rest (suc room) out h.1)
  | inr plain ↦ ground (
    arith,
    read_bytes-text talk rest room (out ++ c ∷ []) h.1,
    append_assoc out (c ∷ []) (text talk),
  )
]

-- Whatever interrupts it, a line of the device that fits the buffer is handed out up to its first NUL,
-- without its carriage returns, and what follows its newline is left to the next call.
pub read_line-text :
    (link : SerialLink) (sz : ℕ) (port : Port) (talk rest : List Turn)
    → link.is_open ≡ true
    → port.turns ≡ talk ++ byte b'\n' ∷ rest
    → All IsTalk talk
    → length (text talk) + 1 < sz
    → serial_link_read_line link sz port
      ≡ (got (c_string (text talk)), record port { turns = rest })
unfolding serial_link_read_line
read_line-text link sz port talk rest is_open e h fits =
    rw (is_open, e) (ground (arith, read_bytes-text talk rest (sz - 1) [] h))

-- The bytes that a command may have.
abbrev pub IsLineByte : ℕ → Type 0
IsLineByte c = (c ≢ 0) × (c ≢ b'\r') × (c ≢ b'\n')

text-map_byte : (line : Bytes) → All IsLineByte line → text (map byte line) ≡ line
unfolding text
text-map_byte [] h = refl
text-map_byte (c ∷ line) h = ground (arith, text-map_byte line h.1)

IsTalk-map_byte : (line : Bytes) → All IsLineByte line → All IsTalk (map byte line)
IsTalk-map_byte [] h = tt
IsTalk-map_byte (c ∷ line) h = (h.0.2, IsTalk-map_byte line h.1)

c_string-plain : (line : Bytes) → All IsLineByte line → c_string line ≡ line
unfolding c_string
c_string-plain [] h = refl
c_string-plain (c ∷ line) h = ground (arith, c_string-plain line h.1)

map_byte-append :
    (line : Bytes) (rest : List Turn)
    → map byte (line ++ b'\n' ∷ []) ++ rest ≡ map byte line ++ byte b'\n' ∷ rest
map_byte-append [] rest = refl
map_byte-append (c ∷ line) rest = ap (◌∷◌ (byte c)) (map_byte-append line rest)

-- A line that is written to an open link, whose `write` succeeds, leaves as bytes from which the reader
-- of the other side, with a buffer that it fits, gets the same line back.
pub read_line-write_line :
    (link : SerialLink) (line : Bytes) (more : List Bool) (port : Port)
    → link.is_open ≡ true
    → port.writes ≡ true ∷ more
    → length line < 255
    → All IsLineByte line
    → (sent : Bytes) × (serial_link_write_line link line port
        ≡ (true, record port { writes = more; written = sent ∷ port.written }))
      × ((sz : ℕ) (rest : List Turn)
          → length line + 1 < sz
          → serial_link_read_line link sz (record port { turns = map byte sent ++ rest })
            ≡ (got line, record port { turns = rest }))
unfolding serial_link_write_line
read_line-write_line link line more port is_open e short h = (
  line ++ b'\n' ∷ [],
  ground arith,
  λ sz rest fits.
      read_line-text link sz _ (map byte line) rest is_open (map_byte-append line rest)
        (IsTalk-map_byte line h) (rw (text-map_byte line h) fits)
      ∙ simp (text-map_byte line h, c_string-plain line h),
)

-- A line is written once, or not at all, as the result says.
pub write_line-written :
    (link : SerialLink) (line : Bytes) (port : Port)
    → let (ok, port') = serial_link_write_line link line port in
      (ok ≡ true → port'.written ≡ (line ++ b'\n' ∷ []) ∷ port.written)
      × (ok ≡ false → port'.written ≡ port.written)
unfolding serial_link_write_line
write_line-written link line port = ground arith
