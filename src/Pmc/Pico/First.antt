-- ===== src/Pmc/Pico/First.antt =====
-- nodes/pmc/src/pico_device.c: which line of the device is the reply.
use equipment_control.Prelude.{
  ℕ, zero, suc, ◌+◌, ◌<◌, ◌≡◌, ◌≢◌, refl, ap, ◌∙◌, Bool, true, false, List, [], ◌∷◌, ◌++◌, some,
  arith, Bytes, length, All, c_string, ◌==◌,
}
use equipment_control.Pmc.Serial.{
  Turn, byte, SerialLink, Port, serial_link_read_line, serial_link_write_line, got,
}
use equipment_control.Pmc.Serial.Lines.{IsTalk, text, read_line-text}
use equipment_control.Pmc.Pico.{max_tries, PicoDevice, wait_reply, pico_send_and_wait}

-- A line of the device, without its newline, that fits a buffer.
pub record IsLine (sz : ℕ) (talk : List Turn) : Type 0 where
  pub is_talk : All IsTalk talk
  pub fits : length (text talk) + 1 < sz

-- A line that is read as empty.
abbrev pub IsBlank : ℕ → List Turn → Type 0
IsBlank sz talk = IsLine sz talk × (c_string (text talk) ≡ [])

-- The lines, each with its newline, and then the rest.
abbrev pub lines_then : List (List Turn) → List Turn → List Turn
lines_then [] rest = rest
lines_then (talk ∷ talks) rest = talk ++ byte b'\n' ∷ lines_then talks rest

module _ (link : SerialLink) (sz : ℕ) (is_open : link.is_open ≡ true) where
  read_talk :
      (talk rest : List Turn) (port : Port)
      → IsLine sz talk
      → port.turns ≡ talk ++ byte b'\n' ∷ rest
      → serial_link_read_line link sz port
        ≡ (got (c_string (text talk)), record port { turns = rest })
  read_talk talk rest port l e = read_line-text link sz port talk rest is_open e l.is_talk l.fits

  wait_talk :
      (tries : ℕ) (rest : List Turn) (port : Port) (line : Bytes)
      → line ≢ []
      → serial_link_read_line link sz port ≡ (got line, record port { turns = rest })
      → wait_reply (suc tries) link sz port ≡ (some line, record port { turns = rest })
  unfolding wait_reply
  wait_talk tries rest port [] ne e = elim (ne refl) [ ]
  wait_talk tries rest port (c ∷ cs) ne e = rw (wait_reply, ap (λ w. w.0) e, ap (λ w. w.1) e) refl

  wait_blank :
      (tries : ℕ) (rest : List Turn) (port : Port)
      → serial_link_read_line link sz port ≡ (got [], record port { turns = rest })
      → wait_reply (suc tries) link sz port
        ≡ wait_reply tries link sz (record port { turns = rest })
  unfolding wait_reply
  wait_blank tries rest port e = rw (wait_reply, ap (λ w. w.0) e, ap (λ w. w.1) e) refl

  wait_reply_first :
      (tries : ℕ) (blanks : List (List Turn)) (talk rest : List Turn) (port : Port)
      → length blanks < tries
      → All (IsBlank sz) blanks
      → IsLine sz talk
      → c_string (text talk) ≢ []
      → port.turns ≡ lines_then blanks (talk ++ byte b'\n' ∷ rest)
      → wait_reply tries link sz port ≡ (some (c_string (text talk)), record port { turns = rest })
  wait_reply_first zero blanks talk rest port few b l ne e = absurd (omega arith)
  wait_reply_first (suc tries) [] talk rest port few b l ne e =
      wait_talk tries rest port _ ne (read_talk talk rest port l e)
  wait_reply_first (suc tries) (blank ∷ blanks) talk rest port few b l ne e =
      let next = lines_then blanks (talk ++ byte b'\n' ∷ rest) in
      wait_blank tries next port
        (read_talk blank next port b.0.0 e ∙ ap (λ l. (got l, record port { turns = next })) b.0.1)
      ∙ wait_reply_first tries blanks talk rest (record port { turns = next }) (omega arith) b.1 l
          ne refl

-- A command is written to a connected device once, with its newline. If the device then sends at most four
-- empty lines and next a line that is not empty, all of which fit the caller's buffer, then that line is the
-- reply, up to its first NUL and without its carriage returns, and what follows it is left to be read.
pub send_and_wait_first :
    (dev : PicoDevice) (cmd : Bytes) (sz : ℕ) (port : Port) (more : List Bool)
    (blanks : List (List Turn)) (talk rest : List Turn)
    → dev.connected ≡ true
    → dev.link.is_open ≡ true
    → length cmd < 255
    → port.writes ≡ true ∷ more
    → length blanks < 5
    → All (IsBlank sz) blanks
    → IsLine sz talk
    → c_string (text talk) ≢ []
    → port.turns ≡ lines_then blanks (talk ++ byte b'\n' ∷ rest)
    → pico_send_and_wait dev cmd sz port ≡ (
      some (c_string (text talk)),
      record port { writes = more; written = (cmd ++ b'\n' ∷ []) ∷ port.written; turns = rest },
    )
unfolding pico_send_and_wait serial_link_write_line
send_and_wait_first dev cmd sz port more blanks talk rest c o short w few b l ne e =
    let after : Port = record port {
      writes = more;
      written = (cmd ++ b'\n' ∷ []) ∷ port.written;
    } in
    let written : serial_link_write_line dev.link cmd port ≡ (true, after) = ground arith in
    let room : (sz == 0) ≡ false = ground (arith, l.fits) in
    rw (pico_send_and_wait, c, room, written)
      (wait_reply_first dev.link sz o max_tries blanks talk rest after few b l ne e)
