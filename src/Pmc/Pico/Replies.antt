-- ===== src/Pmc/Pico/Replies.antt =====
-- nodes/pmc/src/pico_device.c: what a reply is.
use equipment_control.Prelude.{
  ◌⊎◌, ℕ, zero, suc, ◌+◌, ◌-◌, ◌≡◌, ◌≢◌, refl, ◌∙◌, ◌<◌, ◌≤◌, not, ◌||◌, List, [], ◌∷◌, ◌++◌, some,
  arith, ◌==◌, Bytes, length, All, All-append, length-append, Bool-cases, inl, inr, c_string,
}
use equipment_control.Pmc.Serial.{
  as_string, Turn, interrupted, silent, broken, byte, Reading, got, timed_out, failed, read_bytes,
  SerialLink, Port, serial_link_read_line, serial_link_write_line,
}
use equipment_control.Pmc.Serial.Lines.{write_line-written, IsLineByte}
use equipment_control.Pmc.Pico.{max_tries, PicoDevice, wait_reply, pico_send_and_wait}

-- A line as the device can have sent it, for a buffer of some size.
pub record IsReply (sz : ℕ) (reply : Bytes) : Type 0 where
  pub fits : length reply < sz
  pub line_bytes : All IsLineByte reply

abbrev IsBodyByte : ℕ → Type 0
IsBodyByte c = (c ≢ b'\r') × (c ≢ b'\n')

-- What the loop over the bytes has collected when it succeeds.
abbrev Collected : ℕ → Reading → Type 0
Collected n (got r) = (length r ≤ n) × All IsBodyByte r
Collected n timed_out = Unit
Collected n failed = Unit

read_bytes-Collected :
    (turns : List Turn) (room : ℕ) (out : Bytes)
    → All IsBodyByte out
    → Collected (length out + room) (read_bytes room out turns).0
unfolding read_bytes
read_bytes-Collected turns zero out h = (omega arith, h)
read_bytes-Collected [] (suc room) out h = tt
read_bytes-Collected (interrupted ∷ turns) (suc room) out h =
    read_bytes-Collected turns (suc room) out h
read_bytes-Collected (silent ∷ turns) (suc room) out h = tt
read_bytes-Collected (broken ∷ turns) (suc room) out h = tt
read_bytes-Collected (byte c ∷ turns) (suc room) out h = elim (Bool-cases (c == b'\r')) [
  | inl cr ↦ rw (read_bytes, cr) (read_bytes-Collected turns (suc room) out h)
  | inr body ↦ elim (Bool-cases (c == b'\n')) [
    | inl end ↦ rw (read_bytes, body, end) ((omega arith, h))
    | inr more ↦
        rw (read_bytes, body, more)
          (rw (← one_more) (
            read_bytes-Collected turns room (out ++ c ∷ [])
              (All-append IsBodyByte out (c ∷ []) h ((ground arith, ground arith), tt))))
  ]
]
  where
    one_more : length (out ++ c ∷ []) + room ≡ length out + suc room
    one_more = omega (arith, length-append {0} out (c ∷ []))

c_string-clean :
    (s : Bytes) → All IsBodyByte s → (length (c_string s) ≤ length s) × All IsLineByte (c_string s)
unfolding c_string
c_string-clean [] h = (omega arith, tt)
c_string-clean (c ∷ s) h = elim (Bool-cases (c == 0)) [
  | inl nul ↦ rw nul ((omega arith, tt))
  | inr body ↦ rw body (
      let (short, clean) = c_string-clean s h.1 in
      (omega arith, ((ground arith, h.0.0, h.0.1), clean)))
]

as_string-IsReply :
    (n sz : ℕ) (r : Reading) (reply : Bytes)
    → n < sz
    → Collected n r
    → as_string r ≡ got reply
    → IsReply sz reply
as_string-IsReply n sz (got out) reply less h e =
    let same : c_string out ≡ reply = cc in
    let (short, clean) = c_string-clean out h.1 in
    rw (← same) (record { fits = omega arith; line_bytes = clean })
as_string-IsReply n sz timed_out reply less h e = cc
as_string-IsReply n sz failed reply less h e = cc

read_line-IsReply :
    (link : SerialLink) (sz : ℕ) (port : Port) (reply : Bytes)
    → (serial_link_read_line link sz port).0 ≡ got reply
    → IsReply sz reply
unfolding serial_link_read_line
read_line-IsReply link sz port reply e = elim (Bool-cases (not link.is_open || sz == 0)) [
  | inr fine ↦
      as_string-IsReply (0 + (sz - 1)) sz (read_bytes (sz - 1) [] port.turns).0 reply (ground arith)
        (read_bytes-Collected port.turns (sz - 1) [] tt) (rw (serial_link_read_line, fine) at e)
  | inl bad ↦ absurd (ground arith)
]

waited :
    (tries : ℕ) (link : SerialLink) (sz : ℕ) (port : Port) (reply : Bytes) (r : Reading)
    → (serial_link_read_line link sz port).0 ≡ r
    → (wait_reply (suc tries) link sz port).0 ≡ some reply
    → ((r ≡ got reply) × (reply ≢ []))
      ⊎ ((wait_reply tries link sz (serial_link_read_line link sz port).1).0 ≡ some reply)
unfolding wait_reply
waited tries link sz port reply (got []) q e = inr (rw (wait_reply, q) at e)
waited tries link sz port reply (got (c ∷ cs)) q e = inl (ground arith)
waited tries link sz port reply timed_out q e = absurd (ground arith)
waited tries link sz port reply failed q e = absurd (ground arith)

wait_reply-IsReply :
    (tries : ℕ) (link : SerialLink) (sz : ℕ) (port : Port) (reply : Bytes)
    → (wait_reply tries link sz port).0 ≡ some reply
    → (reply ≢ []) × IsReply sz reply
unfolding wait_reply
wait_reply-IsReply zero link sz port reply e = cc
wait_reply-IsReply (suc tries) link sz port reply e =
    elim (waited tries link sz port reply _ refl e) [
      | inl (q, ne) ↦ (ne, read_line-IsReply link sz port reply q)
      | inr later ↦ wait_reply-IsReply tries link sz _ reply later
    ]

pub read_line-written :
    (link : SerialLink) (sz : ℕ) (port : Port)
    → (serial_link_read_line link sz port).1.written ≡ port.written
unfolding serial_link_read_line
read_line-written link sz port = ground arith

pub wait_reply-written :
    (tries : ℕ) (link : SerialLink) (sz : ℕ) (port : Port)
    → (wait_reply tries link sz port).1.written ≡ port.written
unfolding wait_reply
wait_reply-written zero link sz port = refl
wait_reply-written (suc tries) link sz port = ground (
  arith,
  read_line-written link sz port,
  wait_reply-written tries link sz (serial_link_read_line link sz port).1,
)

-- A reply is not empty, fits the caller's buffer, and has no NUL and no line end; the command was written
-- once with its newline. No reply is made up of a command that could not be written.
pub send_and_wait-IsReply :
    (dev : PicoDevice) (cmd : Bytes) (sz : ℕ) (port : Port) (reply : Bytes)
    → (pico_send_and_wait dev cmd sz port).0 ≡ some reply
    → (reply ≢ [])
      × IsReply sz reply
      × ((pico_send_and_wait dev cmd sz port).1.written ≡ (cmd ++ b'\n' ∷ []) ∷ port.written)
unfolding pico_send_and_wait
send_and_wait-IsReply dev cmd sz port reply e =
    let (one, nothing) = write_line-written dev.link cmd port in
    elim (Bool-cases (not dev.connected || sz == 0)) [
      | inl bad ↦ absurd (ground arith)
      | inr fine ↦ elim (Bool-cases (serial_link_write_line dev.link cmd port).0) [
        | inr ko ↦ absurd (ground arith)
        | inl ok ↦
            let (ne, is) =
              wait_reply-IsReply max_tries dev.link sz _ reply
                (rw (pico_send_and_wait, fine, ok) at e) in
            (
              ne,
              is,
              rw (pico_send_and_wait, fine, ok)
                  (wait_reply-written max_tries dev.link sz _ ∙ one ok),
            )
      ]
    ]
