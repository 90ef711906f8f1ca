-- ===== src/Protocol/Session.antt =====
-- common/src/protocol/session.c: the receive buffer of a connection. `buf` holds the first `len`
-- bytes of the array, so `len` is its length. A null pointer is no value here, so the guards
-- against one have no clause.
pub mod Framing
pub mod Stream
use equipment_control.Prelude.{
  ◌>>=◌, ℕ, zero, suc, ◌+◌, ◌≤◌, Bool, List, [], ◌∷◌, ◌++◌, Option, none, some, arith, ltb, leb,
  ◌==◌, if◌then◌else◌, Bytes, length, take, drop,
}

abbrev pub session_capacity : ℕ
session_capacity = 4096

pub record Session : Type 0 where
  pub buf : Bytes

unfoldable pub session_init : Session
session_init = record { buf = [] }

-- `none` is the result -1, at which the buffer is as before.
unfoldable pub session_feed : Session → Bytes → Option Session
session_feed s bytes =
    if length bytes == 0
    then some s
    else if ltb session_capacity (length s.buf + length bytes)
    then none
    else some (record { buf = s.buf ++ bytes })

-- The results 1 with a line, 0 and -1 of `session_pop_line`.
pub data Popped : Type 0 where
  line : Bytes → Session → Popped
  no_line too_long : Popped

-- The loop over `i` with its test `s->buf[i] == '\n'`.
unfoldable pub find_newline : Bytes → Option ℕ
find_newline [] = none
find_newline (c ∷ cs) =
    if c == b'\n' then some 0 else elim (find_newline cs) [ none ↦ none | some i ↦ some (suc i) ]

-- The body of the loop at the newline found: the copy to `out`, and `memmove` of the rest.
unfoldable pub pop_at : ℕ → Session → Option ℕ → Popped
pop_at size s none = no_line
pop_at size s (some i) =
    if leb size (i + 1)
    then too_long
    else line (take (i + 1) s.buf) (record { buf = drop (i + 1) s.buf })

unfoldable pub session_pop_line : Session → ℕ → Popped
unfolding find_newline pop_at
session_pop_line s size = if ltb size 2 then too_long else pop_at size s (find_newline s.buf)

-- The loop of the callers, `while(session_pop_line(...) == 1)`, with the lines that it hands out and
-- the session at its end; `none` means that the fuel ran out.
unfoldable pub pop_lines : ℕ → ℕ → Session → Option (List Bytes × Session)
pop_lines zero size s = none
pop_lines (suc fuel) size s = elim (session_pop_line s size) [
  | line l s' ↦ elim (pop_lines fuel size s') [
    | none ↦ none
    | some (ls, last) ↦ some (l ∷ ls, last)
  ]
  | no_line ↦ some ([], s)
  | too_long ↦ some ([], s)
]

-- The loop over `read`: each chunk is fed, then the lines that are complete are popped. `none` is an
-- overflow of the buffer, at which the callers close the connection.
unfoldable pub deliver : ℕ → Session → List Bytes → Option (List Bytes × Session)
deliver size s [] = some ([], s)
deliver size s (chunk ∷ chunks) = do
  fed ← session_feed s chunk
  (ls, rest) ← pop_lines (suc (length fed.buf)) size fed
  (later, last) ← deliver size rest chunks
  some (ls ++ later, last)
