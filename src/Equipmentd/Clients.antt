-- ===== src/Equipmentd/Clients.antt =====
-- services/equipmentd/src/main.c: `handle_client_event`, `close_connection` and the connection that is
-- accepted. The session of a connection, which only `handle_client_event` uses, is kept beside its entry
-- in the table. `now` is what `now_ms()` returns during the call; what `read` gives is a list, which
-- ends where the kernel says to try again.
pub mod Streams
pub mod Endings
use equipment_control.Prelude.{
  ℕ, zero, suc, Bool, true, false, List, [], ◌∷◌, ◌++◌, Option, none, some, if◌then◌else◌, Bytes,
  ◌==◌, length, ◌>>=◌,
}
use equipment_control.Protocol.Double.{Double}
use equipment_control.Protocol.Session.{
  Session, session_feed, session_pop_line, line, no_line, too_long,
}
use equipment_control.Equipmentd.Connections.{
  Connection, register_connection, unregister_connection,
}
use equipment_control.Equipmentd.Server.{AppCtx, Handled, failed, handle_one_line}
use equipment_control.Equipmentd.Ticker.{drop_controller}

-- The `line` of `main`.
abbrev pub line_size : ℕ
line_size = 512

-- A result of `read` that is not "try again".
pub data Read : Type 0 where
  chunk : Bytes → Read
  end_of_file broken : Read

-- How a call ends: the connection stays, with its session; it was closed at the end of the stream or a
-- read error; the session overflowed and it was closed; or a line failed and it was closed, after which
-- the code reads `conn->state` of the freed connection before it leaves the loop.
pub data Ended : Type 0 where
  stays : Session → Ended
  hung_up overflowed freed : Ended

pub record ServerState (D : Type 0) : Type 0 where
  pub ctx : AppCtx D
  pub table : List Connection
  pub sent : List (ℕ × Bytes)

-- `conn->last_active_ms = now_ms()`
unfoldable pub touch : ℕ → ℕ → List Connection → List Connection
touch fd now [] = []
touch fd now (c ∷ rest) =
    if c.fd == fd then record c { last_active_ms = now } ∷ rest else c ∷ touch fd now rest

module _ {D : Type 0} where
  unfoldable pub close_connection : ℕ → ServerState D → ServerState D
  close_connection fd s = record s { table = unregister_connection s.table fd }

  -- The two assignments and the close.
  unfoldable pub hang_up : ℕ → ServerState D → ServerState D
  hang_up fd s = close_connection fd (record s { ctx = drop_controller fd s.ctx })

  -- The loop body of `handle_accept_event` for a descriptor that was made non-blocking, if `malloc`
  -- succeeds: `polled` says whether epoll takes it.
  unfoldable pub accept_client : Bool → ℕ → ℕ → ServerState D → ServerState D
  accept_client polled fd now s =
      let added : ServerState D = record s {
        table = register_connection s.table (record { fd = fd; last_active_ms = now });
      } in
      if polled then added else close_connection fd added

module _ {D : Type 0} (double : Double D) (can_write : ℕ → Bytes → Bool) where
  -- A line, with whether its result is not negative.
  unfoldable pub serve_line : ℕ → ℕ → Bytes → ServerState D → Bool × ServerState D
  serve_line fd now l s =
      let e = handle_one_line double can_write fd now s.ctx l in
      let s' : ServerState D = record s { ctx = e.ctx; sent = s.sent ++ e.sent } in
      elim e.result [ failed ↦ (false, hang_up fd s') | _ ↦ (true, s') ]

  -- The loop over the lines that are complete, with the session unless the connection was closed;
  -- `none` means that the fuel ran out.
  unfoldable pub serve_lines :
      ℕ → ℕ → ℕ → Session → ServerState D → Option (Option Session × ServerState D)
  serve_lines zero fd now session s = none
  serve_lines (suc fuel) fd now session s = elim (session_pop_line session line_size) [
    | line l rest ↦
        (let (ok, s') = serve_line fd now l s in
          elim ok [ true ↦ serve_lines fuel fd now rest s' | false ↦ some (none, s') ])
    | no_line ↦ some (some session, s)
    | too_long ↦ some (some session, s)
  ]

  unfoldable pub handle_client_event :
      ℕ → ℕ → List Read → Session → ServerState D → Option (Ended × ServerState D)
  handle_client_event fd now [] session s = some (stays session, s)
  handle_client_event fd now (end_of_file ∷ reads) session s = some (hung_up, hang_up fd s)
  handle_client_event fd now (broken ∷ reads) session s = some (hung_up, hang_up fd s)
  handle_client_event fd now (chunk bytes ∷ reads) session s =
      let touched : ServerState D = record s { table = touch fd now s.table } in
      elim (session_feed session bytes) [
        | none ↦ some (overflowed, close_connection fd touched)
        | some fed ↦ serve_lines (suc (length fed.buf)) fd now fed touched >>= λ (left, served).
            elim left [
              | none ↦ some (freed, served)
              | some rest ↦ handle_client_event fd now reads rest served
            ]
      ]
