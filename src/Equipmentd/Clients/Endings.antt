-- ===== src/Equipmentd/Clients/Endings.antt =====
-- services/equipmentd/src/main.c: how the service of a client ends.
use equipment_control.Prelude.{
  ℕ, suc, ◌+◌, ◌≡◌, refl, ◌∙◌, ap, sym, Bool, false, ◌&&◌, List, [], ◌∷◌, Option, none, some, arith,
  Bytes, length, if◌then◌else◌, Option-cases, Bool-cases, inl, inr, ◌==◌, ltb,
}
use equipment_control.Protocol.Double.{Double}
use equipment_control.Protocol.Session.{Session, session_feed}
use equipment_control.Protocol.Session.Stream.{pop_lines_total}
use equipment_control.Equipmentd.Connections.{Connection, last_first, unregister_connection}
use equipment_control.Equipmentd.Server.{
  Handled, failed, silent, answered, handle_one_line, is_controller_fd, fd_eq,
}
use equipment_control.Equipmentd.Ticker.{drop_controller, forget}
use equipment_control.Equipmentd.Clients.{
  line_size, Read, chunk, end_of_file, broken, Ended, stays, hung_up, overflowed, freed,
  ServerState, touch, close_connection, hang_up, serve_line, handle_client_event,
}
use equipment_control.Equipmentd.Clients.Streams.{
  touched, serve_all, serve_all_ok, serve_all_bad, serve_all-table, serve_line-table, pack_ok,
  pack_bad, serve_lines-pop_lines,
}

-- How many entries of the table have a descriptor.
abbrev pub count : ℕ → List Connection → ℕ
count fd [] = 0
count fd (c ∷ rest) = (if c.fd == fd then 1 else 0) + count fd rest

-- One entry with the descriptor is gone, if there was one, and the others are there.
abbrev pub IsRemoved : ℕ → List Connection → List Connection → Type 0
IsRemoved fd before after =
    (other : ℕ)
    → count other after + (if (other == fd) && ltb 0 (count fd before) then 1 else 0)
      ≡ count other before

count-last_first : (fd : ℕ) (cs : List Connection) → count fd (last_first cs) ≡ count fd cs
unfolding last_first
count-last_first fd [] = refl
count-last_first fd (c ∷ []) = refl
count-last_first fd (c ∷ d ∷ rest) = ground (arith, count-last_first fd (d ∷ rest))

pub unregister-IsRemoved :
    (fd : ℕ) (table : List Connection) → IsRemoved fd table (unregister_connection table fd)
unfolding unregister_connection
unregister-IsRemoved fd [] other = ground arith
unregister-IsRemoved fd (c ∷ rest) other =
    ground (arith, unregister-IsRemoved fd rest other, count-last_first other rest)

count-touch :
    (fd now other : ℕ) (table : List Connection)
    → count other (touch fd now table) ≡ count other table
unfolding touch
count-touch fd now other [] = refl
count-touch fd now other (c ∷ rest) = ground (arith, count-touch fd now other rest)

fd_eq-forget : (fd : ℕ) (o : Option ℕ) → fd_eq fd (forget fd o) ≡ false
fd_eq-forget fd none = refl
fd_eq-forget fd (some other) = ground arith

-- Tables with the same descriptors.
IsRemoved-same :
    (fd : ℕ) (before before' after : List Connection)
    → ((other : ℕ) → count other before' ≡ count other before)
    → IsRemoved fd before' after
    → IsRemoved fd before after
IsRemoved-same fd before before' after same r other = ground (arith, same other, same fd, r other)

module _ {D : Type 0} where
  -- The connection is closed, and neither controller is at its descriptor.
  pub record HungUp (fd : ℕ) (table : List Connection) (s : ServerState D) : Type 0 where
    pub forgotten : is_controller_fd s.ctx fd ≡ false
    pub removed : IsRemoved fd table s.table

  -- What a call leaves, by the way it ends. After an overflow the controllers are not touched.
  abbrev pub EndsWell : ℕ → List Connection → Ended → ServerState D → Type 0
  EndsWell fd table (stays session) s = (other : ℕ) → count other s.table ≡ count other table
  EndsWell fd table hung_up s = HungUp fd table s
  EndsWell fd table freed s = HungUp fd table s
  EndsWell fd table overflowed s = IsRemoved fd table s.table

  HungUp-table :
      (fd : ℕ) (table table' : List Connection) (s : ServerState D)
      → table' ≡ table
      → HungUp fd table' s
      → HungUp fd table s
  HungUp-table fd table table' s e h = rw (sym e) h

  hang_up-HungUp : (fd : ℕ) (s : ServerState D) → HungUp fd s.table (hang_up fd s)
  unfolding hang_up close_connection drop_controller is_controller_fd
  hang_up-HungUp fd s = record {
    forgotten = ground (arith, fd_eq-forget fd s.ctx.pmc_fd, fd_eq-forget fd s.ctx.tmc_fd);
    removed = unregister-IsRemoved fd s.table;
  }

  EndsWell-same :
      (fd : ℕ) (before before' : List Connection) (ended : Ended) (s : ServerState D)
      → ((other : ℕ) → count other before' ≡ count other before)
      → EndsWell fd before' ended s
      → EndsWell fd before ended s
  EndsWell-same fd before before' (stays session) s same h = λ other. h other ∙ same other
  EndsWell-same fd before before' hung_up s same h = record {
    forgotten = h.forgotten;
    removed = IsRemoved-same fd before before' _ same h.removed;
  }
  EndsWell-same fd before before' freed s same h = record {
    forgotten = h.forgotten;
    removed = IsRemoved-same fd before before' _ same h.removed;
  }
  EndsWell-same fd before before' overflowed s same h = IsRemoved-same fd before before' _ same h

  overflow-EndsWell :
      (fd now : ℕ) (s : ServerState D)
      → IsRemoved fd s.table (close_connection fd (touched fd now s)).table
  unfolding close_connection
  overflow-EndsWell fd now s =
      IsRemoved-same fd s.table (touch fd now s.table) _ (λ other. count-touch fd now other s.table)
        (unregister-IsRemoved fd (touch fd now s.table))

module _ {D : Type 0} (double : Double D) (can_write : ℕ → Bytes → Bool) where
  serve_line_by :
      (fd now : ℕ) (l : Bytes) (s : ServerState D) (r : Handled)
      → (handle_one_line double can_write fd now s.ctx l).result ≡ r
      → (serve_line double can_write fd now l s).0 ≡ false
      → HungUp fd s.table (serve_line double can_write fd now l s).1
  unfolding serve_line
  serve_line_by fd now l s failed e h = rw (serve_line, e) (hang_up-HungUp fd _)
  serve_line_by fd now l s silent e h = let h' = rw (serve_line, e) at h in cc
  serve_line_by fd now l s answered e h = let h' = rw (serve_line, e) at h in cc

  serve_all-HungUp :
      (fd now : ℕ) (ls : List Bytes) (s : ServerState D)
      → (serve_all double can_write fd now ls s).0 ≡ false
      → HungUp fd s.table (serve_all double can_write fd now ls s).1
  unfolding serve_all
  serve_all-HungUp fd now [] s h = cc
  serve_all-HungUp fd now (l ∷ ls) s h =
      elim (Bool-cases (serve_line double can_write fd now l s).0) [
        | inl ok ↦
            let rest =
              serve_all-HungUp fd now ls (serve_line double can_write fd now l s).1
                (rw (serve_all, ok) at h) in
            rw (serve_all_ok double can_write fd now l ls s ok)
              (HungUp-table fd s.table _ _ (serve_line-table double can_write fd now l s ok) rest)
        | inr bad ↦
            rw (serve_all_bad double can_write fd now l ls s bad)
              (serve_line_by fd now l s _ refl bad)
      ]

  -- Whatever a client sends, and however its reads end, the call ends: the fuel of the loops is enough. A
  -- connection that stays keeps the table; one that is closed leaves it, and unless the session
  -- overflowed, no controller is taken to be at its descriptor any more.
  pub handle_client_event_total :
      (fd now : ℕ) (reads : List Read) (session : Session) (s : ServerState D)
      → (r : Ended × ServerState D) × (handle_client_event double can_write fd now reads session s
          ≡ some r)
        × EndsWell fd s.table r.0 r.1
  unfolding handle_client_event
  handle_client_event_total fd now [] session s = ((stays session, s), refl, λ other. refl)
  handle_client_event_total fd now (end_of_file ∷ reads) session s =
      ((hung_up, hang_up fd s), refl, hang_up-HungUp fd s)
  handle_client_event_total fd now (broken ∷ reads) session s =
      ((hung_up, hang_up fd s), refl, hang_up-HungUp fd s)
  handle_client_event_total fd now (chunk bytes ∷ reads) session s =
      elim (Option-cases (session_feed session bytes)) [
        | inl overflow ↦ (
          (overflowed, close_connection fd (touched fd now s)),
          rw (handle_client_event, overflow) refl,
          overflow-EndsWell fd now s,
        )
        | inr (fed, f) ↦
            let (popped, p) =
              pop_lines_total (suc (length fed.buf)) line_size fed.buf (omega arith) in
            let turn =
              serve_lines-pop_lines double can_write (suc (length fed.buf)) fd now fed popped.1
                popped.0 (touched fd now s) p in
            let r = serve_all double can_write fd now popped.0 (touched fd now s) in
            elim (Bool-cases r.0) [
              | inl ok ↦
                  let (end, e, well) = handle_client_event_total fd now reads popped.1 r.1 in
                  (
                    end,
                    rw (handle_client_event, f) (rw (turn, pack_ok popped.1 r ok) e),
                    EndsWell-same fd s.table r.1.table end.0 end.1
                        (λ other.
                          ap (count other) (serve_all-table double can_write fd now popped.0 _ ok)
                          ∙ count-touch fd now other s.table)
                        well,
                  )
              | inr bad ↦ (
                (freed, r.1),
                rw (handle_client_event, f) (rw (turn, pack_bad popped.1 r bad) refl),
                EndsWell-same fd s.table (touch fd now s.table) freed r.1
                    (λ other. count-touch fd now other s.table)
                    (serve_all-HungUp fd now popped.0 (touched fd now s) bad),
              )
            ]
      ]
