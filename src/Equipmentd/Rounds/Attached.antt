-- ===== src/Equipmentd/Rounds/Attached.antt =====
-- services/equipmentd/src/main.c: where the remembered descriptors of the controllers lead.
use equipment_control.Equipmentd.Rounds.Kernel.{rounds_keep, process_of, plausible_event, plausible}
use equipment_control.Equipmentd.Rounds.Tracking.{
  start-IsTracked, serve_event_total, end_round_total, IsTracked,
}
use equipment_control.Equipmentd.Clients.Endings.{handle_client_event_total, EndsWell}
use equipment_control.Equipmentd.Clients.{
  Read, hung_up, freed, overflowed, stays, close_connection, ServerState, accept_client, Ended,
}
use equipment_control.Equipmentd.Connections.Scan.{count_closed}
use equipment_control.Prelude.{
  ◌≤◌, Bytes, ℕ, ◌+◌, ◌<◌, ◌≡◌, sym, Bool, true, false, List, [], ◌∷◌, ◌++◌, Option, none, some,
  arith, Option-cases, inl, inr, ◌==◌,
}
use equipment_control.Protocol.Double.{Double}
use equipment_control.Protocol.Session.{Session}
use equipment_control.Equipmentd.Connections.{ScanResult}
use equipment_control.Equipmentd.Server.{init_ctx, AppCtx, is_controller_fd, fd_eq}
use equipment_control.Equipmentd.Rounds.{
  readable, server_rounds, incoming, Flow, start, Event, serve_event, serve_client, end_round, Wait,
  remove_clients, handle_accept_event, Accepted, settle_client, close_idle, accept_one, Client,
  count_open, session_of, remove_client, Process,
}
use equipment_control.Equipmentd.Rounds.Counts.{
  count_open-put, count_open-remove, count_open-remove_all,
}
use equipment_control.Equipmentd.Rounds.Controllers.{
  after_events-OfControllers, handle_client_event-OfControllers, IfSome, OfControllers,
}

-- The descriptor is that of an open connection, or was closed with no look at the controllers.
abbrev pub IsKnown : {D : Type 0} → Process D → ℕ → Type 0
IsKnown p fd = 0 < count_open fd p.clients + count_closed fd p.unnoticed

-- Both controllers, if there are any, are at such descriptors.
abbrev pub IsAttached : {D : Type 0} → Process D → Type 0
IsAttached p = OfControllers (IsKnown p) p.server.ctx

session_of-open :
    (fd : ℕ) (cs : List Client) (session : Session)
    → session_of fd cs ≡ some session
    → 0 < count_open fd cs
unfolding session_of
session_of-open fd [] session h = cc
session_of-open fd (c ∷ rest) session h = ground (arith, session_of-open fd rest session)

count_closed-append :
    (fd : ℕ) (xs ys : List ℕ) → count_closed fd (xs ++ ys) ≡ count_closed fd xs + count_closed fd ys
count_closed-append fd [] ys = omega arith
count_closed-append fd (x ∷ xs) ys = ground (arith, count_closed-append fd xs ys)

IfSome-map : (P Q : ℕ → Type 0) (o : Option ℕ) → ((fd : ℕ) → P fd → Q fd) → IfSome P o → IfSome Q o
IfSome-map P Q none f h = tt
IfSome-map P Q (some fd) f h = f fd h

-- The same for a descriptor that is not the one that was forgotten.
IfSome-other :
    (P Q : ℕ → Type 0) (closed : ℕ) (o : Option ℕ)
    → fd_eq closed o ≡ false
    → ((fd : ℕ) → (closed == fd) ≡ false → P fd → Q fd)
    → IfSome P o
    → IfSome Q o
IfSome-other P Q closed none e f h = tt
IfSome-other P Q closed (some fd) e f h = f fd e h

still_known :
    (closed fd n : ℕ) (cs : List Client)
    → (closed == fd) ≡ false
    → 0 < count_open fd cs + n
    → 0 < count_open fd (remove_client closed cs) + n
still_known closed fd n cs e k = ground (arith, count_open-remove closed fd cs)

module _ {D : Type 0} where
  OfControllers-map :
      (P Q : ℕ → Type 0) (ctx : AppCtx D)
      → ((fd : ℕ) → P fd → Q fd)
      → OfControllers P ctx
      → OfControllers Q ctx
  OfControllers-map P Q ctx f h = (IfSome-map P Q ctx.pmc_fd f h.0, IfSome-map P Q ctx.tmc_fd f h.1)

  OfControllers-other :
      (P Q : ℕ → Type 0) (closed : ℕ) (ctx : AppCtx D)
      → is_controller_fd ctx closed ≡ false
      → ((fd : ℕ) → (closed == fd) ≡ false → P fd → Q fd)
      → OfControllers P ctx
      → OfControllers Q ctx
  unfolding is_controller_fd
  OfControllers-other P Q closed ctx e f h = (
    IfSome-other P Q closed ctx.pmc_fd (ground arith) f h.0,
    IfSome-other P Q closed ctx.tmc_fd (ground arith) f h.1,
  )

  settle-IsAttached :
      (fd : ℕ) (ended : Ended) (p : Process D) (s : ServerState D)
      → EndsWell fd p.server.table ended s
      → OfControllers (IsKnown p) s.ctx
      → IsAttached (settle_client fd ended (record p { server = s }))
  unfolding settle_client
  settle-IsAttached fd (stays session) p s w h =
      OfControllers-map (IsKnown p) _ s.ctx
        (λ other k. ground (arith, k, count_open-put fd session other p.clients)) h
  settle-IsAttached fd hung_up p s w h =
      OfControllers-other (IsKnown p) _ fd s.ctx w.forgotten
        (λ other e k. still_known fd other _ p.clients e k) h
  settle-IsAttached fd freed p s w h =
      OfControllers-other (IsKnown p) _ fd s.ctx w.forgotten
        (λ other e k. still_known fd other _ p.clients e k) h
  settle-IsAttached fd overflowed p s w h =
      OfControllers-map (IsKnown p) _ s.ctx
        (λ other k. ground (
          arith,
          k,
          count_open-remove fd other p.clients,
          count_closed-append other p.unnoticed (fd ∷ []),
        ))
        h

  accept_one-kept :
      (a : Accepted) (p : Process D)
      → ((accept_one a p).server.ctx ≡ p.server.ctx)
        × ((accept_one a p).unnoticed ≡ p.unnoticed)
        × ((fd : ℕ) → count_open fd p.clients ≤ count_open fd (accept_one a p).clients)
  unfolding accept_one accept_client close_connection
  accept_one-kept a p = (ground arith, ground arith, λ fd. ground arith)

  accept_one-IsAttached :
      (a : Accepted) (p : Process D) → IsAttached p → IsAttached (accept_one a p)
  accept_one-IsAttached a p h =
      let (ctx, unnoticed, grows) = accept_one-kept a p in
      rw ctx (
        OfControllers-map (IsKnown p) _ p.server.ctx
          (λ fd k. rw unnoticed (omega (arith, grows fd, k))) h)

  accepts-IsAttached :
      (accepted : List Accepted) (p : Process D)
      → IsAttached p
      → IsAttached (handle_accept_event accepted p)
  unfolding handle_accept_event
  accepts-IsAttached [] p h = h
  accepts-IsAttached (a ∷ rest) p h =
      accepts-IsAttached rest (accept_one a p) (accept_one-IsAttached a p h)

  close_idle-IsAttached :
      (p q : Process D) (r : ScanResult) → close_idle r p ≡ some q → IsAttached p → IsAttached q
  unfolding close_idle
  close_idle-IsAttached p q none e h = cc
  close_idle-IsAttached p q (some (kept, closed)) e h =
      let idle_gone : Process D = record {
        server = record p.server { table = kept };
        clients = remove_clients closed p.clients;
        unnoticed = p.unnoticed ++ closed;
      } in
      let same : idle_gone ≡ q = cc in
      let known =
        OfControllers-map (IsKnown p) (IsKnown idle_gone) p.server.ctx
          (λ fd k. ground (
            arith,
            k,
            count_open-remove_all closed fd p.clients,
            count_closed-append fd p.unnoticed closed,
          ))
          h in
      rw (sym same) known

module _ {D : Type 0} (double : Double D) (can_write : ℕ → Bytes → Bool) where
  serve_client-IsAttached :
      (fd now : ℕ) (reads : List Read) (p q : Process D)
      → serve_client double can_write fd now reads p ≡ some q
      → IsAttached p
      → IsAttached q
  unfolding serve_client
  serve_client-IsAttached fd now reads p q e h = elim (Option-cases (session_of fd p.clients)) [
    | inl unknown ↦
        let same : p ≡ q = (let e' = rw (serve_client, unknown) at e in cc) in rw (sym same) h
    | inr (session, known) ↦
        let ((ended, s), served, kept) =
          handle_client_event-OfControllers double can_write (IsKnown p) fd now reads session
            p.server (omega (arith, session_of-open fd p.clients session known)) h in
        let (r, again, well) =
          handle_client_event_total double can_write fd now reads session p.server in
        let twice : r ≡ (ended, s) = cc in
        let settled = settle-IsAttached fd ended p s (rw twice at well) kept in
        let same : settle_client fd ended (record p { server = s }) ≡ q =
          (let e' = rw (serve_client, known, served) at e in cc) in
        rw (sym same) settled
  ]

  start-IsAttached : (zero : D) → IsAttached (start zero)
  unfolding start init_ctx
  start-IsAttached zero = (tt, tt)

  -- Both invariants in one.
  abbrev IsSound : Process D → Type 0
  IsSound p = IsTracked p × IsAttached p

  serve_event-IsSound :
      (e : Event) (p : Process D)
      → plausible_event e p ≡ true
      → IsSound p
      → (q : Process D) × (serve_event double can_write e p ≡ some q) × IsSound q
  unfolding serve_event
  serve_event-IsSound (incoming accepted) p h s =
      let (q, e, tracked) = serve_event_total double can_write (incoming accepted) p h s.0 in
      let same : handle_accept_event accepted p ≡ q = cc in
      (q, e, (tracked, rw (sym same) (accepts-IsAttached accepted p s.1)))
  serve_event-IsSound (readable fd now reads) p h s =
      let (q, e, tracked) = serve_event_total double can_write (readable fd now reads) p h s.0 in
      (q, e, (tracked, serve_client-IsAttached fd now reads p q e s.1))

  end_round-IsSound :
      (end_ms scan_ms : ℕ) (p : Process D)
      → IsSound p
      → (q : Process D) × (end_round double can_write end_ms scan_ms p ≡ some q) × IsSound q
  unfolding end_round
  end_round-IsSound end_ms scan_ms p s =
      let (q, e, tracked) = end_round_total double can_write end_ms scan_ms p s.0 in
      (
        q,
        e,
        (
          tracked,
          close_idle-IsAttached _ q _ e
              (after_events-OfControllers double can_write (IsKnown p) end_ms p.server.ctx s.1),
        ),
      )

  -- In a run in which the kernel gives no descriptor that is open, the descriptor at which the server
  -- takes the process controller or the transfer controller to be is that of an open connection,
  -- unless its connection was closed by a session overflow or the scan for idle connections.
  pub server_rounds-IsAttached :
      (zero : D) (ws : List Wait)
      → plausible double can_write ws (start zero) ≡ true
      → (f : Flow D) × (server_rounds double can_write ws (start zero) ≡ some f)
        × IsAttached (process_of f)
  server_rounds-IsAttached zero ws h =
      let (f, e, s) =
        rounds_keep double can_write IsSound (λ e p. serve_event-IsSound e p)
          (λ end_ms scan_ms p. end_round-IsSound end_ms scan_ms p) ws (start zero) h
          (start-IsTracked zero, start-IsAttached zero) in
      (f, e, s.1)
