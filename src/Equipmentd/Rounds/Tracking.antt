-- ===== src/Equipmentd/Rounds/Tracking.antt =====
-- services/equipmentd/src/main.c: the connections that are open and those in the table.
use equipment_control.Equipmentd.Rounds.Kernel.{
  plausible_accepts, plausible_event, plausible, process_of, rounds_keep,
}
use equipment_control.Equipmentd.Rounds.{server_rounds, Flow, start}
use equipment_control.Protocol.Double.{Double}
use equipment_control.Prelude.{
  not, inr, inl, Option-cases, some, Bytes, ℕ, ◌+◌, ◌≤◌, ◌≡◌, refl, Bool, true, false, ◌&&◌, List,
  [], ◌∷◌, ◌++◌, arith, if◌then◌else◌, ◌==◌,
}
use equipment_control.Equipmentd.Connections.{ScanResult, Connection}
use equipment_control.Equipmentd.Connections.Scan.{
  scanned, scan_connection_timeout-Scanned, Scanned, count_if, is_old,
}
use equipment_control.Equipmentd.Clients.{
  Read, Ended, stays, hung_up, overflowed, freed, ServerState, accept_client, close_connection,
}
use equipment_control.Equipmentd.Clients.Endings.{
  handle_client_event_total, count, IsRemoved, EndsWell,
}
use equipment_control.Equipmentd.Rounds.{
  session_of, readable, incoming, serve_event, serve_client, end_round, Wait, Event, close_idle,
  count_open, is_open, remove_client, remove_clients, Accepted, Process, accept_one,
  handle_accept_event, settle_client,
}
use equipment_control.Equipmentd.Rounds.Counts.{
  count_open-put, count_open-remove, count_open-remove_all, count-split, count-count_if,
  accept-count,
}

module _ {D : Type 0} where
  -- The descriptors of the open connections are distinct, and the table holds only open connections, each
  -- at most once.
  pub record IsTracked (p : Process D) : Type 0 where
    pub distinct : (fd : ℕ) → count_open fd p.clients ≤ 1
    pub held : (fd : ℕ) → count fd p.server.table ≤ count_open fd p.clients

module _ {D : Type 0} where
  accept_client-count :
      (polled : Bool) (fd now other : ℕ) (s : ServerState D)
      → count fd s.table ≡ 0
      → count other (accept_client polled fd now s).table
        ≤ (if polled && (fd == other) then 1 else 0) + count other s.table
  unfolding accept_client close_connection
  accept_client-count polled fd now other s h = ground (arith, accept-count s.table fd now other h)

  accept_one-IsTracked :
      (a : Accepted) (p : Process D)
      → is_open a.fd p.clients ≡ false
      → IsTracked p
      → IsTracked (accept_one a p)
  unfolding accept_one
  accept_one-IsTracked a p fresh t = record {
    distinct = λ fd. ground (arith, t.distinct fd);
    held = λ fd. ground (
      arith,
      t.held fd,
      accept_client-count a.polled a.fd a.now fd p.server (ground (arith, t.held a.fd)),
    );
  }

  pub accepts-IsTracked :
      (accepted : List Accepted) (p : Process D)
      → plausible_accepts accepted p ≡ true
      → IsTracked p
      → IsTracked (handle_accept_event accepted p)
  unfolding handle_accept_event plausible_accepts
  accepts-IsTracked [] p h t = t
  accepts-IsTracked (a ∷ rest) p h t =
      accepts-IsTracked rest (accept_one a p) (ground arith)
        (accept_one-IsTracked a p (ground arith) t)

  -- A connection leaves both lists.
  removed-IsTracked :
      (fd : ℕ) (p q : Process D)
      → q.clients ≡ remove_client fd p.clients
      → IsRemoved fd p.server.table q.server.table
      → IsTracked p
      → IsTracked q
  removed-IsTracked fd p q e r t = record {
    distinct =
        λ other. rw e (ground (arith, t.distinct other, count_open-remove fd other p.clients));
    held = λ other. rw e (
        ground
          (arith, t.held other, t.distinct other, r other, count_open-remove fd other p.clients));
  }

  settle-IsTracked :
      (fd : ℕ) (ended : Ended) (p : Process D) (s : ServerState D)
      → EndsWell fd p.server.table ended s
      → IsTracked p
      → IsTracked (settle_client fd ended (record p { server = s }))
  unfolding settle_client
  settle-IsTracked fd (stays session) p s h t = record {
    distinct = λ other. ground (arith, t.distinct other, count_open-put fd session other p.clients);
    held =
        λ other. ground (arith, h other, t.held other, count_open-put fd session other p.clients);
  }
  settle-IsTracked fd hung_up p s h t = removed-IsTracked fd p _ refl h.removed t
  settle-IsTracked fd freed p s h t = removed-IsTracked fd p _ refl h.removed t
  settle-IsTracked fd overflowed p s h t = removed-IsTracked fd p _ refl h t

  idle_closed :
      (p : Process D) (now : ℕ) (kept : List Connection) (closed : List ℕ)
      → ((test : Connection → Bool)
          → count_if test kept ≡ count_if (λ c. test c && not (is_old now c)) p.server.table)
      → ((test : ℕ → Bool)
          → count_if test closed ≡ count_if (λ c. test c.fd && is_old now c) p.server.table)
      → IsTracked p
      → (other : ℕ) → count other kept ≤ count_open other (remove_clients closed p.clients)
  idle_closed p now kept closed k l t other = ground (
    arith,
    k (λ c. c.fd == other),
    l (λ c. c == other),
    t.held other,
    t.distinct other,
    count-count_if other kept,
    count-split now other p.server.table,
    count_open-remove_all closed other p.clients,
  )

  close_idle-IsTracked :
      (p : Process D) (now : ℕ) (r : ScanResult)
      → Scanned now p.server.table r
      → IsTracked p
      → (q : Process D) × (close_idle r p ≡ some q) × IsTracked q
  unfolding close_idle
  close_idle-IsTracked p now r (scanned kept closed e k l) t = (
    record {
      server = record p.server { table = kept };
      clients = remove_clients closed p.clients;
      unnoticed = p.unnoticed ++ closed;
    },
    rw e refl,
    record {
      distinct =
          λ other. ground (arith, t.distinct other, count_open-remove_all closed other p.clients);
      held = idle_closed p now kept closed k l t;
    },
  )

  pub start-IsTracked : (zero : D) → IsTracked (start zero)
  unfolding start
  start-IsTracked zero = record { distinct = λ fd. omega arith; held = λ fd. omega arith }

module _ {D : Type 0} (double : Double D) (can_write : ℕ → Bytes → Bool) where
  serve_client_total :
      (fd now : ℕ) (reads : List Read) (p : Process D)
      → IsTracked p
      → (q : Process D) × (serve_client double can_write fd now reads p ≡ some q) × IsTracked q
  unfolding serve_client
  serve_client_total fd now reads p t = elim (Option-cases (session_of fd p.clients)) [
    | inl unknown ↦ (p, rw (serve_client, unknown) refl, t)
    | inr (session, known) ↦
        let ((ended, s), e, well) =
          handle_client_event_total double can_write fd now reads session p.server in
        (
          settle_client fd ended (record p { server = s }),
          rw (serve_client, known, e) refl,
          settle-IsTracked fd ended p s well t,
        )
  ]

  pub serve_event_total :
      (e : Event) (p : Process D)
      → plausible_event e p ≡ true
      → IsTracked p
      → (q : Process D) × (serve_event double can_write e p ≡ some q) × IsTracked q
  unfolding serve_event plausible_event
  serve_event_total (incoming accepted) p h t =
      (handle_accept_event accepted p, refl, accepts-IsTracked accepted p h t)
  serve_event_total (readable fd now reads) p h t = serve_client_total fd now reads p t

  pub end_round_total :
      (end_ms scan_ms : ℕ) (p : Process D)
      → IsTracked p
      → (q : Process D) × (end_round double can_write end_ms scan_ms p ≡ some q) × IsTracked q
  unfolding end_round
  end_round_total end_ms scan_ms p t =
      close_idle-IsTracked _ scan_ms _ (scan_connection_timeout-Scanned p.server.table scan_ms)
        (record { distinct = t.distinct; held = t.held })

  -- However many clients come and go, and in whatever order their events come, the loop never gets stuck:
  -- the fuel of each loop in it is enough. As long as the kernel gives no descriptor that is open,
  -- the descriptors of the open connections are distinct, and the table holds only open connections,
  -- each at most once.
  pub server_rounds-IsTracked :
      (zero : D) (ws : List Wait)
      → plausible double can_write ws (start zero) ≡ true
      → (f : Flow D) × (server_rounds double can_write ws (start zero) ≡ some f)
        × IsTracked (process_of f)
  unfolding start
  server_rounds-IsTracked zero ws h =
      rounds_keep double can_write IsTracked (λ e p. serve_event_total e p)
        (λ end_ms scan_ms p. end_round_total end_ms scan_ms p) ws (start zero) h
        (start-IsTracked zero)
