-- ===== src/Pmc/Loop/Rounds.antt =====
-- nodes/pmc/src/main.c: what every run of the loop keeps.
use equipment_control.Prelude.{
  ℕ, ◌≡◌, refl, sym, Bool, true, false, List, [], ◌∷◌, Option, none, some, arith, Bytes,
  Option-cases, inl, inr,
}
use equipment_control.Protocol.Double.{Double}
use equipment_control.Protocol.Session.{Session, session_init}
use equipment_control.Pmc.{pmc_alarm_init, pmc_conn_add}
use equipment_control.Pmc.Serial.{Port}
use equipment_control.Pmc.Auxiliary.{pmc_io_uart_aux_shutdown}
use equipment_control.Pmc.Auxiliary.Held.{Owns, clear-held, configure-Owns, shut}
use equipment_control.Pmc.Lifetime.{command-Owns, snapshot-Owns, aux_at_start}
use equipment_control.Pmc.Snapshot.{Float}
use equipment_control.Pmc.Routing.{PmcState, put_conn}
use equipment_control.Pmc.Peer.{Read, new_connection, connect_to_eqd}
use equipment_control.Pmc.Peer.Descriptors.{fds, handle_connected_peer_total}
use equipment_control.Pmc.Loop.{
  Environment, configure_aux, or_older, session_of, Event, incoming, readable, Wait, interrupted,
  wait_failed, ready, Process, Flow, goes_on, over, accept_all, settle_client, shut_down, pmc_start,
  serve_peer, serve_event, serve_events, pmc_round, pmc_rounds,
}
use equipment_control.Pmc.Loop.Auxiliary.{handle_connected_peer_keeps}
use equipment_control.Pmc.Loop.Listed.{IsListed, accepts-IsListed, accepts-aux, settle-IsListed}
use equipment_control.Pmc.Loop.Kernel.{
  plausible_event, plausible_events, plausible_round, plausible, plausible_events_step,
  plausible_step, plausible_first,
}

-- While the loop goes on, at most one descriptor is held for the auxiliary device, besides `base`; after
-- it, none.
pub data IsReleased (base : List ℕ) : Flow → Type 0 where
  running : {p : Process} → IsListed p → Owns base p.served.state.aux → IsReleased base (goes_on p)
  released : {p : Process} → p.served.state.aux.port.held ≡ base → IsReleased base (over p)

settle-Owns :
    (base : List ℕ) (fd : ℕ) (o : Option Session) (p : Process)
    → Owns base p.served.state.aux
    → Owns base (settle_client fd o p).served.state.aux
unfolding settle_client
settle-Owns base fd none p h = h
settle-Owns base fd (some session) p h = h

configure_aux-Owns :
    (atoi : Bytes → ℕ) (env : Environment) (port : Port)
    → Owns port.held (configure_aux atoi env (aux_at_start port))
unfolding configure_aux
configure_aux-Owns atoi env port =
    let o : Owns port.held (aux_at_start port) = shut refl refl refl refl in
    elim (Option-cases (or_older env.aux_port env.pico_port)) [
      | inl unset ↦ rw (configure_aux, unset) o
      | inr (path, set) ↦ rw (configure_aux, set) (configure-Owns port.held path _ _ o)
    ]

module _ {D F : Type 0} (double : Double D) (float : Float F) (can_write : ℕ → Bytes → Bool) where
  -- What holds of the process in the loop.
  abbrev IsSound : List ℕ → Process → Type 0
  IsSound base p = IsListed p × Owns base p.served.state.aux

  serve_peer-IsSound :
      (base : List ℕ) (fd : ℕ) (reads : List Read) (p : Process)
      → IsSound base p
      → (q : Process) × (serve_peer double float can_write fd reads p ≡ some q) × IsSound base q
  unfolding serve_peer settle_client
  serve_peer-IsSound base fd reads p (l, o) = elim (Option-cases (session_of fd p.clients)) [
    | inl unknown ↦ (p, rw (serve_peer, unknown) refl, (l, o))
    | inr (session, known) ↦
        let (r, e, kept) =
          handle_connected_peer_total double float can_write fd reads session p.served in
        let (r', e', owns) =
          handle_connected_peer_keeps double float can_write (Owns base)
            (λ dev type s. command-Owns base dev type s) (λ dev s. snapshot-Owns float base dev s)
            fd reads session p.served o in
        let same : r' ≡ r = cc in
        (
          settle_client fd r.0 (record p { served = r.1 }),
          rw (serve_peer, known, e) refl,
          (
            settle-IsListed fd r.0 p r.1 kept l,
            settle-Owns base fd r.0 (record p { served = r.1 }) (rw same at owns),
          ),
        )
  ]

  serve_event-IsSound :
      (base : List ℕ) (e : Event) (p : Process)
      → plausible_event e p ≡ true
      → IsSound base p
      → (q : Process) × (serve_event double float can_write e p ≡ some q) × IsSound base q
  unfolding serve_event plausible_event
  serve_event-IsSound base (incoming accepted) p h (l, o) = (
    accept_all accepted p,
    refl,
    (accepts-IsListed accepted p h l, rw (accepts-aux accepted p) o),
  )
  serve_event-IsSound base (readable fd reads) p h s = serve_peer-IsSound base fd reads p s

  serve_events-IsSound :
      (base : List ℕ) (es : List Event) (p : Process)
      → plausible_events double float can_write es p ≡ true
      → IsSound base p
      → (q : Process) × (serve_events double float can_write es p ≡ some q) × IsSound base q
  unfolding serve_events plausible_events
  serve_events-IsSound base [] p h s = (p, refl, s)
  serve_events-IsSound base (e ∷ es) p h s =
      let (q, first, sq) = serve_event-IsSound base e p (ground arith) s in
      let (r, last, sr) =
        serve_events-IsSound base es q
          (plausible_events_step double float can_write e es p q first h) sq in
      (r, rw (serve_events, first) last, sr)

  pmc_round-IsReleased :
      (base : List ℕ) (w : Wait) (p : Process)
      → plausible_round double float can_write w p ≡ true
      → IsSound base p
      → (f : Flow) × (pmc_round double float can_write w p ≡ some f) × IsReleased base f
  unfolding pmc_round plausible_round shut_down pmc_io_uart_aux_shutdown
  pmc_round-IsReleased base interrupted p h s = (goes_on p, refl, running s.0 s.1)
  pmc_round-IsReleased base wait_failed p h s =
      (over (shut_down p), refl, released (clear-held base p.served.state.aux s.1))
  pmc_round-IsReleased base (ready events) p h s =
      let (q, run, sq) = serve_events-IsSound base events p h s in
      (goes_on q, rw (pmc_round, run) refl, running sq.0 sq.1)

  rounds_by :
      (base : List ℕ) (w : Wait) (ws : List Wait) (p : Process) (f : Flow)
      → pmc_round double float can_write w p ≡ some f
      → plausible double float can_write (w ∷ ws) p ≡ true
      → IsReleased base f
      → ((q : Process)
          → plausible double float can_write ws q ≡ true
          → IsSound base q
          → (g : Flow) × (pmc_rounds double float can_write ws q ≡ some g) × IsReleased base g)
      → (g : Flow) × (pmc_rounds double float can_write (w ∷ ws) p ≡ some g) × IsReleased base g
  unfolding pmc_rounds
  rounds_by base w ws p (goes_on q) e h (running l o) next =
      let (g, last, good) = next q (plausible_step double float can_write w ws p q e h) (l, o) in
      (g, rw (pmc_rounds, e) last, good)
  rounds_by base w ws p (over q) e h off next = (over q, rw (pmc_rounds, e) refl, off)

  rounds_from :
      (base : List ℕ) (ws : List Wait) (p : Process)
      → plausible double float can_write ws p ≡ true
      → IsSound base p
      → (f : Flow) × (pmc_rounds double float can_write ws p ≡ some f) × IsReleased base f
  unfolding pmc_rounds
  rounds_from base [] p h s = (goes_on p, refl, running s.0 s.1)
  rounds_from base (w ∷ ws) p h s =
      let (f, e, good) =
        pmc_round-IsReleased base w p (plausible_first double float can_write w ws p h) s in
      rounds_by base w ws p f e h good (λ q. rounds_from base ws q)

  connect-fds :
      (fd : ℕ) (state : PmcState)
      → let s = (connect_to_eqd double can_write (some fd) true state).1 in
        (fds s.state ≡ fd ∷ fds state) × (s.state.aux ≡ state.aux)
  unfolding connect_to_eqd put_conn pmc_conn_add new_connection
  connect-fds fd state = (ground arith, refl)

  pmc_start-IsSound :
      (atoi : Bytes → ℕ) (env : Environment) (port : Port) (eqd : Option ℕ) (polled : Bool)
      (p : Process)
      → pmc_start double float can_write atoi env port eqd polled ≡ some p
      → IsSound port.held p
  unfolding pmc_start connect_to_eqd
  pmc_start-IsSound atoi env port none polled p h = cc
  pmc_start-IsSound atoi env port (some eqd) false p h = cc
  pmc_start-IsSound atoi env port (some eqd) true p h =
      let state : PmcState = record {
        conns = [];
        alarm = pmc_alarm_init;
        aux = configure_aux atoi env (aux_at_start port);
      } in
      let begun : Process = record {
        served = (connect_to_eqd double can_write (some eqd) true state).1;
        clients = record { fd = eqd; session = session_init } ∷ [];
      } in
      let same : begun ≡ p = cc in
      let (listed, aux) = connect-fds eqd state in
      let sound : IsSound port.held begun = (
        record { listed = listed; distinct = λ fd. ground arith },
        rw aux (configure_aux-Owns atoi env port),
      ) in
      rw (sym same) sound

  -- Once the controller has connected to the equipment server, whatever its peers do and in whatever order,
  -- its loop never gets stuck, as long as the kernel gives no descriptor that is open. While it goes on,
  -- the list of connections is that of the open ones, with distinct descriptors, and at most one
  -- descriptor is held for the auxiliary device; when the loop is left, none is.
  pub pmc_rounds-IsReleased :
      (atoi : Bytes → ℕ) (env : Environment) (port : Port) (eqd : Option ℕ) (polled : Bool)
      (ws : List Wait) (p : Process)
      → pmc_start double float can_write atoi env port eqd polled ≡ some p
      → plausible double float can_write ws p ≡ true
      → (f : Flow) × (pmc_rounds double float can_write ws p ≡ some f) × IsReleased port.held f
  pmc_rounds-IsReleased atoi env port eqd polled ws p started h =
      rounds_from port.held ws p h (pmc_start-IsSound atoi env port eqd polled p started)
