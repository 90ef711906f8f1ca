-- ===== src/Pmc/Peer/Descriptors.antt =====
-- nodes/pmc/src/main.c: the connections that the list holds, by their descriptors.
use equipment_control.Prelude.{
  ℕ, suc, ◌≡◌, refl, ◌∙◌, ap, Bool, List, [], ◌∷◌, Option, none, some, arith, Bytes, length, map,
  ◌==◌, if◌then◌else◌, Option-cases, inl, inr,
}
use equipment_control.Protocol.Double.{Double}
use equipment_control.Protocol.Message.{Message}
use equipment_control.Protocol.Session.{Session, session_feed}
use equipment_control.Protocol.Codec.Parse.{line_parse}
use equipment_control.Pmc.{
  PmcConnection, PeerType, peer_unknown, peer_eqd, peer_sim, SeqAction, route_to_sim,
  respond_cached_status, reject_missing_dev, reject_sim_not_found, reject_interlock,
  remember_status, pmc_handle_register, pmc_conn_remove,
}
use equipment_control.Pmc.Apply.{Applied, applied, refused}
use equipment_control.Pmc.Snapshot.{Float}
use equipment_control.Pmc.Routing.{
  PmcState, put_conn, reject, respond_status, forward_to_sim, apply_and_forward, act, route_request,
  route_event, route_by_peer, pmc_route_message,
}
use equipment_control.Pmc.Peer.{
  closed, buf_size, Read, chunk, end_of_file, broken, Served, conn_at, close_connection,
  handle_message, handle_line, then_line, handle_connected_peer,
}
use equipment_control.Pmc.Peer.Stream.{serve_all, serve_lines-pop_lines}
use equipment_control.Protocol.Session.Stream.{pop_lines_total}

-- The descriptors of the connections, in the order of the list.
abbrev pub fds : PmcState → List ℕ
fds state = map (λ c. c.fd) state.conns

abbrev pub without : ℕ → List ℕ → List ℕ
without fd [] = []
without fd (x ∷ xs) = if x == fd then xs else x ∷ without fd xs

map_fd-put_conn :
    (new : PmcConnection) (conns : List PmcConnection)
    → map (λ c. c.fd) (put_conn new conns) ≡ map (λ c. c.fd) conns
unfolding put_conn
map_fd-put_conn new [] = refl
map_fd-put_conn new (c ∷ rest) = ground (arith, map_fd-put_conn new rest)

map_fd-remove :
    (fd : ℕ) (conns : List PmcConnection)
    → map (λ c. c.fd) (pmc_conn_remove fd conns) ≡ without fd (map (λ c. c.fd) conns)
unfolding pmc_conn_remove
map_fd-remove fd [] = refl
map_fd-remove fd (c ∷ rest) = ground (arith, map_fd-remove fd rest)

-- The descriptors that are left, by whether there still is a session.
abbrev pub left : Option Session → ℕ → List ℕ → List ℕ
left none fd l = without fd l
left (some session) fd l = l

module _ {D F : Type 0} (double : Double D) (float : Float F) (can_write : ℕ → Bytes → Bool) where
  forward_to_sim-conns :
      (fd : ℕ) (m : Message D) (target : PmcConnection) (state : PmcState) (result : Applied)
      → (forward_to_sim double float can_write fd m target state result).state.conns ≡ state.conns
  unfolding forward_to_sim reject
  forward_to_sim-conns fd m target state applied = ground arith
  forward_to_sim-conns fd m target state (refused text) = ground arith

  act-conns :
      (fd : ℕ) (m : Message D) (target : Option PmcConnection) (action : SeqAction)
      (state : PmcState)
      → (act double float can_write fd m target action state).state.conns ≡ state.conns
  unfolding act reject respond_status apply_and_forward
  act-conns fd m target reject_missing_dev state = ground arith
  act-conns fd m target reject_sim_not_found state = ground arith
  act-conns fd m target reject_interlock state = ground arith
  act-conns fd m (some sim) respond_cached_status state = ground arith
  act-conns fd m (some sim) route_to_sim state = forward_to_sim-conns fd m sim _ _
  act-conns fd m none respond_cached_status state = refl
  act-conns fd m none route_to_sim state = refl

  route_event-fds :
      (from : PmcConnection) (m : Message D) (state : PmcState)
      → fds (route_event double float can_write from m state).state ≡ fds state
  unfolding route_event
  route_event-fds from m state =
      ground (arith, map_fd-put_conn (remember_status from m) state.conns)

  route_by_peer-fds :
      (type : PeerType) (from : PmcConnection) (m : Message D) (state : PmcState)
      → fds (route_by_peer double float can_write type from m state).state ≡ fds state
  unfolding route_by_peer route_request
  route_by_peer-fds peer_eqd from m state = ap (map (λ c. c.fd)) (act-conns from.fd m _ _ state)
  route_by_peer-fds peer_sim from m state = route_event-fds from m state
  route_by_peer-fds peer_unknown from m state = refl

  route_message-fds :
      (from : PmcConnection) (m : Message D) (state : PmcState)
      → fds (pmc_route_message double float can_write from m state).state ≡ fds state
  unfolding pmc_route_message
  route_message-fds from m state = ground (arith, route_by_peer-fds from.type from m state)

  handle_message-fds :
      (conn : PmcConnection) (m : Message D) (state : PmcState)
      → fds (handle_message double float can_write conn m state).state ≡ fds state
  unfolding handle_message
  handle_message-fds conn m state = elim (Option-cases (pmc_handle_register conn m)) [
    | inl no_register ↦
        rw (handle_message, no_register) (ground (arith, route_message-fds conn m state))
    | inr (registered, e) ↦
        rw (handle_message, e)
          (ground (arith, route_message-fds conn m state, map_fd-put_conn registered state.conns))
  ]

  handle_line-fds :
      (fd : ℕ) (l : Bytes) (state : PmcState)
      → fds (handle_line double float can_write fd l state).state ≡ fds state
  unfolding handle_line
  handle_line-fds fd l state = elim (Option-cases (line_parse double l)) [
    | inl bad ↦ rw (handle_line, bad) refl
    | inr (m, e) ↦ elim (Option-cases (conn_at fd state.conns)) [
      | inl unknown ↦ rw (handle_line, e, unknown) refl
      | inr (conn, c) ↦ rw (handle_line, e, c) (handle_message-fds conn m state)
    ]
  ]

  serve_all-fds :
      (fd : ℕ) (ls : List Bytes) (s : Served)
      → fds (serve_all double float can_write fd ls s).state ≡ fds s.state
  unfolding serve_all then_line
  serve_all-fds fd [] s = refl
  serve_all-fds fd (l ∷ ls) s = serve_all-fds fd ls _ ∙ handle_line-fds fd l s.state

  closed-fds :
      (fd : ℕ) (s : Served)
      → fds (closed double float can_write fd s).1.state ≡ without fd (fds s.state)
  unfolding close_connection
  closed-fds fd s = map_fd-remove fd s.state.conns

  -- Whatever a peer sends, and however its reads end, the call ends: the fuel of each loop over lines is
  -- enough. The connection is the only one that can leave the list, and it leaves exactly when its session
  -- does: at the end of the stream, a read error or an overflow.
  pub handle_connected_peer_total :
      (fd : ℕ) (reads : List Read) (session : Session) (s : Served)
      → (r : Option Session × Served) × (handle_connected_peer double float can_write fd reads
            session s
          ≡ some r)
        × (fds r.1.state ≡ left r.0 fd (fds s.state))
  unfolding handle_connected_peer
  handle_connected_peer_total fd [] session s = ((some session, s), refl, refl)
  handle_connected_peer_total fd (end_of_file ∷ reads) session s =
      (closed double float can_write fd s, refl, closed-fds fd s)
  handle_connected_peer_total fd (broken ∷ reads) session s =
      (closed double float can_write fd s, refl, closed-fds fd s)
  handle_connected_peer_total fd (chunk bytes ∷ reads) session s =
      elim (Option-cases (session_feed session bytes)) [
        | inl overflow ↦ (
          closed double float can_write fd s,
          rw (handle_connected_peer, overflow) refl,
          closed-fds fd s,
        )
        | inr (fed, f) ↦
            let (popped, p) =
              pop_lines_total (suc (length fed.buf)) buf_size fed.buf (omega arith) in
            let (r, e, kept) =
              handle_connected_peer_total fd reads popped.1
                (serve_all double float can_write fd popped.0 s) in
            (
              r,
              rw (handle_connected_peer, f)
                  (rw
                    (
                      serve_lines-pop_lines double float can_write (suc (length fed.buf)) fd fed s,
                      p,
                    )
                    e),
              kept ∙ ap (left r.0 fd) (serve_all-fds fd popped.0 s),
            )
      ]
