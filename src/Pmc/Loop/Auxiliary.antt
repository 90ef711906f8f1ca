-- ===== src/Pmc/Loop/Auxiliary.antt =====
-- nodes/pmc/src/main.c and pmc_router.c: the auxiliary device while a peer is served.
use equipment_control.Prelude.{
  ℕ, suc, ◌≡◌, refl, Bool, List, [], ◌∷◌, Option, none, some, arith, Bytes, length, Option-cases,
  inl, inr,
}
use equipment_control.Prelude.Int.{ℤ}
use equipment_control.Protocol.Double.{Double}
use equipment_control.Protocol.Message.{Message, MsgType}
use equipment_control.Protocol.Session.{Session, session_feed}
use equipment_control.Protocol.Session.Stream.{pop_lines_total}
use equipment_control.Protocol.Codec.Parse.{line_parse}
use equipment_control.Pmc.{
  PmcConnection, PeerType, peer_unknown, peer_eqd, peer_sim, SeqAction, route_to_sim,
  respond_cached_status, reject_missing_dev, reject_sim_not_found, reject_interlock,
  pmc_handle_register,
}
use equipment_control.Pmc.Auxiliary.{AuxState}
use equipment_control.Pmc.Apply.{Applied, applied, refused, pmc_io_apply_aux_for_command}
use equipment_control.Pmc.Snapshot.{Float, pmc_io_read_aux_snapshot}
use equipment_control.Pmc.Routing.{
  PmcState, reject, respond_status, forward_to_sim, apply_and_forward, act, route_request,
  route_event, route_by_peer, pmc_route_message,
}
use equipment_control.Pmc.Peer.{
  closed, buf_size, Read, chunk, end_of_file, broken, Served, conn_at, close_connection,
  handle_message, handle_line, then_line, handle_connected_peer,
}
use equipment_control.Pmc.Peer.Stream.{serve_all, serve_lines-pop_lines}

module _ {D F : Type 0} (double : Double D) (float : Float F) (can_write : ℕ → Bytes → Bool)
    (P : AuxState → Type 0)
    (on_command : (dev : ℤ) (type : MsgType) (s : AuxState)
      → P s
      → P (pmc_io_apply_aux_for_command dev type s).1)
    (on_snapshot : (dev : ℤ) (s : AuxState)
      → P s
      → P (pmc_io_read_aux_snapshot float dev s).1) where
  forward_to_sim_keeps :
      (fd : ℕ) (m : Message D) (target : PmcConnection) (state : PmcState) (result : Applied)
      → P state.aux
      → P (forward_to_sim double float can_write fd m target state result).state.aux
  unfolding forward_to_sim reject
  forward_to_sim_keeps fd m target state applied o = ground arith
  forward_to_sim_keeps fd m target state (refused text) o = ground arith

  act_keeps :
      (fd : ℕ) (m : Message D) (target : Option PmcConnection) (action : SeqAction)
      (state : PmcState)
      → P state.aux
      → P (act double float can_write fd m target action state).state.aux
  unfolding act reject respond_status apply_and_forward
  act_keeps fd m target reject_missing_dev state o = ground arith
  act_keeps fd m target reject_sim_not_found state o = ground arith
  act_keeps fd m target reject_interlock state o = ground arith
  act_keeps fd m (some sim) respond_cached_status state o =
      ground (arith, on_snapshot sim.dev_id state.aux o)
  act_keeps fd m (some sim) route_to_sim state o =
      forward_to_sim_keeps fd m sim _ _ (on_command _ m.type state.aux o)
  act_keeps fd m none respond_cached_status state o = o
  act_keeps fd m none route_to_sim state o = o

  route_event_keeps :
      (from : PmcConnection) (m : Message D) (state : PmcState)
      → P state.aux
      → P (route_event double float can_write from m state).state.aux
  unfolding route_event
  route_event_keeps from m state o = ground arith

  route_by_peer_keeps :
      (type : PeerType) (from : PmcConnection) (m : Message D) (state : PmcState)
      → P state.aux
      → P (route_by_peer double float can_write type from m state).state.aux
  unfolding route_by_peer route_request
  route_by_peer_keeps peer_eqd from m state o = act_keeps from.fd m _ _ state o
  route_by_peer_keeps peer_sim from m state o = route_event_keeps from m state o
  route_by_peer_keeps peer_unknown from m state o = o

  handle_message_keeps :
      (conn : PmcConnection) (m : Message D) (state : PmcState)
      → P state.aux
      → P (handle_message double float can_write conn m state).state.aux
  unfolding handle_message pmc_route_message
  handle_message_keeps conn m state o = elim (Option-cases (pmc_handle_register conn m)) [
    | inl no_register ↦
        rw (handle_message, no_register)
          (ground (arith, route_by_peer_keeps conn.type conn m state o))
    | inr (registered, e) ↦
        rw (handle_message, e) (ground (arith, route_by_peer_keeps conn.type conn m state o))
  ]

  handle_line_keeps :
      (fd : ℕ) (l : Bytes) (state : PmcState)
      → P state.aux
      → P (handle_line double float can_write fd l state).state.aux
  unfolding handle_line
  handle_line_keeps fd l state o = elim (Option-cases (line_parse double l)) [
    | inl bad ↦ rw (handle_line, bad) o
    | inr (m, e) ↦ elim (Option-cases (conn_at fd state.conns)) [
      | inl unknown ↦ rw (handle_line, e, unknown) o
      | inr (conn, c) ↦ rw (handle_line, e, c) (handle_message_keeps conn m state o)
    ]
  ]

  serve_all_keeps :
      (fd : ℕ) (ls : List Bytes) (s : Served)
      → P s.state.aux
      → P (serve_all double float can_write fd ls s).state.aux
  unfolding serve_all then_line
  serve_all_keeps fd [] s o = o
  serve_all_keeps fd (l ∷ ls) s o = serve_all_keeps fd ls _ (handle_line_keeps fd l s.state o)

  -- What every command and every reading of the device keeps is kept whatever a peer sends.
  pub handle_connected_peer_keeps :
      (fd : ℕ) (reads : List Read) (session : Session) (s : Served)
      → P s.state.aux
      → (r : Option Session × Served) × (handle_connected_peer double float can_write fd reads
            session s
          ≡ some r)
        × P r.1.state.aux
  unfolding handle_connected_peer close_connection
  handle_connected_peer_keeps fd [] session s o = ((some session, s), refl, o)
  handle_connected_peer_keeps fd (end_of_file ∷ reads) session s o =
      (closed double float can_write fd s, refl, o)
  handle_connected_peer_keeps fd (broken ∷ reads) session s o =
      (closed double float can_write fd s, refl, o)
  handle_connected_peer_keeps fd (chunk bytes ∷ reads) session s o =
      elim (Option-cases (session_feed session bytes)) [
        | inl overflow ↦
            (closed double float can_write fd s, rw (handle_connected_peer, overflow) refl, o)
        | inr (fed, f) ↦
            let (popped, p) =
              pop_lines_total (suc (length fed.buf)) buf_size fed.buf (omega arith) in
            let (r, e, kept) =
              handle_connected_peer_keeps fd reads popped.1
                (serve_all double float can_write fd popped.0 s)
                (serve_all_keeps fd popped.0 s o) in
            (
              r,
              rw (handle_connected_peer, f)
                  (rw
                    (
                      serve_lines-pop_lines double float can_write (suc (length fed.buf)) fd fed s,
                      p,
                    )
                    e),
              kept,
            )
      ]
