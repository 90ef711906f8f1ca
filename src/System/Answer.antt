-- ===== src/System/Answer.antt =====
-- nodes/pmc and services/equipmentd together: the answer of a device on its way back to the client that
-- asked. The processes share nothing but the bytes between them.
use equipment_control.Prelude.{
  ltb, length-append, ℕ, ◌+◌, ◌≡◌, refl, ◌∙◌, ap, sym, Bool, true, false, List, [], ◌∷◌, ◌++◌, none,
  some, arith, Bytes, length, if◌then◌else◌,
}
use equipment_control.Protocol.Double.{Double}
use equipment_control.Protocol.Message.{Message, MsgType, type_eq}
use equipment_control.Protocol.Codec.Format.{line_format}
use equipment_control.Protocol.Codec.Numbers.{print_unsigned, print_int}
use equipment_control.Protocol.Codec.Render.{render, key_words, opt_word}
use equipment_control.Protocol.Codec.Sendable.{IsSendable, received}
use equipment_control.Protocol.Codec.RoundTrip.{line_parse-render}
use equipment_control.Protocol.Codec.Bounds.{IsBrief, line_format-brief}
use equipment_control.Protocol.Codec.Render.{line_format-render}
use equipment_control.Equipmentd.Tracker.{PendingRequest, RequestTracker}
use equipment_control.Equipmentd.Tracker.Lookup.{UniqueKeys, lookup_request}
use equipment_control.Equipmentd.Server.{handle_one_line, handle_parsed, AppCtx, is_controller_fd}
use equipment_control.Equipmentd.Server.Relay.{handle_message_relays, IsAnswer, Forgotten}
use equipment_control.Pmc.{PmcConnection, peer_sim, remember_status, pmc_find_eqd}
use equipment_control.Pmc.Snapshot.{Float}
use equipment_control.Pmc.Messages.{pmc_io_send_message}
use equipment_control.Pmc.Routing.{
  PmcState, put_conn, pmc_route_message, route_by_peer, route_event,
}
use equipment_control.Pmc.Peer.{conn_at, handle_line}
use equipment_control.System.{received-type, handle_line-route, send_line-formatted}

-- A value that is there or is not read.
keep_word :
    {A : Type 0} (has : Bool) (key : Bytes) (print : A → Bytes) (a other : A)
    → opt_word has key (print (if has then a else other)) ≡ opt_word has key (print a)
keep_word true key print a other = refl
keep_word false key print a other = refl

module _ {D : Type 0} (double : Double D) where
  -- What is read of a message with no measurement has the same text.
  render-received :
      (m : Message D) → IsBrief m → render double (received double m) ≡ render double m
  unfolding render key_words received
  render-received m b =
      rw
        (
          b.no_temp,
          b.no_pressure,
          b.no_flow,
          keep_word m.has_dev _ print_unsigned m.dev 0,
          keep_word m.has_seq _ print_unsigned m.seq 0,
          keep_word m.has_ok _ print_int m.ok _,
          keep_word m.has_state _ (λ x. x) m.state [],
          keep_word m.has_code _ print_int m.code _,
          keep_word m.has_msg _ (λ x. x) m.msg [],
        )
        refl

  -- So it is written as the line that it was read from.
  format_received :
      (m : Message D)
      → IsBrief m
      → line_format double (received double m) 512 ≡ some (render double m ++ b'\n' ∷ [])
  format_received m b =
      line_format-render double (received double m) 512
      ∙ ap (λ r. if ltb 512 (length r + 2) then none else some (r ++ b'\n' ∷ []))
          (render-received m b)
      ∙ sym (line_format-render double m 512)
      ∙ (line_format-brief double m b).0

  received-IsAnswer :
      (m : Message D)
      → IsAnswer m
      → IsAnswer (received double m)
        × ((received double m).seq ≡ m.seq)
        × ((received double m).dev ≡ m.dev)
  unfolding received
  received-IsAnswer m a = (
    record { is_resp = a.is_resp; numbered = a.numbered; addressed = a.addressed },
    simp a.numbered refl,
    simp a.addressed refl,
  )

-- The request that is forgotten, with its number and device spelled in another way.
Forgotten-at :
    (before after : RequestTracker) (s d s2 d2 : ℕ)
    → s2 ≡ s
    → d2 ≡ d
    → Forgotten before after s2 d2
    → Forgotten before after s d
Forgotten-at before after s d s2 d2 e f h = rw (← e, ← f) h

-- A device that takes the place of itself does not hide the server.
find_eqd-put_conn :
    (conns : List PmcConnection) (from new : PmcConnection)
    → conn_at new.fd conns ≡ some from
    → from.type ≡ peer_sim
    → new.type ≡ peer_sim
    → pmc_find_eqd (put_conn new conns) ≡ pmc_find_eqd conns
unfolding pmc_find_eqd put_conn conn_at
find_eqd-put_conn [] from new c f n = cc
find_eqd-put_conn (c ∷ rest) from new h f n = ground (arith, find_eqd-put_conn rest from new)

conn_at-fd :
    (fd : ℕ) (conns : List PmcConnection) (c : PmcConnection)
    → conn_at fd conns ≡ some c
    → c.fd ≡ fd
unfolding conn_at
conn_at-fd fd [] c h = cc
conn_at-fd fd (d ∷ rest) c h = ground (arith, conn_at-fd fd rest c)

module _ {D F : Type 0} (double : Double D) (float : Float F) (can_write : ℕ → Bytes → Bool) where
  remember_status-same :
      (from : PmcConnection) (m : Message D)
      → ((remember_status from m).fd ≡ from.fd) × ((remember_status from m).type ≡ from.type)
  unfolding remember_status
  remember_status-same from m = ground arith

  send_message-formatted :
      (fd : ℕ) (m : Message D) (l : Bytes)
      → line_format double m 512 ≡ some l
      → can_write fd l ≡ true
      → pmc_io_send_message double can_write fd m ≡ some ((fd, l) ∷ [])
  unfolding pmc_io_send_message
  send_message-formatted fd m l f w = rw (pmc_io_send_message, f) (simp w)

  -- An event of a device goes to the server.
  route_event-sent :
      (from eqd : PmcConnection) (m : Message D) (state : PmcState) (sent : List (ℕ × Bytes))
      → pmc_find_eqd (put_conn (remember_status from m) state.conns) ≡ some eqd
      → pmc_io_send_message double can_write eqd.fd m ≡ some sent
      → (route_event double float can_write from m state).sent ≡ sent
  unfolding route_event
  route_event-sent from eqd m state sent e s = rw (route_event, e, s) refl

  route_message-sent :
      (fd : ℕ) (from eqd : PmcConnection) (m : Message D) (state : PmcState)
      (sent : List (ℕ × Bytes))
      → conn_at fd state.conns ≡ some from
      → from.registered ≡ true
      → from.type ≡ peer_sim
      → type_eq m.type MsgType.register ≡ false
      → pmc_find_eqd state.conns ≡ some eqd
      → pmc_io_send_message double can_write eqd.fd m ≡ some sent
      → (pmc_route_message double float can_write from m state).sent ≡ sent
  unfolding pmc_route_message route_by_peer
  route_message-sent fd from eqd m state sent c r y n e s =
      let (same_fd, same_type) = remember_status-same from m in
      let placed =
        find_eqd-put_conn state.conns from (remember_status from m)
          (ap (λ x. conn_at x state.conns) (same_fd ∙ conn_at-fd fd state.conns from c) ∙ c) y
          (same_type ∙ y) in
      simp (n, r, y) (route_event-sent from eqd m state sent (placed ∙ e) s)

module _ {D F : Type 0} (double : Double D) (float : Float F)
    (can_write pmc_can_write : ℕ → Bytes → Bool) where
  -- An answer with a number and a device, no measurement and fields that the line format can carry, other
  -- than that of a REGISTER, comes as a line from a registered device to the process controller. The
  -- controller writes the same bytes to the equipment server and nothing else. When the server takes them
  -- from a connected controller, its tracker has unique keys and a request of a client waits under that
  -- number and device, it writes the same bytes to that client and nothing else, and forgets that request
  -- alone. Both writes are assumed to succeed.
  pub answer-Returned :
      (device controller now client : ℕ) (from eqd : PmcConnection) (state : PmcState)
      (ctx : AppCtx D) (req : PendingRequest) (m : Message D)
      → IsSendable m
      → IsBrief m
      → IsAnswer m
      → type_eq m.type MsgType.register ≡ false
      → conn_at device state.conns ≡ some from
      → from.registered ≡ true
      → from.type ≡ peer_sim
      → pmc_find_eqd state.conns ≡ some eqd
      → ((l : Bytes) → pmc_can_write eqd.fd l ≡ true)
      → is_controller_fd ctx controller ≡ true
      → UniqueKeys ctx.tracker.items
      → lookup_request ctx.tracker m.seq m.dev ≡ some req
      → req.client_fd ≡ some client
      → ((l : Bytes) → can_write client l ≡ true)
      → let l = render double m ++ b'\n' ∷ [] in
        let e = handle_one_line double can_write controller now ctx l in
        ((handle_line double float pmc_can_write device l state).sent ≡ (eqd.fd, l) ∷ [])
        × (e.sent ≡ (client, l) ∷ [])
        × Forgotten ctx.tracker e.ctx.tracker m.seq m.dev
  unfolding handle_one_line handle_parsed
  answer-Returned device controller now client from eqd state ctx req m sendable brief answer n c r
        y e pw controls unique waits asked w =
      let l = render double m ++ b'\n' ∷ [] in
      let read = line_parse-render double m sendable (
        omega (
          arith,
          (line_format-brief double m brief).1,
          length-append {0} (render double m) (b'\n' ∷ []),
        )) in
      let written = format_received double m brief in
      let (is_answer, seq, dev) = received-IsAnswer double m answer in
      let passed =
        handle_line-route double float pmc_can_write device l (received double m) from state read c
          r (rw (received-type double m) n) in
      let routed =
        route_message-sent double float pmc_can_write device from eqd (received double m) state
          ((eqd.fd, l) ∷ []) c r y (rw (received-type double m) n) e
          (send_message-formatted double float pmc_can_write eqd.fd (received double m) l written
            (pw l)) in
      let relayed =
        handle_message_relays double can_write controller now ctx (received double m) req client
          ((client, l) ∷ []) is_answer controls unique
          (ap (λ k. lookup_request ctx.tracker k (received double m).dev) seq
            ∙ ap (lookup_request ctx.tracker m.seq) dev
            ∙ waits)
          asked
          (send_line-formatted double float can_write client (received double m) l written (w l)) in
      (
        ap (λ s. s.sent) passed ∙ routed,
        rw read relayed.0,
        rw read (Forgotten-at ctx.tracker _ m.seq m.dev _ _ seq dev relayed.2),
      )
