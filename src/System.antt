-- ===== src/System.antt =====
-- services/equipmentd and nodes/pmc together: a command on its way from a client of the equipment server
-- to the process module controller. The two processes share nothing but the bytes between them.
pub mod Answer
use equipment_control.Prelude.{
  ℕ, ◌+◌, ◌≤◌, ◌<◌, ◌≡◌, refl, Bool, true, false, [], ◌∷◌, ◌++◌, none, some, arith, Bytes, length,
  le→ltb,
}
use equipment_control.Protocol.Double.{Double}
use equipment_control.Protocol.Message.{Message, MsgType, type_eq}
use equipment_control.Protocol.Codec.Parse.{line_parse}
use equipment_control.Protocol.Codec.Format.{line_format}
use equipment_control.Protocol.Codec.Render.{render, line_format-render}
use equipment_control.Protocol.Codec.Sendable.{IsSendable, received}
use equipment_control.Protocol.Codec.RoundTrip.{line_parse-render}
use equipment_control.Equipmentd.Tracker.Slots.{count_valid}
use equipment_control.Equipmentd.Tracker.Lookup.{UniqueKeys, lookup_request}
use equipment_control.Equipmentd.Server.{handle_message, AppCtx, resolve_target_fd, send_line}
use equipment_control.Equipmentd.Server.Forward.{
  IsCommand, command_not_register, handle_message_forwards,
}
use equipment_control.Pmc.{PmcConnection, peer_eqd}
use equipment_control.Pmc.Snapshot.{Float}
use equipment_control.Pmc.Routing.{PmcState, pmc_route_message}
use equipment_control.Pmc.Routing.Answers.{Dealt, pmc_route_message-Dealt}
use equipment_control.Pmc.Peer.{conn_at, handle_line, Served}
use equipment_control.Pmc.Peer

module _ {D : Type 0} (double : Double D) where
  pub format_short :
      (m : Message D)
      → length (render double m) + 1 ≤ 510
      → line_format double m 512 ≡ some (render double m ++ b'\n' ∷ [])
  format_short m short =
      rw (line_format-render double m 512)
        (rw (le→ltb 512 (length (render double m) + 2) (omega arith)) refl)

  pub received-type : (m : Message D) → (received double m).type ≡ m.type
  unfolding received
  received-type m = refl

module _ {D F : Type 0} (double : Double D) (float : Float F) (can_write : ℕ → Bytes → Bool) where
  -- A line that is understood, from a registered connection.
  pub handle_line-route :
      (fd : ℕ) (l : Bytes) (m : Message D) (conn : PmcConnection) (state : PmcState)
      → line_parse double l ≡ some m
      → conn_at fd state.conns ≡ some conn
      → conn.registered ≡ true
      → type_eq m.type MsgType.register ≡ false
      → let o = pmc_route_message double float can_write conn m state in
        handle_line double float can_write fd l state ≡ record { state = o.state; sent = o.sent }
  unfolding handle_line Peer.handle_message
  handle_line-route fd l m conn state p c r n = rw (handle_line, p, c) (simp (r, n))

  pub send_line-formatted :
      (fd : ℕ) (m : Message D) (l : Bytes)
      → line_format double m 512 ≡ some l
      → can_write fd l ≡ true
      → send_line double can_write fd m ≡ some ((fd, l) ∷ [])
  unfolding send_line
  send_line-formatted fd m l f w = rw (send_line, f) (simp w)

module _ {D F : Type 0} (double : Double D) (float : Float F)
    (can_write pmc_can_write : ℕ → Bytes → Bool) where
  -- A command with a number from a client, for a device whose controller is connected at `target`, while
  -- a slot is free, keys are unique and no request waits under its key, and which is sendable in a line of
  -- at most 510 bytes that the kernel accepts, is written by the server as one line. The process module
  -- controller, to which the server is registered at `from` and writes to it succeed, reads from that line
  -- the fields that were present, and deals with the command by exactly one line of its own, as `Dealt`
  -- says: to the device, or to the server, which gets the cached state of the device for a STATUS, or the
  -- reason for an error.
  pub command-Dealt :
      (fd now target from : ℕ) (ctx : AppCtx D) (m : Message D) (server : PmcConnection)
      (state : PmcState)
      → IsCommand m
      → IsSendable m
      → length (render double m) + 1 ≤ 510
      → resolve_target_fd ctx m.dev ≡ some target
      → count_valid ctx.tracker.items < length ctx.tracker.items
      → UniqueKeys ctx.tracker.items
      → lookup_request ctx.tracker m.seq m.dev ≡ none
      → ((l : Bytes) → can_write target l ≡ true)
      → conn_at from state.conns ≡ some server
      → server.registered ≡ true
      → server.type ≡ peer_eqd
      → ((l : Bytes) → pmc_can_write server.fd l ≡ true)
      → (l : Bytes) × ((handle_message double can_write fd now ctx m).sent ≡ (target, l) ∷ [])
        × (let o = pmc_route_message double float pmc_can_write server (received double m) state in
            (handle_line double float pmc_can_write from l state
              ≡ record { state = o.state; sent = o.sent })
            × Dealt double float pmc_can_write server.fd (received double m) state o)
  command-Dealt fd now target from ctx m server state c sendable short resolved room unique fresh w
        found reg eqd pw =
      let l = render double m ++ b'\n' ∷ [] in
      let formatted = format_short double m short in
      let not_register : type_eq (received double m).type MsgType.register ≡ false =
        rw (received-type double m) (command_not_register m.type c.command) in
      (
        l,
        (handle_message_forwards double can_write fd now ctx m target _ c resolved room unique fresh
            (send_line-formatted double float can_write target m l formatted (w l))).0,
        (
          handle_line-route double float pmc_can_write from l (received double m) server state
              (line_parse-render double m sendable short) found reg not_register,
          pmc_route_message-Dealt double float pmc_can_write server (received double m) state reg
              eqd not_register pw,
        ),
      )
