-- ===== src/Pmc/Routing.antt =====
-- nodes/pmc/src/pmc_router.c: `pmc_route_message`, on the list of connections, the alarm and the auxiliary
-- device. A connection is named by its descriptor.
pub mod Answers
pub mod Cached
use equipment_control.Prelude.{
  ℕ, Bool, true, false, not, ◌&&◌, ◌||◌, List, [], ◌∷◌, ◌++◌, Option, none, some, if◌then◌else◌,
  Bytes, codes, ◌==◌,
}
use equipment_control.Prelude.Int.{ℤ, pos, minus_one, to_int32}
use equipment_control.Protocol.Double.{Double}
use equipment_control.Protocol.Message.{MsgType, type_eq, Message}
use equipment_control.Pmc.{
  PmcConnection, PeerType, peer_unknown, peer_eqd, peer_sim, SeqAction, route_to_sim,
  respond_cached_status, reject_missing_dev, reject_sim_not_found, reject_interlock, route_from_eqd,
  remember_status, pmc_find_eqd, AlarmState, AlarmCode, missing_dev, sim_not_found,
  interlock_blocked, io_send_failed, aux_io_failed, pmc_alarm_raise,
}
use equipment_control.Pmc.Auxiliary.{AuxState}
use equipment_control.Pmc.Apply.{Applied, applied, refused, pmc_io_apply_aux_for_command}
use equipment_control.Pmc.Snapshot.{Float, pmc_io_read_aux_snapshot}
use equipment_control.Pmc.Messages.{
  Sent, pmc_io_send_message, pmc_io_send_error, pmc_io_send_status_cached,
}

pub record PmcState : Type 0 where
  pub conns : List PmcConnection
  pub alarm : AlarmState
  pub aux : AuxState

-- What a call leaves: the state, what was sent, and whether the result is 0.
pub record Outcome : Type 0 where
  pub state : PmcState
  pub sent : Sent
  pub ok : Bool

-- The connection with a descriptor, with what is written into it.
unfoldable pub put_conn : PmcConnection → List PmcConnection → List PmcConnection
put_conn conn [] = []
put_conn conn (c ∷ rest) = if c.fd == conn.fd then conn ∷ rest else c ∷ put_conn conn rest

-- `return pmc_io_send_...`
abbrev finish : PmcState → Option Sent → Outcome
finish state none = record { state = state; sent = []; ok = false }
finish state (some sent) = record { state = state; sent = sent; ok = true }

abbrev raise : ℤ → AlarmCode → Bytes → PmcState → PmcState
raise dev code text state = record state { alarm = pmc_alarm_raise dev code text state.alarm }

-- `aux_reply[0] ? aux_reply : "PICO_IO_FAILED"`
abbrev pub reply_or_default : Bytes → Bytes
reply_or_default [] = codes "PICO_IO_FAILED"
reply_or_default (c ∷ cs) = c ∷ cs

module _ {D F : Type 0} (double : Double D) (float : Float F) (can_write : ℕ → Bytes → Bool) where
  -- A request refused: the alarm, and the answer to the equipment server.
  unfoldable pub reject : ℕ → Message D → ℤ → AlarmCode → ℤ → Bytes → PmcState → Outcome
  reject fd m alarm_dev alarm code text state =
      finish (raise alarm_dev alarm text state) (pmc_io_send_error double can_write fd m code text)

  -- `PMC_SEQ_ACTION_RESPOND_CACHED_STATUS`: the snapshot is sent whatever reading it came to.
  unfoldable pub respond_status : ℕ → Message D → PmcConnection → PmcState → Outcome
  respond_status fd m target state =
      let ((ok, snapshot), aux) = pmc_io_read_aux_snapshot float target.dev_id state.aux in
      finish (record state { aux = aux })
        (pmc_io_send_status_cached double can_write float fd m target snapshot)

  -- `PMC_SEQ_ACTION_ROUTE_TO_SIM` after the auxiliary device has done its part.
  unfoldable pub forward_to_sim : ℕ → Message D → PmcConnection → PmcState → Applied → Outcome
  forward_to_sim fd m target state (refused text) =
      reject fd m (to_int32 m.dev) aux_io_failed (pos 502) (reply_or_default text) state
  forward_to_sim fd m target state applied =
      elim (pmc_io_send_message double can_write target.fd m) [
        | none ↦
            reject fd m (to_int32 m.dev) io_send_failed (pos 500) (codes "SIM_CMD_FAILED") state
        | some sent ↦ record { state = state; sent = sent; ok = true }
      ]

  unfoldable pub apply_and_forward : ℕ → Message D → PmcConnection → PmcState → Outcome
  apply_and_forward fd m target state =
      let (result, aux) = pmc_io_apply_aux_for_command (to_int32 m.dev) m.type state.aux in
      forward_to_sim fd m target (record state { aux = aux }) result

  -- The `switch` on the action, with the target that was found; a request with a device and no target is
  -- never decided to be answered or routed, and then nothing is done here.
  unfoldable pub act : ℕ → Message D → Option PmcConnection → SeqAction → PmcState → Outcome
  act fd m target reject_missing_dev state =
      reject fd m minus_one missing_dev (pos 400) (codes "MISSING_DEV") state
  act fd m target reject_sim_not_found state =
      reject fd m (if m.has_dev then to_int32 m.dev else minus_one) sim_not_found (pos 404)
        (codes "SIM_NOT_FOUND") state
  act fd m target reject_interlock state =
      reject fd m (to_int32 m.dev) interlock_blocked (pos 409) (codes "PMC_INTERLOCK_BLOCKED") state
  act fd m (some sim) respond_cached_status state = respond_status fd m sim state
  act fd m (some sim) route_to_sim state = apply_and_forward fd m sim state
  act fd m none respond_cached_status state = finish state none
  act fd m none route_to_sim state = finish state none

  -- A message of the equipment server.
  unfoldable pub route_request : ℕ → Message D → PmcState → Outcome
  route_request fd m state =
      let (target, action) = route_from_eqd state.conns m in act fd m target action state

  -- A message of a device: its state is remembered, and the server hears of it.
  unfoldable pub route_event : PmcConnection → Message D → PmcState → Outcome
  route_event from m state =
      let conns = put_conn (remember_status from m) state.conns in
      elim (pmc_find_eqd conns) [
        | none ↦ finish (record state { conns = conns }) none
        | some eqd ↦
            finish (record state { conns = conns }) (pmc_io_send_message double can_write eqd.fd m)
      ]

  unfoldable pub route_by_peer : PeerType → PmcConnection → Message D → PmcState → Outcome
  route_by_peer peer_eqd from m state = route_request from.fd m state
  route_by_peer peer_sim from m state = route_event from m state
  route_by_peer peer_unknown from m state = finish state none

  unfoldable pub pmc_route_message : PmcConnection → Message D → PmcState → Outcome
  pmc_route_message from m state =
      if type_eq m.type MsgType.register
      then record { state = state; sent = []; ok = true }
      else if not from.registered
      then finish state none
      else route_by_peer from.type from m state
