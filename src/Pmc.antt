-- ===== src/Pmc.antt =====
-- nodes/pmc/src: the process module controller. pmc_connection.c, interlock.c, sequence_manager.c and
-- alarm_manager.c, and the registration of pmc_router.c; the modules below model the rest. Log lines are
-- not modelled.
pub mod Decisions
pub mod Peers
pub mod Serial
pub mod Pico
pub mod Auxiliary
pub mod Apply
pub mod Snapshot
pub mod Lifetime
pub mod Messages
pub mod Routing
pub mod Peer
pub mod Loop
use equipment_control.Prelude.{
  ℕ, Bool, true, false, not, ◌&&◌, List, [], ◌∷◌, Option, none, some, ◌==◌, if◌then◌else◌, Bytes,
  codes, str_eq, copy_str,
}
use equipment_control.Prelude.Int.{ℤ, pos, minus_one, eqb_ℤ, to_int32}
use equipment_control.Protocol.Message.{Role, MsgType, role_eq, type_eq, Message}

pub data PeerType : Type 0 where
  peer_unknown peer_eqd peer_sim : PeerType

pub record PmcConnection : Type 0 where
  pub fd : ℕ
  pub type : PeerType
  pub registered : Bool
  pub dev_id : ℤ
  pub state : Bytes
  pub has_state : Bool

abbrev pub is_eqd : PeerType → Bool
is_eqd peer_eqd = true
is_eqd _ = false

abbrev pub is_sim : PeerType → Bool
is_sim peer_sim = true
is_sim _ = false

-- The list from `g_head` on. A connection is told from the others by its descriptor: those in the list
-- are open, so no two have the same.
unfoldable pub pmc_conn_add : PmcConnection → List PmcConnection → List PmcConnection
pmc_conn_add conn head = conn ∷ head

unfoldable pub pmc_conn_remove : ℕ → List PmcConnection → List PmcConnection
pmc_conn_remove fd [] = []
pmc_conn_remove fd (c ∷ rest) = if c.fd == fd then rest else c ∷ pmc_conn_remove fd rest

unfoldable pub pmc_find_eqd : List PmcConnection → Option PmcConnection
pmc_find_eqd [] = none
pmc_find_eqd (c ∷ rest) = if c.registered && is_eqd c.type then some c else pmc_find_eqd rest

unfoldable pub pmc_find_sim : ℤ → List PmcConnection → Option PmcConnection
pmc_find_sim dev [] = none
pmc_find_sim dev (c ∷ rest) =
    if c.registered && (is_sim c.type && eqb_ℤ c.dev_id dev) then some c else pmc_find_sim dev rest

-- The test of a command against the state that the device was last known to be in; 0 is `true`.
unfoldable pub interlock_state : MsgType → Bytes → Bool
interlock_state MsgType.start state = str_eq state (codes "IDLE")
interlock_state MsgType.stop state = str_eq state (codes "PROCESSING")
interlock_state MsgType.reset state = str_eq state (codes "FAULT")
interlock_state MsgType.fault state = true
interlock_state _ state = true

module _ {D : Type 0} where
  unfoldable pub pmc_interlock_check : PmcConnection → Message D → Bool
  unfolding interlock_state
  pmc_interlock_check sim m = if not sim.has_state then false else interlock_state m.type sim.state

pub data SeqAction : Type 0 where
  route_to_sim respond_cached_status reject_missing_dev reject_sim_not_found : SeqAction
  reject_interlock : SeqAction

module _ {D : Type 0} where
  -- A request for a device that was found.
  unfoldable pub decide_found : PmcConnection → Message D → SeqAction
  unfolding pmc_interlock_check
  decide_found sim m =
      if type_eq m.type MsgType.status
      then respond_cached_status
      else if not (pmc_interlock_check sim m)
      then reject_interlock
      else route_to_sim

  unfoldable pub pmc_sequence_decide_eqd_request : Option PmcConnection → Message D → SeqAction
  unfolding decide_found
  pmc_sequence_decide_eqd_request sim m =
      if not m.has_dev
      then reject_missing_dev
      else elim sim [ none ↦ reject_sim_not_found | some c ↦ decide_found c m ]

  -- The target and the action of `pmc_route_message`, for a message of the equipment server.
  unfoldable pub route_from_eqd : List PmcConnection → Message D → Option PmcConnection × SeqAction
  unfolding pmc_find_sim pmc_sequence_decide_eqd_request
  route_from_eqd conns m =
      let target = if m.has_dev then pmc_find_sim (to_int32 m.dev) conns else none in
      (target, pmc_sequence_decide_eqd_request target m)

  -- A REGISTER: the connection, or `none` for the result -1.
  unfoldable pub pmc_handle_register : PmcConnection → Message D → Option PmcConnection
  pmc_handle_register conn m =
      if not (type_eq m.type MsgType.register)
      then none
      else if role_eq m.role Role.req
      then some (record conn { type = peer_eqd; registered = true; dev_id = minus_one })
      else if role_eq m.role Role.evt
      then (if not m.has_dev
          then none
          else some (record conn { type = peer_sim; registered = true; dev_id = to_int32 m.dev }))
      else none

  -- The copy of a STATUS of a device into its connection.
  unfoldable pub remember_status : PmcConnection → Message D → PmcConnection
  remember_status from m =
      if type_eq m.type MsgType.status && m.has_state
      then record from { state = copy_str 31 m.state; has_state = true }
      else from

pub data AlarmCode : Type 0 where
  alarm_none missing_dev sim_not_found interlock_blocked io_send_failed aux_io_failed : AlarmCode

pub record AlarmState : Type 0 where
  pub code : AlarmCode
  pub dev_id : ℤ
  pub detail : Bytes

unfoldable pub pmc_alarm_init : AlarmState
pmc_alarm_init = record { code = alarm_none; dev_id = minus_one; detail = [] }

unfoldable pub pmc_alarm_clear : AlarmState → AlarmState
pmc_alarm_clear s = record { code = alarm_none; dev_id = minus_one; detail = [] }

-- `detail` is never null at a call.
unfoldable pub pmc_alarm_raise : ℤ → AlarmCode → Bytes → AlarmState → AlarmState
pmc_alarm_raise dev code detail s = record {
  code = code;
  dev_id = dev;
  detail = copy_str 127 detail;
}
