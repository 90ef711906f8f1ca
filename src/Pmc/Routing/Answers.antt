-- ===== src/Pmc/Routing/Answers.antt =====
-- nodes/pmc/src/pmc_router.c and io_manager.c: what becomes of a request of the equipment server.
use equipment_control.Prelude.{
  ◌≢◌, ◌⊎◌, ℕ, ◌≡◌, refl, Bool, true, false, [], ◌∷◌, ◌++◌, Option, none, some, arith, Bytes, codes,
  length-take, copy_str,
}
use equipment_control.Prelude.Int.{ℤ, pos, minus_one, to_int32}
use equipment_control.Protocol.Double.{Double}
use equipment_control.Protocol.Message.{MsgType, type_eq, Message}
use equipment_control.Protocol.Codec.Render.{render}
use equipment_control.Protocol.Codec.Bounds.{IsBrief, line_format-brief}
use equipment_control.Pmc.{
  interlock_state, pmc_find_sim, PmcConnection, peer_eqd, SeqAction, reject_missing_dev, AlarmCode,
  missing_dev, sim_not_found, interlock_blocked, io_send_failed, aux_io_failed, pmc_alarm_raise,
}
use equipment_control.Pmc.Decisions.{
  Decided, no_dev, unknown, status, blocked, routed, Suits, route_from_eqd-Decided,
}
use equipment_control.Pmc.Peers.{Registered}
use equipment_control.Pmc.Apply.{Applied, applied, refused, pmc_io_apply_aux_for_command}
use equipment_control.Pmc.Snapshot.{Float, Snapshot, pmc_io_read_aux_snapshot}
use equipment_control.Pmc.Messages.{
  Sent, error_message, status_message, snapshot_text, with_text, pmc_io_send_message,
  pmc_io_send_error, pmc_io_send_status_cached,
}
use equipment_control.Pmc.Routing.{
  route_by_peer, PmcState, Outcome, reply_or_default, reject, respond_status, forward_to_sim,
  apply_and_forward, act, route_request, pmc_route_message,
}

module _ {D F : Type 0} (double : Double D) (float : Float F) (can_write : ℕ → Bytes → Bool) where
  open double use {zero_double}

  -- The reasons for which a request is turned down, each with its alarm, code, device and text.
  pub data Reason (m : Message D) (state : PmcState) : AlarmCode → ℤ → ℤ → Bytes → Type 0 where
    no_device :
        m.has_dev ≡ false → Reason m state missing_dev (pos 400) minus_one (codes "MISSING_DEV")
    no_sim :
        pmc_find_sim (to_int32 m.dev) state.conns ≡ none
        → Reason m state sim_not_found (pos 404) (to_int32 m.dev) (codes "SIM_NOT_FOUND")
    interlocked :
        (sim : PmcConnection)
        → Registered sim (to_int32 m.dev) state.conns
        → m.type ≢ MsgType.status
        → (sim.has_state ≡ false) ⊎ (interlock_state m.type sim.state ≡ false)
        → Reason m state interlock_blocked
            (pos 409)
            (to_int32 m.dev)
            (codes "PMC_INTERLOCK_BLOCKED")
    no_aux :
        (text : Bytes)
        → m.type ≢ MsgType.status
        → (pmc_io_apply_aux_for_command (to_int32 m.dev) m.type state.aux).0 ≡ refused text
        → Reason m state aux_io_failed (pos 502) (to_int32 m.dev) (reply_or_default text)
    not_sent :
        (sim : PmcConnection)
        → Registered sim (to_int32 m.dev) state.conns
        → m.type ≢ MsgType.status
        → pmc_io_send_message double can_write sim.fd m ≡ none
        → Reason m state io_send_failed (pos 500) (to_int32 m.dev) (codes "SIM_CMD_FAILED")

  -- What is done about a request of the server at the descriptor `fd`. In every case exactly one line is
  -- sent: the request to the device, or the answer to the server.
  pub data Dealt (fd : ℕ) (m : Message D) (state : PmcState) (o : Outcome) : Type 0 where
    -- to the device that the request is for, which is in a state that suits it, after the auxiliary device
    -- has done its part
    passed_on :
        (sim : PmcConnection)
        → Registered sim (to_int32 m.dev) state.conns
        → sim.has_state ≡ true
        → Suits m.type sim.state
        → m.type ≢ MsgType.status
        → (pmc_io_apply_aux_for_command (to_int32 m.dev) m.type state.aux).0 ≡ applied
        → pmc_io_send_message double can_write sim.fd m ≡ some o.sent
        → o.state.alarm ≡ state.alarm
        → Dealt fd m state o
    -- a STATUS, answered from the cache, with what the auxiliary device measures
    told :
        (sim : PmcConnection) (snapshot : Snapshot F)
        → Registered sim (to_int32 m.dev) state.conns
        → m.type ≡ MsgType.status
        → snapshot ≡ (pmc_io_read_aux_snapshot float sim.dev_id state.aux).0.1
        → o.sent
          ≡ (fd, render double (status_message zero_double float m sim snapshot) ++ b'\n' ∷ []) ∷ []
        → o.state.alarm ≡ state.alarm
        → Dealt fd m state o
    -- an error, with the alarm of its reason
    turned_down :
        (alarm : AlarmCode) (code alarm_dev : ℤ) (text : Bytes)
        → Reason m state alarm code alarm_dev text
        → o.sent ≡ (fd, render double (error_message zero_double m code text) ++ b'\n' ∷ []) ∷ []
        → o.state.alarm ≡ record { code = alarm; dev_id = alarm_dev; detail = copy_str 127 text }
        → Dealt fd m state o

  error_message-IsBrief :
      (m : Message D) (code : ℤ) (text : Bytes) → IsBrief (error_message zero_double m code text)
  unfolding error_message
  error_message-IsBrief m code text = record {
    no_temp = refl;
    no_pressure = refl;
    no_flow = refl;
    state_short = omega arith;
    msg_short = length-take 127 text;
  }

  with_text-IsBrief : (o : Option Bytes) (m : Message D) → IsBrief m → IsBrief (with_text o m)
  with_text-IsBrief none m b = b
  with_text-IsBrief (some text) m b = record {
    no_temp = b.no_temp;
    no_pressure = b.no_pressure;
    no_flow = b.no_flow;
    state_short = b.state_short;
    msg_short = length-take 127 text;
  }

  status_message-IsBrief :
      (m : Message D) (sim : PmcConnection) (aux : Snapshot F)
      → IsBrief (status_message zero_double float m sim aux)
  unfolding status_message
  status_message-IsBrief m sim aux = with_text-IsBrief (snapshot_text float aux) _ record {
    no_temp = refl;
    no_pressure = refl;
    no_flow = refl;
    state_short = length-take 31 _;
    msg_short = omega arith;
  }

  send_message-brief :
      (fd : ℕ) (m : Message D)
      → ((line : Bytes) → can_write fd line ≡ true)
      → IsBrief m
      → pmc_io_send_message double can_write fd m ≡ some ((fd, render double m ++ b'\n' ∷ []) ∷ [])
  unfolding pmc_io_send_message
  send_message-brief fd m w b =
      let (formatted, short) = line_format-brief double m b in
      rw (pmc_io_send_message, formatted) (simp (w _))

  reject-Dealt :
      (fd : ℕ) (m : Message D) (s state : PmcState) (alarm : AlarmCode) (code alarm_dev : ℤ)
      (text : Bytes)
      → ((line : Bytes) → can_write fd line ≡ true)
      → Reason m s alarm code alarm_dev text
      → Dealt fd m s (reject double float can_write fd m alarm_dev alarm code text state)
  unfolding reject pmc_io_send_error pmc_alarm_raise
  reject-Dealt fd m s state alarm code alarm_dev text w r =
      rw
        (send_message-brief fd (error_message zero_double m code text) w
          (error_message-IsBrief m code text))
        (turned_down alarm code alarm_dev text r refl refl)

  status-Dealt :
      (fd : ℕ) (m : Message D) (state : PmcState) (sim : PmcConnection)
      → ((line : Bytes) → can_write fd line ≡ true)
      → Registered sim (to_int32 m.dev) state.conns
      → m.type ≡ MsgType.status
      → Dealt fd m state (respond_status double float can_write fd m sim state)
  unfolding respond_status pmc_io_send_status_cached
  status-Dealt fd m state sim w r t =
      let snapshot = (pmc_io_read_aux_snapshot float sim.dev_id state.aux).0.1 in
      rw
        (send_message-brief fd (status_message zero_double float m sim snapshot) w
          (status_message-IsBrief m sim snapshot))
        (told sim snapshot r t refl refl refl)

  -- The result of the auxiliary device, and of the write to the device.
  forwarded-Dealt :
      (fd : ℕ) (m : Message D) (s state : PmcState) (sim : PmcConnection) (result : Applied)
      (o : Option Sent)
      → ((line : Bytes) → can_write fd line ≡ true)
      → Registered sim (to_int32 m.dev) s.conns
      → sim.has_state ≡ true
      → Suits m.type sim.state
      → m.type ≢ MsgType.status
      → (pmc_io_apply_aux_for_command (to_int32 m.dev) m.type s.aux).0 ≡ result
      → state.alarm ≡ s.alarm
      → pmc_io_send_message double can_write sim.fd m ≡ o
      → Dealt fd m s (forward_to_sim double float can_write fd m sim state result)
  unfolding forward_to_sim
  forwarded-Dealt fd m s state sim (refused text) o w r k u n a l e =
      reject-Dealt fd m s state aux_io_failed (pos 502) _ _ w (no_aux text n a)
  forwarded-Dealt fd m s state sim applied none w r k u n a l e =
      rw (forward_to_sim, e)
        (reject-Dealt fd m s state io_send_failed (pos 500) _ _ w (not_sent sim r n e))
  forwarded-Dealt fd m s state sim applied (some sent) w r k u n a l e =
      rw (forward_to_sim, e) (passed_on sim r k u n a e l)

  act-Dealt :
      (fd : ℕ) (m : Message D) (state : PmcState) (target : Option PmcConnection)
      (action : SeqAction)
      → ((line : Bytes) → can_write fd line ≡ true)
      → Decided state.conns m target action
      → Dealt fd m state (act double float can_write fd m target action state)
  unfolding act apply_and_forward
  act-Dealt fd m state none reject_missing_dev w (no_dev h) =
      reject-Dealt fd m state state missing_dev (pos 400) _ _ w (no_device h)
  act-Dealt fd m state target action w (unknown h n) =
      reject-Dealt fd m state state sim_not_found (pos 404) _ _ w (rw h (no_sim n))
  act-Dealt fd m state target action w (status sim r t) = status-Dealt fd m state sim w r t
  act-Dealt fd m state target action w (blocked sim r n b) =
      reject-Dealt fd m state state interlock_blocked (pos 409) _ _ w (interlocked sim r n b)
  act-Dealt fd m state target action w (routed sim r k u n) =
      forwarded-Dealt fd m state _ sim _ _ w r k u n refl refl refl

  -- A request of the equipment server, to which writes succeed, is dealt with by exactly one line: a
  -- registered device in a suitable state gets it after the auxiliary device has done its part, or the
  -- server gets an error whose code and text give the reason, which is also raised as the alarm; a STATUS
  -- for a registered device is never passed on, and the server gets its cached status.
  pub pmc_route_message-Dealt :
      (from : PmcConnection) (m : Message D) (state : PmcState)
      → from.registered ≡ true
      → from.type ≡ peer_eqd
      → type_eq m.type MsgType.register ≡ false
      → ((line : Bytes) → can_write from.fd line ≡ true)
      → Dealt from.fd m state (pmc_route_message double float can_write from m state)
  unfolding pmc_route_message route_by_peer route_request
  pmc_route_message-Dealt from m state r t n w =
      simp (r, t, n) (act-Dealt from.fd m state _ _ w (route_from_eqd-Decided state.conns m))
