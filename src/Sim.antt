-- ===== src/Sim.antt =====
-- nodes/deviced/sim/src: the simulated device. fsm.c, telemetry.c and the message handling of main.c;
-- pointers are never null, and `dev_id` is not negative.
pub mod Run
pub mod Answers
pub mod Process
pub mod Loop
use equipment_control.Prelude.{
  ℕ, ◌+◌, Bool, true, false, not, ◌||◌, Option, none, some, leb, if◌then◌else◌, Bytes, codes,
  copy_str, ◌-◌,
}
use equipment_control.Prelude.Int.{ℤ, pos, minus_one, eqb_ℤ, negsuc}
use equipment_control.Protocol.Message.{Role, MsgType, role_eq, Message, zero_message}

pub data SimState : Type 0 where
  booting idle ready processing done fault recovering : SimState

pub data SimCmd : Type 0 where
  cmd_none cmd_start cmd_stop cmd_reset cmd_fault : SimCmd

pub record Fsm : Type 0 where
  pub state : SimState
  pub processing_ticks : ℕ

unfoldable pub fsm_init : Fsm
fsm_init = record { state = SimState.booting; processing_ticks = 0 }

abbrev enter : SimState → Fsm
enter s = record { state = s; processing_ticks = 0 }

abbrev refused : Fsm → ℤ × Fsm
refused f = (negsuc 1, f)

-- The `switch` of `fsm_handle_command`, whose results are 0, -2 and -1.
unfoldable pub fsm_command : SimCmd → SimState → Fsm → ℤ × Fsm
fsm_command cmd_start SimState.idle f = (pos 0, enter SimState.ready)
fsm_command cmd_start SimState.ready f = (pos 0, enter SimState.ready)
fsm_command cmd_start _ f = refused f
fsm_command cmd_stop SimState.processing f = (pos 0, enter SimState.idle)
fsm_command cmd_stop _ f = refused f
fsm_command cmd_reset SimState.fault f = (pos 0, enter SimState.recovering)
fsm_command cmd_reset _ f = refused f
fsm_command cmd_fault _ f = (pos 0, enter SimState.fault)
fsm_command cmd_none _ f = (minus_one, f)

unfoldable pub fsm_handle_command : Fsm → SimCmd → ℤ × Fsm
unfolding fsm_command
fsm_handle_command f cmd = fsm_command cmd f.state f

abbrev count_tick : ℕ → Fsm
count_tick n =
    if leb 5 n
    then enter SimState.done
    else record { state = SimState.processing; processing_ticks = n }

-- The `switch` of `fsm_tick`.
unfoldable pub fsm_tick_at : SimState → Fsm → Fsm
fsm_tick_at SimState.booting f = record f { state = SimState.idle }
fsm_tick_at SimState.ready f = enter SimState.processing
fsm_tick_at SimState.processing f = count_tick (f.processing_ticks + 1)
fsm_tick_at SimState.recovering f = record f { state = SimState.idle }
fsm_tick_at _ f = f

unfoldable pub fsm_tick : Fsm → Fsm
unfolding fsm_tick_at
fsm_tick f = fsm_tick_at f.state f

unfoldable pub fsm_state_to_string : SimState → Bytes
fsm_state_to_string SimState.booting = codes "BOOTING"
fsm_state_to_string SimState.idle = codes "IDLE"
fsm_state_to_string SimState.ready = codes "READY"
fsm_state_to_string SimState.processing = codes "PROCESSING"
fsm_state_to_string SimState.fault = codes "FAULT"
fsm_state_to_string SimState.recovering = codes "RECOVERING"
fsm_state_to_string SimState.done = codes "DONE"

unfoldable pub sim_cmd_from_message : MsgType → SimCmd
sim_cmd_from_message MsgType.start = cmd_start
sim_cmd_from_message MsgType.stop = cmd_stop
sim_cmd_from_message MsgType.reset = cmd_reset
sim_cmd_from_message MsgType.fault = cmd_fault
sim_cmd_from_message _ = cmd_none

-- The fields of `sim_ctx_t` that `sim_handle_message` uses.
pub record SimCtx : Type 0 where
  pub dev_id : ℕ
  pub fsm : Fsm

module _ {D : Type 0} (zero_double : D) where
  -- The answer, from the result of `fsm_handle_command`.
  unfoldable pub sim_answer : ℕ → Message D → ℤ → Message D
  sim_answer dev_id m rc =
      let out : Message D = record (zero_message zero_double) {
        role = Role.resp;
        type = m.type;
        seq = if m.has_seq then m.seq else 0;
        has_seq = m.has_seq;
        dev = dev_id;
        has_dev = true;
      } in
      if eqb_ℤ rc (pos 0) then record out { ok = pos 1; has_ok = true } else record out {
        ok = pos 0;
        has_ok = true;
        type = MsgType.error;
        code = pos 500;
        has_code = true;
        msg = codes "SIM_CMD_FAILED";
        has_msg = true;
      }

  -- The results 0, and 1 with the answer.
  unfoldable pub sim_handle_message : SimCtx → Message D → SimCtx × Option (Message D)
  unfolding sim_cmd_from_message fsm_handle_command sim_answer
  sim_handle_message ctx m =
      if not (role_eq m.role Role.req)
      then (ctx, none)
      else (let (rc, f) = fsm_handle_command ctx.fsm (sim_cmd_from_message m.type) in
          (record ctx { fsm = f }, some (sim_answer ctx.dev_id m rc)))

  unfoldable pub telemetry_build_status_evt : ℕ → SimState → Message D
  unfolding fsm_state_to_string
  telemetry_build_status_evt dev_id s = record (zero_message zero_double) {
    role = Role.evt;
    type = MsgType.status;
    dev = dev_id;
    has_dev = true;
    state = copy_str 31 (fsm_state_to_string s);
    has_state = true;
  }

  -- The readings are those of the process model.
  unfoldable pub telemetry_build_telemetry_evt : ℕ → D → D → D → Message D
  telemetry_build_telemetry_evt dev_id temp pressure flow = record (zero_message zero_double) {
    role = Role.evt;
    type = MsgType.telemetry;
    dev = dev_id;
    has_dev = true;
    temp = temp;
    pressure = pressure;
    flow = flow;
    has_temp = true;
    has_pressure = true;
    has_flow = true;
  }
