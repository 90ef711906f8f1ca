-- ===== src/Tests/Device.antt =====
-- The simulated device, the process module controller and the device manager on concrete inputs.
use equipment_control.Sim.Answers.{sim_handle_message-Outcome}
use equipment_control.Tests.{start_one}
use equipment_control.Sim.Run.{start-phase, done_stays, phase, ticks, tick, command, inputs}
use equipment_control.Sim.{
  cmd_reset, sim_handle_message, cmd_start, SimState, fsm_handle_command, SimCtx, Fsm,
}
use equipment_control.Pmc.{peer_sim, PmcConnection}
use equipment_control.Equipmentd.Devices.Machine.{
  apply_command-Obeys, IsArray, state_of, apply_command, Obeys,
}
use equipment_control.Equipmentd.Devices.{device_manager_init}
use equipment_control.Prelude.{arith, ℕ, ◌≡◌, ◌≢◌, refl, inl, [], ◌∷◌, codes, true}
use equipment_control.Sim.Answers.{Outcome}
use equipment_control.Equipmentd.Devices.Machine.{Command}
use equipment_control.Prelude.Int.{pos}

abbrev booted : Fsm
booted = record { state = SimState.idle; processing_ticks = 0 }

start-phase_example :
    ((fsm_handle_command booted cmd_start).0 ≡ pos 0)
    × ((n : ℕ) → (ticks n (fsm_handle_command booted cmd_start).1).state ≡ phase n)
start-phase_example = start-phase booted (inl refl)

abbrev finished : Fsm
finished = record { state = SimState.done; processing_ticks = 0 }

done_stays_example : inputs (command cmd_start ∷ tick ∷ command cmd_reset ∷ []) finished ≡ finished
done_stays_example =
    done_stays (command cmd_start ∷ tick ∷ command cmd_reset ∷ []) finished refl
      ((λ e. cc), ((λ e. cc), tt))

abbrev sim_one : SimCtx
sim_one = record { dev_id = 1; fsm = finished }

sim_handle_message-Outcome_example :
    Outcome sim_one start_one (sim_handle_message 0 sim_one start_one)
sim_handle_message-Outcome_example = sim_handle_message-Outcome 0 sim_one start_one refl

abbrev sim_conn : PmcConnection
sim_conn = record {
  fd = 9;
  type = peer_sim;
  registered = true;
  dev_id = pos 1;
  state = codes "IDLE";
  has_state = true;
}

apply_command-Obeys_example :
    Obeys Command.start device_manager_init 3
      (apply_command Command.start device_manager_init (pos 3))
    × ((j : ℕ)
        → 3 ≢ j
        → state_of (apply_command Command.start device_manager_init (pos 3)).0 j
          ≡ state_of device_manager_init j)
    × IsArray (apply_command Command.start device_manager_init (pos 3)).0
unfolding device_manager_init
apply_command-Obeys_example =
    apply_command-Obeys Command.start device_manager_init 3 refl (omega arith)
