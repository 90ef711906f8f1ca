-- ===== src/Tests/Simulator.antt =====
-- nodes/deviced/sim/src: the loop of the simulated device, on concrete inputs.
use equipment_control.Prelude.{
  arith, ℕ, ◌-◌, ◌+◌, ◌≡◌, refl, Bool, true, List, [], ◌∷◌, Option, none, some, Bytes, codes, ltb,
}
use equipment_control.Sim.Run.{WellFormed}
use equipment_control.Sim.Process.{Arithmetic, InRange}
use equipment_control.Sim.Loop.{SimProcess, sim_start, sim_rounds}
use equipment_control.Sim.Loop.Rounds.{sim_rounds-IsReported, IsReported}
use equipment_control.Tests.{whole}

-- Hundredths for `double`.
abbrev hundredths : Arithmetic ℕ
hundredths = record {
  plus = ◌+◌;
  minus = ◌-◌;
  less = ltb;
  ambient_temp = 2500;
  ambient_pressure = 100;
  least_pressure = 10;
  no_flow = 0;
  most_flow = 10000;
  heat_step = 150;
  cool_step = 50;
  pressure_step = 5;
  flow_step = 200;
  less_irrefl = λ x. ground arith;
  heat_grows = λ x c h. ground arith;
  pressure_grows = λ x c h. ground arith;
  pressure_shrinks = λ x c h. ground arith;
  flow_grows = λ x c h. ground arith;
  flow_shrinks = λ x c h. ground arith;
  pressure_order = refl;
  flow_order = refl;
}

abbrev all_sent : Bytes → Bool
all_sent bytes = true

-- A START that comes in two parts, and a round in which nothing comes.
abbrev received : List (Option Bytes)
received = some (codes "REQ START dev") ∷ some (codes "=1 seq=7\n") ∷ none ∷ []

sim_rounds-IsReported_example :
    (q : SimProcess ℕ) × (sim_rounds whole hundredths all_sent received
        (sim_start whole hundredths all_sent 1)
      ≡ some q)
    × IsReported 1 q
    × WellFormed q.ctx.fsm
    × InRange hundredths q.model
sim_rounds-IsReported_example =
    sim_rounds-IsReported whole hundredths all_sent 1 (λ s. refl) received
