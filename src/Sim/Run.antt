-- ===== src/Sim/Run.antt =====
-- nodes/deviced/sim/src/fsm.c: the states of the device.
use equipment_control.Prelude.{
  ◌∙◌, ◌==◌, leb, leb→le, ◌≤◌, Bool-cases, List, [], ◌∷◌, ap, ℕ, zero, suc, ◌<◌, ◌≡◌, ◌≢◌, ◌⊎◌, inl,
  inr, refl, arith, if◌then◌else◌,
}
use equipment_control.Prelude.Int.{pos}
use equipment_control.Sim.{
  SimState, SimCmd, cmd_start, cmd_stop, cmd_reset, cmd_fault, cmd_none, Fsm, fsm_init, fsm_command,
  fsm_handle_command, fsm_tick_at, fsm_tick,
}

-- The ticks are counted below five, and only while the device processes.
abbrev pub Fits : SimState → ℕ → Type 0
Fits SimState.processing n = n < 5
Fits _ n = n ≡ 0

pub record WellFormed (f : Fsm) : Type 0 where
  pub counted : Fits f.state f.processing_ticks

-- What the device goes through: commands and ticks.
pub data Input : Type 0 where
  command : SimCmd → Input
  tick : Input

abbrev pub input : Input → Fsm → Fsm
input (command cmd) f = (fsm_handle_command f cmd).1
input tick f = fsm_tick f

pub data Reached : Fsm → Type 0 where
  boot : Reached fsm_init
  then_input : (i : Input) (f : Fsm) → Reached f → Reached (input i f)

command-Fits :
    (cmd : SimCmd) (s : SimState) (f : Fsm)
    → Fits f.state f.processing_ticks
    → f.state ≡ s
    → Fits (fsm_command cmd s f).1.state (fsm_command cmd s f).1.processing_ticks
unfolding fsm_command
command-Fits cmd_start SimState.idle f h e = refl
command-Fits cmd_start SimState.ready f h e = refl
command-Fits cmd_start _ f h e = h
command-Fits cmd_stop SimState.processing f h e = refl
command-Fits cmd_stop _ f h e = h
command-Fits cmd_reset SimState.fault f h e = refl
command-Fits cmd_reset _ f h e = h
command-Fits cmd_fault _ f h e = refl
command-Fits cmd_none _ f h e = h

tick-Fits :
    (s : SimState) (f : Fsm)
    → Fits s f.processing_ticks
    → f.state ≡ s
    → Fits (fsm_tick_at s f).state (fsm_tick_at s f).processing_ticks
unfolding fsm_tick_at
tick-Fits SimState.booting f h e = h
tick-Fits SimState.ready f h e = omega arith
tick-Fits SimState.processing f h e = ground arith
tick-Fits SimState.recovering f h e = h
tick-Fits SimState.idle f h e = simp e h
tick-Fits SimState.done f h e = simp e h
tick-Fits SimState.fault f h e = simp e h

-- However it is driven, a device that was booted is well formed.
pub Reached-WellFormed : (f : Fsm) → Reached f → WellFormed f
unfolding fsm_init fsm_handle_command fsm_tick
Reached-WellFormed _ boot = record { counted = refl }
Reached-WellFormed _ (then_input (command cmd) f r) = record {
  counted = command-Fits cmd f.state f (Reached-WellFormed f r).counted refl;
}
Reached-WellFormed _ (then_input tick f r) = record {
  counted = tick-Fits f.state f (Reached-WellFormed f r).counted refl;
}

abbrev pub ticks : ℕ → Fsm → Fsm
ticks zero f = f
ticks (suc n) f = fsm_tick (ticks n f)

-- The state that the n-th tick after a START leaves.
abbrev pub phase : ℕ → SimState
phase n = if n == 0 then SimState.ready else if leb n 5 then SimState.processing else SimState.done

ticks_done : (n : ℕ) (f : Fsm) → f.state ≡ SimState.done → (ticks n f).state ≡ SimState.done
unfolding fsm_tick fsm_tick_at
ticks_done zero f e = e
ticks_done (suc n) f e = simp (ticks_done n f e)

abbrev started : Fsm
started = record { state = SimState.ready; processing_ticks = 0 }

done_after_six : (n : ℕ) → 6 ≤ n → (ticks n started).state ≡ SimState.done
unfolding fsm_tick fsm_tick_at
done_after_six zero h = ground arith
done_after_six (suc n) h = elim (Bool-cases (leb 6 n)) [
  | inl e ↦ simp (done_after_six n (leb→le 6 n e))
  | inr e ↦ let at_five : 5 ≡ n = ground arith in rw⁻¹ at_five refl
]

started-phase : (n : ℕ) → (ticks n started).state ≡ phase n
unfolding fsm_tick fsm_tick_at
started-phase zero = refl
started-phase (suc zero) = refl
started-phase (suc (suc zero)) = refl
started-phase (suc (suc (suc zero))) = refl
started-phase (suc (suc (suc (suc zero)))) = refl
started-phase (suc (suc (suc (suc (suc zero))))) = refl
started-phase n = ground (arith, done_after_six n)

start-started :
    (f : Fsm)
    → (f.state ≡ SimState.idle) ⊎ (f.state ≡ SimState.ready)
    → fsm_handle_command f cmd_start ≡ (pos 0, started)
unfolding fsm_handle_command fsm_command
start-started f (inl e) = simp e
start-started f (inr e) = simp e

-- A START that finds the device idle or ready is accepted, and then without further commands the
-- device is ready, processes from the first tick to the fifth, and is done from the sixth on.
pub start-phase :
    (f : Fsm)
    → (f.state ≡ SimState.idle) ⊎ (f.state ≡ SimState.ready)
    → ((fsm_handle_command f cmd_start).0 ≡ pos 0)
      × ((n : ℕ) → (ticks n (fsm_handle_command f cmd_start).1).state ≡ phase n)
start-phase f h = rw (start-started f h) (refl, started-phase)

abbrev pub inputs : List Input → Fsm → Fsm
inputs [] f = f
inputs (i ∷ is) f = inputs is (input i f)

-- No command of the list is a FAULT.
abbrev pub NoFault : List Input → Type 0
NoFault [] = Unit
NoFault (command cmd ∷ is) = (cmd ≢ cmd_fault) × NoFault is
NoFault (tick ∷ is) = NoFault is

unmoved :
    (cmd : SimCmd) (s : SimState) (f : Fsm)
    → s ≡ SimState.done
    → cmd ≢ cmd_fault
    → (fsm_command cmd s f).1 ≡ f
unfolding fsm_command
unmoved cmd_start SimState.done f e n = refl
unmoved cmd_start _ f e n = cc
unmoved cmd_stop SimState.done f e n = refl
unmoved cmd_stop _ f e n = cc
unmoved cmd_reset SimState.done f e n = refl
unmoved cmd_reset _ f e n = cc
unmoved cmd_fault s f e n = elim (n refl) [ ]
unmoved cmd_none _ f e n = refl

unmoved_tick : (s : SimState) (f : Fsm) → s ≡ SimState.done → fsm_tick_at s f ≡ f
unfolding fsm_tick_at
unmoved_tick SimState.done f e = refl
unmoved_tick _ f e = cc

-- A device that is done stays as it is through any commands and ticks without a FAULT: a second START
-- or a RESET never has an effect.
pub done_stays :
    (is : List Input) (f : Fsm) → f.state ≡ SimState.done → NoFault is → inputs is f ≡ f
unfolding fsm_handle_command fsm_tick
done_stays [] f e n = refl
done_stays (command cmd ∷ is) f e n =
    ap (inputs is) (unmoved cmd f.state f e n.0) ∙ done_stays is f e n.1
done_stays (tick ∷ is) f e n = ap (inputs is) (unmoved_tick f.state f e) ∙ done_stays is f e n
