-- ===== src/Equipmentd/Scheduler/Steps.antt =====
-- What one tick of the scheduler may do, in every job state and on every registry.
use equipment_control.Prelude.{
  ℕ, ◌+◌, ◌%◌, ◌^◌, ◌≡◌, ◌⊎◌, Bool, true, false, not, ◌&&◌, ◌||◌, arith, if◌then◌else◌, codes,
}
use equipment_control.Prelude.Int.{pos}
use equipment_control.Equipmentd.Registry.{ModuleRegistry}
use equipment_control.Equipmentd.Scheduler.{
  is_idle_usable, JobState, job_idle, preclean_sent, preclean_running, preclean_done,
  deposition_sent, deposition_running, job_complete, job_error, Tick, stay, in_preclean,
  in_deposition, is_state, is_usable, is_done, dispatch_job, scheduler_tick,
}

-- The moves of a job between two ticks; a fault or a silent module leads to the error state.
pub data Edge : JobState → JobState → Type 0 where
  same : {j : JobState} → Edge j j
  all_done : Edge job_idle job_complete
  skip_preclean : Edge job_idle deposition_sent
  start_preclean : Edge job_idle preclean_sent
  preclean_runs : Edge preclean_sent preclean_running
  preclean_short : Edge preclean_sent preclean_done
  preclean_ends : Edge preclean_running preclean_done
  start_deposition : Edge preclean_done deposition_sent
  deposition_runs : Edge deposition_sent deposition_running
  deposition_short : Edge deposition_sent job_complete
  deposition_ends : Edge deposition_running job_complete
  fails : {j : JobState} → Edge j job_error

ruleset edges = (
  same, all_done, skip_preclean, start_preclean, preclean_runs, preclean_short, preclean_ends,
  start_deposition, deposition_runs, deposition_short, deposition_ends, fails,
)

module _ {D : Type 0} where
  abbrev in_fault : ModuleRegistry D → Bool
  in_fault reg =
      is_state reg.pmc_preclean (codes "FAULT") || is_state reg.pmc_deposition (codes "FAULT")

  -- What holds when a START goes out with number `n`: nothing is pending, neither process module
  -- reports FAULT, the module that is told to start is usable and IDLE, and deposition starts only behind preclean.
  pub record MayStart (reg : ModuleRegistry D) (pending : Bool) (n : ℕ) (job : JobState) (t : Tick)
      : Type 0 where
    pub none_pending : pending ≡ false
    pub no_fault : in_fault reg ≡ false
    pub numbered : t.action.seq ≡ n
    pub next_number : t.next_seq ≡ (n + 1) % 2 ^ 32
    pub ready :
        (t.action.dev ≡ pos 1)
          × (t.job_state ≡ preclean_sent)
          × (job ≡ job_idle)
          × (is_idle_usable reg.pmc_preclean ≡ true)
        ⊎ (t.action.dev ≡ pos 2)
          × (t.job_state ≡ deposition_sent)
          × ((job ≡ preclean_done) × (is_usable reg.pmc_deposition (codes "IDLE") ≡ true)
              ⊎ (job ≡ job_idle)
                × (is_done reg.pmc_preclean ≡ true)
                × (is_idle_usable reg.pmc_deposition ≡ true))

  -- Every tick moves the job along an edge of the diagram `Edge` or leaves it, whatever the registry
  -- says and whether or not a request waits.
  pub scheduler_tick-Edge :
      (reg : ModuleRegistry D) (pending : Bool) (n : ℕ) (job : JobState)
      → Edge job (scheduler_tick reg pending n job).job_state
  unfolding scheduler_tick
  scheduler_tick-Edge reg pending n job_idle = grind (arith, edges)
  scheduler_tick-Edge reg pending n _ = grind (arith, edges)

  -- A tick that sends a START does so only while no request waits and neither the preclean nor the
  -- deposition module is in FAULT; the transfer module is not asked. The START has the next number, and is for the idle preclean module when the job is idle, or for the idle
  -- deposition module when preclean is done.
  pub scheduler_tick-MayStart :
      (reg : ModuleRegistry D) (pending : Bool) (n : ℕ) (job : JobState)
      → (scheduler_tick reg pending n job).action.should_send ≡ true
      → MayStart reg pending n job (scheduler_tick reg pending n job)
  unfolding scheduler_tick
  scheduler_tick-MayStart reg pending n job_idle h = ground arith
  scheduler_tick-MayStart reg pending n _ h = ground arith

  -- A tick that sends nothing keeps the number.
  pub scheduler_tick_quiet :
      (reg : ModuleRegistry D) (pending : Bool) (n : ℕ) (job : JobState)
      → (scheduler_tick reg pending n job).action.should_send ≡ false
      → (scheduler_tick reg pending n job).next_seq ≡ n
  unfolding scheduler_tick
  scheduler_tick_quiet reg pending n job_idle h = ground arith
  scheduler_tick_quiet reg pending n _ h = ground arith

  -- The tick without its second pair of tests for a module that is not healthy.
  abbrev pub tick_once : ModuleRegistry D → Bool → ℕ → JobState → Tick
  tick_once reg pending n job =
      if pending
      then stay n job
      else if in_preclean job && (reg.pmc_preclean.registered && not reg.pmc_preclean.healthy)
      then stay n job_error
      else if in_deposition job && (reg.pmc_deposition.registered && not reg.pmc_deposition.healthy)
      then stay n job_error
      else if in_fault reg
      then stay n job_error
      else dispatch_job reg n job

  -- The second pair of tests for a module that is not healthy changes no tick: with or without it the
  -- tick is the same.
  pub scheduler_tick-tick_once :
      (reg : ModuleRegistry D) (pending : Bool) (n : ℕ) (job : JobState)
      → scheduler_tick reg pending n job ≡ tick_once reg pending n job
  unfolding scheduler_tick
  scheduler_tick-tick_once reg pending n job_idle = ground arith
  scheduler_tick-tick_once reg pending n _ = ground arith
