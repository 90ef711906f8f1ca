-- ===== src/Equipmentd/Scheduler.antt =====
-- services/equipmentd/src/scheduler.c: the job of one wafer, preclean and then deposition.
pub mod Steps
use equipment_control.Prelude.{
  ℕ, ◌+◌, ◌%◌, ◌^◌, Bool, true, false, not, ◌&&◌, ◌||◌, if◌then◌else◌, Bytes, codes, str_eq,
}
use equipment_control.Prelude.Int.{ℤ, pos, minus_one}
use equipment_control.Equipmentd.Registry.{ModuleInfo, ModuleRegistry}

pub data JobState : Type 0 where
  job_idle preclean_sent preclean_running preclean_done deposition_sent : JobState
  deposition_running job_stopped job_complete job_error : JobState

unfoldable pub job_state_to_string : JobState → Bytes
job_state_to_string job_idle = codes "JOB_IDLE"
job_state_to_string preclean_sent = codes "JOB_PRECLEAN_SENT"
job_state_to_string preclean_running = codes "JOB_PRECLEAN_RUNNING"
job_state_to_string preclean_done = codes "JOB_PRECLEAN_DONE"
job_state_to_string deposition_sent = codes "JOB_DEPOSITION_SENT"
job_state_to_string deposition_running = codes "JOB_DEPOSITION_RUNNING"
job_state_to_string job_stopped = codes "JOB_STOPPED"
job_state_to_string job_complete = codes "JOB_COMPLETE"
job_state_to_string job_error = codes "JOB_ERROR"

pub record SchedulerAction : Type 0 where
  pub should_send : Bool
  pub seq : ℕ
  pub dev : ℤ

abbrev pub no_action : SchedulerAction
no_action = record { should_send = false; seq = 0; dev = minus_one }

-- What a tick leaves in `*next_seq`, `*job_state` and `*action`.
pub record Tick : Type 0 where
  pub next_seq : ℕ
  pub job_state : JobState
  pub action : SchedulerAction

module _ {D : Type 0} where
  unfoldable pub is_state : ModuleInfo D → Bytes → Bool
  is_state m s = m.has_state && str_eq m.current_state s

  unfoldable pub is_usable : ModuleInfo D → Bytes → Bool
  is_usable m s = m.registered && (m.healthy && (m.has_state && str_eq m.current_state s))

  unfoldable pub is_done : ModuleInfo D → Bool
  is_done m = m.registered && (m.healthy && (m.has_state && str_eq m.current_state (codes "DONE")))

  unfoldable pub is_idle_usable : ModuleInfo D → Bool
  is_idle_usable m =
      m.registered && (m.healthy && (m.has_state && str_eq m.current_state (codes "IDLE")))

abbrev in_preclean : JobState → Bool
in_preclean preclean_sent = true
in_preclean preclean_running = true
in_preclean _ = false

abbrev in_deposition : JobState → Bool
in_deposition deposition_sent = true
in_deposition deposition_running = true
in_deposition _ = false

-- The job goes to `job` and nothing is sent.
abbrev stay : ℕ → JobState → Tick
stay next_seq job = record { next_seq = next_seq; job_state = job; action = no_action }

-- A START for `dev` with the next number, which wraps as a `uint32_t`.
abbrev send : ℕ → ℕ → JobState → Tick
send next_seq dev job = record {
  next_seq = (next_seq + 1) % 2 ^ 32;
  job_state = job;
  action = record { should_send = true; seq = next_seq; dev = pos dev };
}

module _ {D : Type 0} where
  -- The `switch` of `scheduler_tick`.
  unfoldable pub dispatch_job : ModuleRegistry D → ℕ → JobState → Tick
  dispatch_job reg n job_idle =
      if is_done reg.pmc_preclean && is_done reg.pmc_deposition
      then stay n job_complete
      else if is_done reg.pmc_preclean && is_idle_usable reg.pmc_deposition
      then send n 2 deposition_sent
      else if is_idle_usable reg.pmc_preclean
      then send n 1 preclean_sent
      else stay n job_idle
  dispatch_job reg n preclean_sent =
      if is_state reg.pmc_preclean (codes "PROCESSING")
      then stay n preclean_running
      else if is_state reg.pmc_preclean (codes "DONE")
      then stay n preclean_done
      else stay n preclean_sent
  dispatch_job reg n preclean_running =
      if is_state reg.pmc_preclean (codes "DONE")
      then stay n preclean_done
      else stay n preclean_running
  dispatch_job reg n preclean_done =
      if is_usable reg.pmc_deposition (codes "IDLE")
      then send n 2 deposition_sent
      else stay n preclean_done
  dispatch_job reg n deposition_sent =
      if is_state reg.pmc_deposition (codes "PROCESSING")
      then stay n deposition_running
      else if is_state reg.pmc_deposition (codes "DONE")
      then stay n job_complete
      else stay n deposition_sent
  dispatch_job reg n deposition_running =
      if is_state reg.pmc_deposition (codes "DONE")
      then stay n job_complete
      else stay n deposition_running
  dispatch_job reg n job_stopped = stay n job_stopped
  dispatch_job reg n job_complete = stay n job_complete
  dispatch_job reg n job_error = stay n job_error

  unfoldable pub scheduler_tick : ModuleRegistry D → Bool → ℕ → JobState → Tick
  unfolding dispatch_job
  scheduler_tick reg pending n job =
      if pending
      then stay n job
      else if in_preclean job && (reg.pmc_preclean.registered && not reg.pmc_preclean.healthy)
      then stay n job_error
      else if in_deposition job && (reg.pmc_deposition.registered && not reg.pmc_deposition.healthy)
      then stay n job_error
      else if is_state reg.pmc_preclean (codes "FAULT")
          || is_state reg.pmc_deposition (codes "FAULT")
      then stay n job_error
      else if reg.pmc_preclean.registered && (not reg.pmc_preclean.healthy && in_preclean job)
      then stay n job_error
      else if reg.pmc_deposition.registered && (not reg.pmc_deposition.healthy && in_deposition job)
      then stay n job_error
      else dispatch_job reg n job
