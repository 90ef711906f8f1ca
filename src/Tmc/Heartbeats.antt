-- ===== src/Tmc/Heartbeats.antt =====
-- nodes/tmc/src/main.c: the status lines of a tick.
use equipment_control.Prelude.{ℕ, ◌+◌, ◌<◌, ◌≤◌, ◌≡◌, [], ◌∷◌, ◌++◌, Bytes, codes}
use equipment_control.Protocol.Double.{Double}
use equipment_control.Tmc.{TmcState, TmcCtx, TmcEffect, tmc_state_to_string}

-- The line of a status.
abbrev pub status_line : TmcState → Bytes
status_line s = codes "EVT STATUS dev=100 state=" ++ tmc_state_to_string s ++ b'\n' ∷ []

-- A transfer that has lasted for 2000 ms.
abbrev pub IsDue : ℕ → TmcCtx → Type 0
IsDue now ctx =
    (ctx.state ≡ TmcState.transferring)
    × (0 < ctx.transfer_started_ms)
    × (ctx.transfer_started_ms + 2000 ≤ now)

-- What a tick at `now` does about the status.
pub data Heartbeat (now : ℕ) (ctx : TmcCtx) (e : TmcEffect) : Type 0 where
  told :
      e.sent ≡ status_line e.ctx.state ∷ []
      → e.ctx.last_status_sent_ms ≡ now
      → (IsDue now ctx → e.ctx.state ≡ TmcState.done)
      → Heartbeat now ctx e
  quiet :
      e.sent ≡ []
      → e.ctx ≡ ctx
      → now < ctx.last_status_sent_ms + 1000
      → ¬ IsDue now ctx
      → Heartbeat now ctx e
