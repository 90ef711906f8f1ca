-- ===== src/Sim/Answers.antt =====
-- nodes/deviced/sim/src/main.c: the answers of the device.
use equipment_control.Sim.{
  sim_cmd_from_message, SimState, fsm_handle_command, Fsm, sim_handle_message, sim_answer,
  fsm_command, SimCtx,
}
use equipment_control.Prelude.{
  codes, Bool-cases, ap, ◌∙◌, ◌≢◌, ◌≢◌, ℕ, ◌≡◌, ◌⊎◌, inl, inr, refl, true, false, Option, some,
}
use equipment_control.Prelude.Int.{eqb_ℤ, ℤ, pos}
use equipment_control.Protocol.Message.{Role, MsgType, Message}

-- An answer to the request `m`, from the device `dev`.
pub record Answers {D : Type 0} (dev : ℕ) (m out : Message D) : Type 0 where
  pub is_resp : out.role ≡ Role.resp
  pub from_dev : (out.dev ≡ dev) × (out.has_dev ≡ true)
  pub same_seq : (out.has_seq ≡ m.has_seq) × (m.has_seq ≡ true → out.seq ≡ m.seq)

-- The error 500 with its text.
abbrev pub IsError : {D : Type 0} → Message D → Type 0
IsError out =
    (out.type ≡ MsgType.error)
    × ((out.has_ok ≡ true) × (out.ok ≡ pos 0))
    × ((out.has_code ≡ true) × (out.code ≡ pos 500))
    × ((out.has_msg ≡ true) × (out.msg ≡ codes "SIM_CMD_FAILED"))

-- What the requests do to the state machine, where they may be made.
pub data Performs (f : Fsm) : MsgType → Fsm → Type 0 where
  starts :
      (f.state ≡ SimState.idle) ⊎ (f.state ≡ SimState.ready)
      → Performs f MsgType.start (record { state = SimState.ready; processing_ticks = 0 })
  stops :
      f.state ≡ SimState.processing
      → Performs f MsgType.stop (record { state = SimState.idle; processing_ticks = 0 })
  resets :
      f.state ≡ SimState.fault
      → Performs f MsgType.reset (record { state = SimState.recovering; processing_ticks = 0 })
  faults : Performs f MsgType.fault (record { state = SimState.fault; processing_ticks = 0 })

-- What a request comes to: it is performed and the answer says ok with its type, or it cannot be performed,
-- the answer is an error and the device is as it was.
pub data Outcome {D : Type 0} (ctx : SimCtx) (m : Message D) (r : SimCtx × Option (Message D))
    : Type 0 where
  accepted :
      (out : Message D) (after : Fsm)
      → r.1 ≡ some out
      → Answers ctx.dev_id m out
      → Performs ctx.fsm m.type after
      → r.0 ≡ record ctx { fsm = after }
      → (out.type ≡ m.type) × (out.has_ok ≡ true) × (out.ok ≡ pos 1)
      → Outcome ctx m r
  turned_down :
      (out : Message D)
      → r.1 ≡ some out
      → Answers ctx.dev_id m out
      → ((after : Fsm) → ¬ Performs ctx.fsm m.type after)
      → r.0 ≡ ctx
      → IsError out
      → Outcome ctx m r

-- The result of a command: it is performed, or refused without effect.
abbrev Commanded : MsgType → SimState → Fsm → Type 0
Commanded type s f =
    let (rc, after) = fsm_command (sim_cmd_from_message type) s f in
    ((rc ≡ pos 0) × Performs f type after)
    ⊎ ((eqb_ℤ rc (pos 0) ≡ false) × (after ≡ f) × ((next : Fsm) → ¬ Performs f type next))

no_start :
    {f next : Fsm}
    → f.state ≢ SimState.idle
    → f.state ≢ SimState.ready
    → ¬ Performs f MsgType.start next
no_start i r (starts (inl e)) = i e
no_start i r (starts (inr e)) = r e

no_stop : {f next : Fsm} → f.state ≢ SimState.processing → ¬ Performs f MsgType.stop next
no_stop n (stops e) = n e

no_reset : {f next : Fsm} → f.state ≢ SimState.fault → ¬ Performs f MsgType.reset next
no_reset n (resets e) = n e

fsm_command-Commanded : (type : MsgType) (s : SimState) (f : Fsm) → f.state ≡ s → Commanded type s f
unfolding fsm_command sim_cmd_from_message
fsm_command-Commanded MsgType.start SimState.idle f e = inl (refl, starts (inl e))
fsm_command-Commanded MsgType.start SimState.ready f e = inl (refl, starts (inr e))
fsm_command-Commanded MsgType.start _ f e = inr (refl, refl, λ next. no_start (λ h. cc) (λ h. cc))
fsm_command-Commanded MsgType.stop SimState.processing f e = inl (refl, stops e)
fsm_command-Commanded MsgType.stop _ f e = inr (refl, refl, λ next. no_stop (λ h. cc))
fsm_command-Commanded MsgType.reset SimState.fault f e = inl (refl, resets e)
fsm_command-Commanded MsgType.reset _ f e = inr (refl, refl, λ next. no_reset (λ h. cc))
fsm_command-Commanded MsgType.fault _ f e = inl (refl, faults)
fsm_command-Commanded _ _ f e = inr (refl, refl, λ next p. elim p [ ])

module _ {D : Type 0} (zero_double : D) where
  pub sim_answer-Answers :
      (dev : ℕ) (m : Message D) (rc : ℤ) → Answers dev m (sim_answer zero_double dev m rc)
  unfolding sim_answer
  sim_answer-Answers dev m rc = elim (Bool-cases (eqb_ℤ rc (pos 0))) [
    | inl e ↦
        simp e (record { is_resp = refl; from_dev = (refl, refl); same_seq = (refl, λ h. simp h) })
    | inr e ↦
        simp e (record { is_resp = refl; from_dev = (refl, refl); same_seq = (refl, λ h. simp h) })
  ]

  sim_answer_accepted :
      (dev : ℕ) (m : Message D)
      → ((sim_answer zero_double dev m (pos 0)).type ≡ m.type)
        × ((sim_answer zero_double dev m (pos 0)).has_ok ≡ true)
        × ((sim_answer zero_double dev m (pos 0)).ok ≡ pos 1)
  unfolding sim_answer
  sim_answer_accepted dev m = (refl, refl, refl)

  sim_answer_refused :
      (dev : ℕ) (m : Message D) (rc : ℤ)
      → eqb_ℤ rc (pos 0) ≡ false
      → IsError (sim_answer zero_double dev m rc)
  unfolding sim_answer
  sim_answer_refused dev m rc e = simp e (refl, (refl, refl), (refl, refl), (refl, refl))

  sim_handle_message_req :
      (ctx : SimCtx) (m : Message D)
      → m.role ≡ Role.req
      → sim_handle_message zero_double ctx m ≡ (
        record ctx { fsm = (fsm_handle_command ctx.fsm (sim_cmd_from_message m.type)).1 },
        some (
            sim_answer zero_double ctx.dev_id m
              (fsm_handle_command ctx.fsm (sim_cmd_from_message m.type)).0),
      )
  unfolding sim_handle_message
  sim_handle_message_req ctx m r = simp r

  -- Every request is answered by the device under its number: a START of an idle or ready device, a STOP of
  -- one that processes, a RESET of one in fault and any FAULT are performed, as `Performs` says, and answered
  -- with ok; every other request is answered with the error 500 and leaves the device as it was.
  pub sim_handle_message-Outcome :
      (ctx : SimCtx) (m : Message D)
      → m.role ≡ Role.req
      → Outcome ctx m (sim_handle_message zero_double ctx m)
  unfolding fsm_handle_command
  sim_handle_message-Outcome ctx m r =
      let (rc, after) = fsm_handle_command ctx.fsm (sim_cmd_from_message m.type) in
      let e = sim_handle_message_req ctx m r in
      elim (fsm_command-Commanded m.type ctx.fsm.state ctx.fsm refl) [
        | inl (ok, performed) ↦
            accepted (sim_answer zero_double ctx.dev_id m (pos 0)) after
              (ap (λ w. w.1) e ∙ ap (λ k. some (sim_answer zero_double ctx.dev_id m k)) ok)
              (sim_answer-Answers ctx.dev_id m (pos 0)) performed (ap (λ w. w.0) e)
              (sim_answer_accepted ctx.dev_id m)
        | inr (other, same, never) ↦
            turned_down (sim_answer zero_double ctx.dev_id m rc) (ap (λ w. w.1) e)
              (sim_answer-Answers ctx.dev_id m rc) never
              (ap (λ w. w.0) e ∙ ap (λ f. record ctx { fsm = f }) same)
              (sim_answer_refused ctx.dev_id m rc other)
      ]
