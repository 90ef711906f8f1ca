-- ===== src/Tmc/Timing.antt =====
-- nodes/tmc/src/main.c: a request and a tick keep the time of a transfer.
use equipment_control.Prelude.{
  ◌⊎◌, ap, ℕ, ◌+◌, ◌<◌, ◌≡◌, refl, ◌∙◌, sym, Bool, true, false, Bytes, arith, Bool-cases, inl, inr,
  leb, lt→ltb, ◌&&◌,
}
use equipment_control.Protocol.Double.{Double}
use equipment_control.Protocol.Message.{role_eq, Role, MsgType, Message}
use equipment_control.Tmc.{
  TmcState, TmcCtx, TmcEffect, handle_req_message, send_status_evt, end_transfer, beat,
  tick_state_machine,
}
use equipment_control.Tmc.Transfers.{
  Timed, begun_at, MoveOutcome, stays, goes, handle_req_message-MoveOutcome, send_status_evt_kept,
}

abbrev pub IsTimed : TmcCtx → Type 0
IsTimed ctx = Timed ctx.state ctx.transfer_started_ms

-- A transfer that goes on at `now` began less than 2000 ms before.
abbrev pub IsShort : ℕ → TmcCtx → Type 0
IsShort now ctx = ctx.state ≡ TmcState.transferring → now < ctx.transfer_started_ms + 2000

IsTimed-kept :
    (a b : TmcCtx)
    → b.state ≡ a.state
    → b.transfer_started_ms ≡ a.transfer_started_ms
    → IsTimed a
    → IsTimed b
IsTimed-kept a b s t h = rw (s, t) h

IsShort-kept :
    (now : ℕ) (a b : TmcCtx)
    → b.state ≡ a.state
    → b.transfer_started_ms ≡ a.transfer_started_ms
    → IsShort now a
    → IsShort now b
IsShort-kept now a b s t h = λ e. rw t (h (sym s ∙ e))

&&-false : (b : Bool) → (b && false) ≡ false
&&-false true = refl
&&-false false = refl

asked_role : (r : Role) → role_eq r Role.req ≡ true → r ≡ Role.req
asked_role Role.req h = refl
asked_role _ h = cc

transferring_begun : (s : TmcState) (n : ℕ) → s ≡ TmcState.transferring → Timed s n → 0 < n
transferring_begun TmcState.transferring n e t = t
transferring_begun _ n e t = cc

begun_at-Timed : (now : ℕ) (s : TmcState) → 0 < now → Timed s (begun_at now s)
begun_at-Timed now TmcState.transferring p = p
begun_at-Timed now _ p = refl

-- What is left of a transfer at `now`: it began then, or it is the one of before.
abbrev pub Begun : ℕ → TmcCtx → TmcCtx → Type 0
Begun now before after =
    after.state ≡ TmcState.transferring
    → (after.transfer_started_ms ≡ now)
      ⊎ ((before.state ≡ TmcState.transferring)
          × (after.transfer_started_ms ≡ before.transfer_started_ms))

-- No transfer begins.
abbrev pub GoesOn : TmcCtx → TmcCtx → Type 0
GoesOn before after =
    after.state ≡ TmcState.transferring
    → (before.state ≡ TmcState.transferring)
      × (after.transfer_started_ms ≡ before.transfer_started_ms)

module _ {D : Type 0} (double : Double D) (can_send : Bytes → Bool) where
  moved-IsTimed :
      (now : ℕ) (type : MsgType) (ctx after : TmcCtx)
      → 0 < now
      → IsTimed ctx
      → MoveOutcome now type ctx.state ctx after
      → IsTimed after
  moved-IsTimed now type ctx after p t (stays n same) = rw same t
  moved-IsTimed now type ctx after p t (goes v begun) = rw begun (begun_at-Timed now after.state p)

  moved-Begun :
      (now : ℕ) (type : MsgType) (ctx after : TmcCtx)
      → MoveOutcome now type ctx.state ctx after
      → Begun now ctx after
  moved-Begun now type ctx after (stays n same) e =
      inr (ap (λ c. c.state) (sym same) ∙ e, ap (λ c. c.transfer_started_ms) same)
  moved-Begun now type ctx after (goes v begun) e = inl (begun ∙ ap (begun_at now) e)

  -- A transfer that goes on after a message at `now` began with it, or was there before.
  pub handle-Begun :
      (now : ℕ) (ctx : TmcCtx) (m : Message D)
      → Begun now ctx (handle_req_message double can_send now ctx m).ctx
  unfolding handle_req_message
  handle-Begun now ctx m = elim (Bool-cases (role_eq m.role Role.req)) [
    | inl asked ↦
        moved-Begun now m.type ctx _
          (handle_req_message-MoveOutcome double can_send now ctx m (asked_role m.role asked))
    | inr other ↦ simp other (λ e. inr (e, refl))
  ]

  pub handle-IsTimed :
      (now : ℕ) (ctx : TmcCtx) (m : Message D)
      → 0 < now
      → IsTimed ctx
      → IsTimed (handle_req_message double can_send now ctx m).ctx
  unfolding handle_req_message
  handle-IsTimed now ctx m p t = elim (Bool-cases (role_eq m.role Role.req)) [
    | inl asked ↦
        moved-IsTimed now m.type ctx _ p t
          (handle_req_message-MoveOutcome double can_send now ctx m (asked_role m.role asked))
    | inr other ↦ simp other t
  ]

  end_transfer-IsShort :
      (s : TmcState) (now : ℕ) (ctx : TmcCtx)
      → ctx.state ≡ s
      → IsTimed ctx
      → IsTimed (end_transfer double can_send s now ctx).ctx
        × IsShort now (end_transfer double can_send s now ctx).ctx
  unfolding end_transfer
  end_transfer-IsShort TmcState.transferring now ctx e t =
      elim (Bool-cases (leb (ctx.transfer_started_ms + 2000) now)) [
        | inl late ↦
            let finished : TmcCtx = record ctx { state = TmcState.done; transfer_started_ms = 0 } in
            let (s, k) = send_status_evt_kept double can_send now finished in
            let begun : 0 < ctx.transfer_started_ms = transferring_begun ctx.state _ e t in
            simp (late, lt→ltb 0 ctx.transfer_started_ms begun)
              (
                IsTimed-kept finished (send_status_evt double can_send now finished).ctx s k refl,
                IsShort-kept now finished (send_status_evt double can_send now finished).ctx s k
                    (λ h. cc),
              )
        | inr early ↦ simp (early, &&-false) (t, λ h. ground arith)
      ]
  end_transfer-IsShort TmcState.idle now ctx e t = (t, λ h. cc)
  end_transfer-IsShort TmcState.done now ctx e t = (t, λ h. cc)
  end_transfer-IsShort TmcState.fault now ctx e t = (t, λ h. cc)

  beat_same :
      (now : ℕ) (e : TmcEffect)
      → ((beat double can_send now e).ctx.state ≡ e.ctx.state)
        × ((beat double can_send now e).ctx.transfer_started_ms ≡ e.ctx.transfer_started_ms)
  unfolding beat
  beat_same now e = ground (arith, send_status_evt_kept double can_send now e.ctx)

  pub tick_state_machine-IsShort :
      (now : ℕ) (ctx : TmcCtx)
      → IsTimed ctx
      → IsTimed (tick_state_machine double can_send now ctx).ctx
        × IsShort now (tick_state_machine double can_send now ctx).ctx
  unfolding tick_state_machine
  tick_state_machine-IsShort now ctx t =
      let (timed, short) = end_transfer-IsShort ctx.state now ctx refl t in
      let e = end_transfer double can_send ctx.state now ctx in
      let after = (beat double can_send now e).ctx in
      let (s, k) = beat_same now e in
      (IsTimed-kept e.ctx after s k timed, IsShort-kept now e.ctx after s k short)

  end_transfer-GoesOn :
      (s : TmcState) (now : ℕ) (ctx : TmcCtx)
      → ctx.state ≡ s
      → GoesOn ctx (end_transfer double can_send s now ctx).ctx
  unfolding end_transfer
  end_transfer-GoesOn TmcState.transferring now ctx s e = (
    s,
    ground (
      arith,
      send_status_evt_kept double can_send now
          (record ctx { state = TmcState.done; transfer_started_ms = 0 }),
    ),
  )
  end_transfer-GoesOn _ now ctx s e = (e, refl)

  pub tick_state_machine-GoesOn :
      (now : ℕ) (ctx : TmcCtx) → GoesOn ctx (tick_state_machine double can_send now ctx).ctx
  unfolding tick_state_machine
  tick_state_machine-GoesOn now ctx e =
      let f = end_transfer double can_send ctx.state now ctx in
      let (s, k) = beat_same now f in
      let (before, same) = end_transfer-GoesOn ctx.state now ctx refl (sym s ∙ e) in
      (before, k ∙ same)
