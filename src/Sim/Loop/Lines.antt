-- ===== src/Sim/Loop/Lines.antt =====
-- nodes/deviced/sim/src/main.c: the lines that the device receives, and its answers.
use equipment_control.Protocol.Codec.Render.{line_format-render, render}
use equipment_control.Prelude.{
  ltb, ◌++◌, ◌+◌, ℕ, zero, suc, ◌<◌, ◌≡◌, refl, ◌∙◌, ap, sym, Bool, [], ◌∷◌, Option, none, some,
  Bytes, length, arith, Bool-cases, Option-cases, inl, inr,
}
use equipment_control.Protocol.Double.{Double}
use equipment_control.Protocol.Message.{role_eq, Role, Message}
use equipment_control.Protocol.Session.{Session, session_feed}
use equipment_control.Protocol.Session.Stream.{pop_line-cases}
use equipment_control.Protocol.Codec.Parse.{line_parse}
use equipment_control.Sim.{
  sim_answer, fsm_handle_command, SimState, SimCtx, sim_handle_message, sim_cmd_from_message,
}
use equipment_control.Sim.Run.{Reached, then_input, command}
use equipment_control.Sim.Process.{Arithmetic, InRange}
use equipment_control.Sim.Loop.{
  buf_size, SimProcess, send_to, answer, serve_line, serve_lines, receive,
}
use equipment_control.Sim.Loop.Status.{last_status, last_status-other, IsOther, resp-IsOther}
use equipment_control.Sim.Answers.{sim_answer-Answers}

-- What the last STATUS should be, from the state that is noted as reported: none before the first.
abbrev pub Told : Type 0
Told = SimState → Option Bytes

module _ {D : Type 0} (numbers : Arithmetic D) (dev : ℕ) where
  -- The state machine of the device has only been run by its inputs, the readings are within their bounds, and
  -- the last STATUS is the one that is noted.
  pub record IsSound (tell : Told) (p : SimProcess D) : Type 0 where
    pub same_dev : p.ctx.dev_id ≡ dev
    pub reached : Reached p.ctx.fsm
    pub in_range : InRange numbers p.model
    pub told : last_status p.sent ≡ tell p.last_state

module _ {D : Type 0} (double : Double D) (numbers : Arithmetic D) (can_send : Bytes → Bool)
    (dev : ℕ) where
  open double use {zero_double}

  pub send_to-fields :
      (size : ℕ) (m : Message D) (p : SimProcess D)
      → ((send_to double numbers can_send size m p).ctx ≡ p.ctx)
        × ((send_to double numbers can_send size m p).model ≡ p.model)
        × ((send_to double numbers can_send size m p).session ≡ p.session)
        × ((send_to double numbers can_send size m p).last_state ≡ p.last_state)
  unfolding send_to
  send_to-fields size m p = ground arith

  -- Other lines leave the last STATUS.
  send_to-other :
      (size : ℕ) (m : Message D) (p : SimProcess D)
      → IsOther double m
      → last_status (send_to double numbers can_send size m p).sent ≡ last_status p.sent
  unfolding send_to
  send_to-other size m p other =
      let l = render double m ++ b'\n' ∷ [] in
      elim (Bool-cases (ltb size (length (render double m) + 2))) [
        | inl long ↦ rw (send_to, line_format-render double m size, long) refl
        | inr fits ↦ elim (Bool-cases (can_send l)) [
          | inl ok ↦
              rw (send_to, line_format-render double m size, fits, ok)
                (last_status-other p.sent l other)
          | inr ko ↦ rw (send_to, line_format-render double m size, fits, ko) refl
        ]
      ]

  handle-Reached :
      (ctx : SimCtx) (m : Message D)
      → Reached ctx.fsm
      → Reached (sim_handle_message zero_double ctx m).0.fsm
        × ((sim_handle_message zero_double ctx m).0.dev_id ≡ ctx.dev_id)
  unfolding sim_handle_message
  handle-Reached ctx m r = elim (Bool-cases (role_eq m.role Role.req)) [
    | inl asked ↦ simp asked (then_input (command (sim_cmd_from_message m.type)) ctx.fsm r, refl)
    | inr other ↦ simp other (r, refl)
  ]

  -- An answer is a response.
  handle-resp :
      (ctx : SimCtx) (m reply : Message D)
      → (sim_handle_message zero_double ctx m).1 ≡ some reply
      → reply.role ≡ Role.resp
  unfolding sim_handle_message
  handle-resp ctx m reply e = elim (Bool-cases (role_eq m.role Role.req)) [
    | inl asked ↦
        let rc = (fsm_handle_command ctx.fsm (sim_cmd_from_message m.type)).0 in
        let same : sim_answer zero_double ctx.dev_id m rc ≡ reply =
          (let found = rw asked at e in cc) in
        ap (λ x. x.role) (sym same) ∙ (sim_answer-Answers zero_double ctx.dev_id m rc).is_resp
    | inr other ↦ absurd (ground (arith, other))
  ]

  pub send_to-IsSound :
      {tell : Told} (size : ℕ) (m : Message D) (p : SimProcess D)
      → IsOther double m
      → IsSound numbers dev tell p
      → IsSound numbers dev tell (send_to double numbers can_send size m p)
  send_to-IsSound {tell} size m p other s =
      let (c, md, ss, l) = send_to-fields size m p in
      record {
        same_dev = ap (λ x. x.dev_id) c ∙ s.same_dev;
        reached = rw c s.reached;
        in_range = rw md s.in_range;
        told = send_to-other size m p other ∙ s.told ∙ ap tell (sym l);
      }

  handled-IsSound :
      {tell : Told} (m : Message D) (p : SimProcess D)
      → IsSound numbers dev tell p
      → IsSound numbers dev tell (record p { ctx = (sim_handle_message zero_double p.ctx m).0 })
  handled-IsSound m p s =
      let (reached, same) = handle-Reached p.ctx m s.reached in
      record {
        same_dev = same ∙ s.same_dev;
        reached = reached;
        in_range = s.in_range;
        told = s.told;
      }

  answer_by :
      {tell : Told} (m : Message D) (p : SimProcess D) (out : Option (Message D))
      → (sim_handle_message zero_double p.ctx m).1 ≡ out
      → IsSound numbers dev tell p
      → IsSound numbers dev tell (answer double numbers can_send m p)
        × ((answer double numbers can_send m p).session ≡ p.session)
  unfolding answer
  answer_by m p none e s = rw (answer, e) (handled-IsSound m p s, refl)
  answer_by m p (some reply) e s =
      let p' : SimProcess D = record p { ctx = (sim_handle_message zero_double p.ctx m).0 } in
      let (c, md, ss, l) = send_to-fields buf_size reply p' in
      rw (answer, e)
        (
          send_to-IsSound buf_size reply p'
              (resp-IsOther double reply (handle-resp p.ctx m reply e)) (handled-IsSound m p s),
          ss,
        )

  -- The session has no part in it.
  with_session :
      {tell : Told} (p : SimProcess D) (session : Session)
      → IsSound numbers dev tell p
      → IsSound numbers dev tell (record p { session = session })
  with_session p session s = record {
    same_dev = s.same_dev;
    reached = s.reached;
    in_range = s.in_range;
    told = s.told;
  }

  serve_line-IsSound :
      {tell : Told} (l : Bytes) (p : SimProcess D)
      → IsSound numbers dev tell p
      → IsSound numbers dev tell (serve_line double numbers can_send l p)
        × ((serve_line double numbers can_send l p).session ≡ p.session)
  unfolding serve_line
  serve_line-IsSound l p s = elim (Option-cases (line_parse double l)) [
    | inl bad ↦ rw (serve_line, bad) (s, refl)
    | inr (m, e) ↦ rw (serve_line, e) (answer_by m p _ refl s)
  ]

  serve_lines_total :
      {tell : Told} (fuel : ℕ) (p : SimProcess D)
      → length p.session.buf < fuel
      → IsSound numbers dev tell p
      → (q : SimProcess D) × (serve_lines double numbers can_send fuel p ≡ some q)
        × IsSound numbers dev tell q
  unfolding serve_lines
  serve_lines_total zero p h s = elim h [ ]
  serve_lines_total (suc fuel) p h s = elim (pop_line-cases buf_size p.session.buf) [
    | inl (inl e) ↦ (p, rw (serve_lines, e) refl, s)
    | inl (inr e) ↦ (p, rw (serve_lines, e) refl, s)
    | inr (l, rest, e, shorter) ↦
        let p' : SimProcess D = record p { session = record { buf = rest } } in
        let (sound, same) = serve_line-IsSound l p' (with_session p _ s) in
        let (q, found, good) =
          serve_lines_total fuel (serve_line double numbers can_send l p')
            (omega (arith, ap (λ x. length x.buf) same)) sound in
        (q, rw (serve_lines, e) found, good)
  ]

  pub receive_total :
      {tell : Told} (received : Option Bytes) (p : SimProcess D)
      → IsSound numbers dev tell p
      → (q : SimProcess D) × (receive double numbers can_send received p ≡ some q)
        × IsSound numbers dev tell q
  unfolding receive
  receive_total none p s = (p, refl, s)
  receive_total (some bytes) p s = elim (Option-cases (session_feed p.session bytes)) [
    | inl overflow ↦
        let (q, e, good) = serve_lines_total (suc (length p.session.buf)) p (omega arith) s in
        (q, rw (receive, overflow) e, good)
    | inr (fed, f) ↦
        let (q, e, good) =
          serve_lines_total (suc (length fed.buf)) (record p { session = fed }) (omega arith)
            (with_session p _ s) in
        (q, rw (receive, f) e, good)
  ]
