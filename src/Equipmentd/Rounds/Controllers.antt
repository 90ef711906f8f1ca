-- ===== src/Equipmentd/Rounds/Controllers.antt =====
-- services/equipmentd/src/main.c: the descriptors of the controllers that the context remembers.
use equipment_control.Protocol.Session.Stream.{pop_lines_total}
use equipment_control.Protocol.Session.{session_feed, Session}
use equipment_control.Equipmentd.Clients.Streams.{
  touched, serve_all, serve_all_ok, serve_all_bad, pack_ok, pack_bad, serve_lines-pop_lines,
}
use equipment_control.Prelude.{
  refl, [], length, suc, ◌≡◌, Bool-cases, ◌∷◌, List, ℕ, Bool, Option, none, some, arith, Bytes,
  Option-cases, inl, inr,
}
use equipment_control.Protocol.Double.{Double}
use equipment_control.Protocol.Message.{MsgType, Message}
use equipment_control.Protocol.Codec.Parse.{line_parse}
use equipment_control.Equipmentd.Tracker.{PendingRequest}
use equipment_control.Equipmentd.Router.{Routed, no_response, response, forward}
use equipment_control.Equipmentd.Server.{
  AppCtx, Handled, failed, silent, answered, settle, finish_relay, relay_response, forward_request,
  forward_to, forward_numbered, forward_line, reply, after_router, route_line, relay_or_route,
  attach_controller, handle_message, handle_parsed, handle_one_line,
}
use equipment_control.Equipmentd.Ticker.{
  drop_controller, forget, write_start, send_start, after_tick, run_scheduler, after_events,
}
use equipment_control.Equipmentd.Clients.{
  line_size, Read, chunk, end_of_file, broken, Ended, stays, hung_up, overflowed, freed,
  ServerState, close_connection, hang_up, serve_line, handle_client_event,
}

-- A predicate of the descriptor, if there is one.
abbrev pub IfSome : (ℕ → Type 0) → Option ℕ → Type 0
IfSome P none = Unit
IfSome P (some fd) = P fd

-- A predicate of the descriptors of both controllers.
abbrev pub OfControllers : {D : Type 0} → (ℕ → Type 0) → AppCtx D → Type 0
OfControllers P ctx = IfSome P ctx.pmc_fd × IfSome P ctx.tmc_fd

IfSome-forget : (P : ℕ → Type 0) (fd : ℕ) (o : Option ℕ) → IfSome P o → IfSome P (forget fd o)
IfSome-forget P fd none h = tt
IfSome-forget P fd (some other) h = ground arith

module _ {D : Type 0} (double : Double D) (can_write : ℕ → Bytes → Bool) (P : ℕ → Type 0) where
  settle-OfControllers :
      (type : MsgType) (dev : ℕ) (ctx : AppCtx D)
      → OfControllers P ctx
      → OfControllers P (settle type dev ctx)
  unfolding settle
  settle-OfControllers MsgType.stop dev ctx c = c
  settle-OfControllers MsgType.reset dev ctx c = c
  settle-OfControllers MsgType.fault dev ctx c = c
  settle-OfControllers _ dev ctx c = c

  relay_response-OfControllers :
      (ctx : AppCtx D) (slot : ℕ) (req : PendingRequest) (m : Message D)
      → OfControllers P ctx
      → OfControllers P (relay_response double can_write ctx slot req m).ctx
  unfolding relay_response finish_relay
  relay_response-OfControllers ctx slot req m c =
      ground (arith, settle-OfControllers req.type req.dev ctx c)

  forward_request-OfControllers :
      (fd now : ℕ) (ctx : AppCtx D) (m : Message D)
      → OfControllers P ctx
      → OfControllers P (forward_request double can_write fd now ctx m).ctx
  unfolding forward_request forward_to forward_numbered forward_line
  forward_request-OfControllers fd now ctx m c = ground arith

  after_router-OfControllers :
      (fd now : ℕ) (ctx : AppCtx D) (m : Message D) (r : Routed D)
      → OfControllers P ctx
      → OfControllers P (after_router double can_write fd now ctx m r).ctx
  unfolding after_router reply
  after_router-OfControllers fd now ctx m no_response c = c
  after_router-OfControllers fd now ctx m (response out) c = ground arith
  after_router-OfControllers fd now ctx m forward c = forward_request-OfControllers fd now ctx m c

  route_line-OfControllers :
      (fd now : ℕ) (ctx : AppCtx D) (m : Message D)
      → OfControllers P ctx
      → OfControllers P (route_line double can_write fd now ctx m).ctx
  unfolding route_line
  route_line-OfControllers fd now ctx m c = after_router-OfControllers fd now _ m _ c

  handle_message-OfControllers :
      (fd now : ℕ) (ctx : AppCtx D) (m : Message D)
      → P fd
      → OfControllers P ctx
      → OfControllers P (handle_message double can_write fd now ctx m).ctx
  unfolding handle_message attach_controller relay_or_route
  handle_message-OfControllers fd now ctx m p c =
      ground (arith, route_line-OfControllers fd now ctx m c, relay_response-OfControllers ctx)

  handle_one_line-OfControllers :
      (fd now : ℕ) (ctx : AppCtx D) (l : Bytes)
      → P fd
      → OfControllers P ctx
      → OfControllers P (handle_one_line double can_write fd now ctx l).ctx
  unfolding handle_one_line handle_parsed reply
  handle_one_line-OfControllers fd now ctx l p c = elim (Option-cases (line_parse double l)) [
    | inl bad ↦ rw (handle_one_line, bad) (ground arith)
    | inr (m, e) ↦ rw (handle_one_line, e) (handle_message-OfControllers fd now ctx m p c)
  ]

  run_scheduler-OfControllers :
      (now : ℕ) (ctx : AppCtx D)
      → OfControllers P ctx
      → OfControllers P (run_scheduler double can_write now ctx).0
  unfolding run_scheduler after_tick send_start write_start
  run_scheduler-OfControllers now ctx c = ground arith

  pub after_events-OfControllers :
      (now : ℕ) (ctx : AppCtx D)
      → OfControllers P ctx
      → OfControllers P (after_events double can_write now ctx).0
  unfolding after_events
  after_events-OfControllers now ctx c = run_scheduler-OfControllers now ctx c

  hang_up-OfControllers :
      (fd : ℕ) (s : ServerState D) → OfControllers P s.ctx → OfControllers P (hang_up fd s).ctx
  unfolding hang_up close_connection drop_controller
  hang_up-OfControllers fd s c =
      (IfSome-forget P fd s.ctx.pmc_fd c.0, IfSome-forget P fd s.ctx.tmc_fd c.1)

  serve_line_by :
      (fd now : ℕ) (l : Bytes) (s : ServerState D) (r : Handled)
      → (handle_one_line double can_write fd now s.ctx l).result ≡ r
      → OfControllers P (handle_one_line double can_write fd now s.ctx l).ctx
      → OfControllers P (serve_line double can_write fd now l s).1.ctx
  unfolding serve_line
  serve_line_by fd now l s failed e c = rw (serve_line, e) (hang_up-OfControllers fd _ c)
  serve_line_by fd now l s silent e c = rw (serve_line, e) c
  serve_line_by fd now l s answered e c = rw (serve_line, e) c

  serve_line-OfControllers :
      (fd now : ℕ) (l : Bytes) (s : ServerState D)
      → P fd
      → OfControllers P s.ctx
      → OfControllers P (serve_line double can_write fd now l s).1.ctx
  serve_line-OfControllers fd now l s p c =
      serve_line_by fd now l s _ refl (handle_one_line-OfControllers fd now s.ctx l p c)

  serve_all-OfControllers :
      (fd now : ℕ) (ls : List Bytes) (s : ServerState D)
      → P fd
      → OfControllers P s.ctx
      → OfControllers P (serve_all double can_write fd now ls s).1.ctx
  unfolding serve_all
  serve_all-OfControllers fd now [] s p c = c
  serve_all-OfControllers fd now (l ∷ ls) s p c =
      elim (Bool-cases (serve_line double can_write fd now l s).0) [
        | inl ok ↦
            rw (serve_all_ok double can_write fd now l ls s ok)
              (serve_all-OfControllers fd now ls _ p (serve_line-OfControllers fd now l s p c))
        | inr bad ↦
            rw (serve_all_bad double can_write fd now l ls s bad)
              (serve_line-OfControllers fd now l s p c)
      ]

  -- What holds of the descriptors of the controllers still does, if it holds of that of the client.
  pub handle_client_event-OfControllers :
      (fd now : ℕ) (reads : List Read) (session : Session) (s : ServerState D)
      → P fd
      → OfControllers P s.ctx
      → (r : Ended × ServerState D) × (handle_client_event double can_write fd now reads session s
          ≡ some r)
        × OfControllers P r.1.ctx
  unfolding handle_client_event
  handle_client_event-OfControllers fd now [] session s p c = ((stays session, s), refl, c)
  handle_client_event-OfControllers fd now (end_of_file ∷ reads) session s p c =
      ((hung_up, hang_up fd s), refl, hang_up-OfControllers fd s c)
  handle_client_event-OfControllers fd now (broken ∷ reads) session s p c =
      ((hung_up, hang_up fd s), refl, hang_up-OfControllers fd s c)
  handle_client_event-OfControllers fd now (chunk bytes ∷ reads) session s p c =
      elim (Option-cases (session_feed session bytes)) [
        | inl overflow ↦ (
          (overflowed, close_connection fd (touched fd now s)),
          rw (handle_client_event, overflow) refl,
          unfold close_connection in c,
        )
        | inr (fed, f) ↦
            let (popped, q) =
              pop_lines_total (suc (length fed.buf)) line_size fed.buf (omega arith) in
            let turn =
              serve_lines-pop_lines double can_write (suc (length fed.buf)) fd now fed popped.1
                popped.0 (touched fd now s) q in
            let r = serve_all double can_write fd now popped.0 (touched fd now s) in
            let kept = serve_all-OfControllers fd now popped.0 (touched fd now s) p c in
            elim (Bool-cases r.0) [
              | inl ok ↦
                  let (end, e, last) =
                    handle_client_event-OfControllers fd now reads popped.1 r.1 p kept in
                  (end, rw (handle_client_event, f) (rw (turn, pack_ok popped.1 r ok) e), last)
              | inr bad ↦ (
                (freed, r.1),
                rw (handle_client_event, f) (rw (turn, pack_bad popped.1 r bad) refl),
                kept,
              )
            ]
      ]
