-- ===== src/Equipmentd/Server/Exchange.antt =====
-- services/equipmentd/src/main.c: a command and its answer, from the client to the controller and back.
use equipment_control.Equipmentd.Tracker.Slots.{count_valid}
use equipment_control.Equipmentd.Server.Relay.{handle_message_relays, IsAnswer, Forgotten}
use equipment_control.Equipmentd.Tracker.Lookup.{UniqueKeys, lookup_request}
use equipment_control.Equipmentd.Server.Forward.{
  resolve_target_fd-is_controller_fd, handle_message_forwards, Remembered, IsCommand,
}
use equipment_control.Equipmentd.Server.{
  pending, answered, handle_message, send_line, resolve_target_fd, AppCtx,
}
use equipment_control.Protocol.Double.{Double}
use equipment_control.Equipmentd.Tracker.{PendingRequest, RequestTracker}
use equipment_control.Prelude.{
  ℕ, ◌≡◌, ◌<◌, refl, Bool, List, none, some, arith, Bytes, length, ◌∙◌, ap, sym,
}
use equipment_control.Protocol.Message.{Message}

restored :
    (before middle after : RequestTracker) (seq dev : ℕ) (new : PendingRequest)
    → new.seq ≡ seq
    → new.dev ≡ dev
    → lookup_request before seq dev ≡ none
    → Remembered before middle new
    → Forgotten middle after seq dev
    → (seq' dev' : ℕ) → lookup_request after seq' dev' ≡ lookup_request before seq' dev'
restored before middle after seq dev new s d fresh r f seq' dev' =
    ground (arith, r.0 seq' dev', f.0 seq' dev')

lookup_request-Remembered :
    (before after : RequestTracker) (seq dev : ℕ) (new : PendingRequest)
    → new.seq ≡ seq
    → new.dev ≡ dev
    → Remembered before after new
    → lookup_request after seq dev ≡ some new
lookup_request-Remembered before after seq dev new s d r = ground (arith, r.0 seq dev)

module _ {D : Type 0} (double : Double D) (can_write : ℕ → Bytes → Bool) where
  -- When the connection `fd` sends a command for a device whose controller `target` is connected, a
  -- slot is free, keys are unique, no request waits under its key and the writes succeed, then the command is
  -- written to `target`, the answer that `target` sends under that key is written to `fd` and to nobody
  -- else, and afterwards the requests that wait are those of before.
  pub exchange :
      (fd now now' : ℕ) (ctx : AppCtx D) (m answer : Message D) (target : ℕ)
      (asked told : List (ℕ × Bytes))
      → IsCommand m
      → resolve_target_fd ctx m.dev ≡ some target
      → count_valid ctx.tracker.items < length ctx.tracker.items
      → UniqueKeys ctx.tracker.items
      → lookup_request ctx.tracker m.seq m.dev ≡ none
      → IsAnswer answer
      → answer.seq ≡ m.seq
      → answer.dev ≡ m.dev
      → send_line double can_write target m ≡ some asked
      → send_line double can_write fd answer ≡ some told
      → let ctx' = (handle_message double can_write fd now ctx m).ctx in
        ((handle_message double can_write fd now ctx m).sent ≡ asked)
        × ((handle_message double can_write target now' ctx' answer).sent ≡ told)
        × ((handle_message double can_write target now' ctx' answer).result ≡ answered)
        × ((seq dev : ℕ)
            → lookup_request
                (handle_message double can_write target now' ctx' answer).ctx.tracker
                seq
                dev
              ≡ lookup_request ctx.tracker seq dev)
  exchange fd now now' ctx m answer target asked told c r room u l a same_seq same_dev s t =
      let (sent, quiet, remembered, same) =
        handle_message_forwards double can_write fd now ctx m target asked c r room u l s in
      let ctx' = (handle_message double can_write fd now ctx m).ctx in
      let controls = same target ∙ resolve_target_fd-is_controller_fd ctx m.dev target r in
      let waits =
        lookup_request-Remembered ctx.tracker ctx'.tracker answer.seq answer.dev (pending fd now m)
          (sym same_seq) (sym same_dev) remembered in
      let (sent', done, forgotten) =
        handle_message_relays double can_write target now' ctx' answer (pending fd now m) fd told a
          controls remembered.1 waits refl t in
      (
        sent,
        sent',
        done,
        restored ctx.tracker ctx'.tracker _ answer.seq answer.dev (pending fd now m) (sym same_seq)
            (sym same_dev)
            (ap (λ k. lookup_request ctx.tracker k answer.dev) same_seq
              ∙ ap (lookup_request ctx.tracker m.seq) same_dev
              ∙ l)
            remembered forgotten,
      )
