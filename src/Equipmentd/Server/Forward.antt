-- ===== src/Equipmentd/Server/Forward.antt =====
-- services/equipmentd/src/main.c: a command of a client on its way to a controller and back.
use equipment_control.Equipmentd.Registry.{ModuleRegistry}
use equipment_control.Equipmentd.Tracker.Lookup.{lookup_request-alloc, UniqueKeys, lookup_request}
use equipment_control.Equipmentd.Server.{
  forward_numbered, forward_to, after_router, silent, pending, route_line, forward_request,
  send_line, relay_or_route, waiting_slot, is_controller_fd, AppCtx, resolve_target_fd,
  handle_message, forward_line,
}
use equipment_control.Protocol.Double.{Double}
use equipment_control.Equipmentd.Tracker.{
  write_slot, request_tracker_alloc, PendingRequest, RequestTracker,
}
use equipment_control.Equipmentd.Router.{
  forward, handle_req, router_handle, resolved, resolve_controller_fd, is_ping, is_command,
}
use equipment_control.Prelude.{
  ℕ, ◌≡◌, ◌<◌, refl, Bool, true, false, List, Option, none, some, arith, Bytes, ◌==◌, ◌&&◌,
  if◌then◌else◌, length, ◌∙◌, ap,
}
use equipment_control.Protocol.Message.{type_eq, Role, MsgType, Message}
use equipment_control.Equipmentd.Tracker.Slots.{
  request_tracker_alloc-Allocated, count_valid, Allocated, no_room,
}

-- A command with a number, for a device.
pub record IsCommand {D : Type 0} (m : Message D) : Type 0 where
  pub is_req : m.role ≡ Role.req
  pub command : is_command m.type ≡ true
  pub numbered : m.has_seq ≡ true
  pub addressed : m.has_dev ≡ true

-- The table after a request has been remembered.
abbrev pub Remembered : RequestTracker → RequestTracker → PendingRequest → Type 0
Remembered before after new =
    ((seq dev : ℕ)
      → lookup_request after seq dev ≡ (
          if (new.seq == seq) && (new.dev == dev) then some new else lookup_request before seq dev))
    × UniqueKeys after.items

command_not_ping : (type : MsgType) → is_command type ≡ true → is_ping type ≡ false
command_not_ping MsgType.ping c = cc
command_not_ping _ c = refl

pub command_not_register :
    (type : MsgType) → is_command type ≡ true → type_eq type MsgType.register ≡ false
command_not_register MsgType.register c = cc
command_not_register _ c = refl

room_for_one :
    (t : RequestTracker)
    → count_valid t.items < length t.items
    → (w : ℕ × RequestTracker) × (request_tracker_alloc t ≡ some w)
room_for_one t room = from (request_tracker_alloc t) refl (request_tracker_alloc-Allocated t)
  where
    from :
        (o : Option (ℕ × RequestTracker))
        → request_tracker_alloc t ≡ o
        → Allocated t o
        → (w : ℕ × RequestTracker) × (request_tracker_alloc t ≡ some w)
    from none e (no_room full) = ground arith
    from (some w) e a = (w, e)

module _ {D : Type 0} where
  -- The two functions that look for the controller of a device agree.
  pub resolve_target_fd-resolve_controller_fd :
      (ctx : AppCtx D) (m : Message D) (target : ℕ)
      → m.has_dev ≡ true
      → resolve_target_fd ctx m.dev ≡ some target
      → resolve_controller_fd m ctx.pmc_fd ctx.tmc_fd ≡ resolved target
  unfolding resolve_target_fd resolve_controller_fd
  resolve_target_fd-resolve_controller_fd ctx m target d r = ground arith

  pub resolve_target_fd-is_controller_fd :
      (ctx : AppCtx D) (dev target : ℕ)
      → resolve_target_fd ctx dev ≡ some target
      → is_controller_fd ctx target ≡ true
  unfolding resolve_target_fd is_controller_fd
  resolve_target_fd-is_controller_fd ctx dev target r = ground arith

module _ {D : Type 0} (double : Double D) (can_write : ℕ → Bytes → Bool) where
  open double use {zero_double}

  router_handle_command :
      (reg : ModuleRegistry D) (ctx : AppCtx D) (now target : ℕ) (m : Message D)
      → IsCommand m
      → resolve_target_fd ctx m.dev ≡ some target
      → router_handle zero_double reg ctx.pmc_fd ctx.tmc_fd now m ≡ (reg, forward)
  unfolding router_handle handle_req
  router_handle_command reg ctx now target m c r =
      simp
        (
          c.is_req,
          c.numbered,
          command_not_ping m.type c.command,
          c.command,
          resolve_target_fd-resolve_controller_fd ctx m target c.addressed r,
        )
        (simp c.addressed)

  route_line_command :
      (fd now : ℕ) (ctx : AppCtx D) (m : Message D) (target : ℕ)
      → IsCommand m
      → resolve_target_fd ctx m.dev ≡ some target
      → route_line double can_write fd now ctx m ≡ forward_request double can_write fd now ctx m
  unfolding route_line after_router
  route_line_command fd now ctx m target c r =
      simp (router_handle_command ctx.module_registry ctx now target m c r)

  waiting_slot_req :
      (fd : ℕ) (ctx : AppCtx D) (m : Message D)
      → m.role ≡ Role.req
      → waiting_slot double can_write fd ctx m ≡ none
  unfolding waiting_slot
  waiting_slot_req fd ctx m r = ground arith

  not_attached :
      (fd now : ℕ) (ctx : AppCtx D) (m : Message D)
      → type_eq m.type MsgType.register ≡ false
      → handle_message double can_write fd now ctx m
        ≡ relay_or_route double can_write fd now ctx m (waiting_slot double can_write fd ctx m)
  unfolding handle_message
  not_attached fd now ctx m n = ground arith

  handle_message_command :
      (fd now : ℕ) (ctx : AppCtx D) (m : Message D) (target : ℕ)
      → IsCommand m
      → resolve_target_fd ctx m.dev ≡ some target
      → handle_message double can_write fd now ctx m ≡ forward_request double can_write fd now ctx m
  unfolding relay_or_route
  handle_message_command fd now ctx m target c r =
      not_attached fd now ctx m (command_not_register m.type c.command)
      ∙ ap (relay_or_route double can_write fd now ctx m) (waiting_slot_req fd ctx m c.is_req)
      ∙ route_line_command fd now ctx m target c r

  forward_line_sent :
      (ctx : AppCtx D) (target : ℕ) (m : Message D) (used : Option ℕ) (sent : List (ℕ × Bytes))
      → send_line double can_write target m ≡ some sent
      → forward_line double can_write ctx target m used
        ≡ record { ctx = ctx; sent = sent; result = silent }
  unfolding forward_line
  forward_line_sent ctx target m used sent s = rw (forward_line, s) refl

  forward_request_sent :
      (fd now : ℕ) (ctx : AppCtx D) (m : Message D) (target i : ℕ) (t : RequestTracker)
      (sent : List (ℕ × Bytes))
      → IsCommand m
      → resolve_target_fd ctx m.dev ≡ some target
      → request_tracker_alloc ctx.tracker ≡ some (i, t)
      → send_line double can_write target m ≡ some sent
      → forward_request double can_write fd now ctx m ≡ record {
        ctx = record ctx { tracker = write_slot t i (pending fd now m) };
        sent = sent;
        result = silent;
      }
  unfolding forward_request forward_to forward_numbered
  forward_request_sent fd now ctx m target i t sent c r a s =
      simp (c.addressed, c.numbered, r, a) (forward_line_sent _ target m (some i) sent s)

  -- A command with a number for a device whose controller is connected, while a slot is free, the keys
  -- of the tracker are unique, no request waits under its key and the write succeeds, is written to that controller alone and then waits for the answer, in the name
  -- of the connection that it came from; every other request waits as before and the controllers stay.
  pub handle_message_forwards :
      (fd now : ℕ) (ctx : AppCtx D) (m : Message D) (target : ℕ) (sent : List (ℕ × Bytes))
      → IsCommand m
      → resolve_target_fd ctx m.dev ≡ some target
      → count_valid ctx.tracker.items < length ctx.tracker.items
      → UniqueKeys ctx.tracker.items
      → lookup_request ctx.tracker m.seq m.dev ≡ none
      → send_line double can_write target m ≡ some sent
      → ((handle_message double can_write fd now ctx m).sent ≡ sent)
        × ((handle_message double can_write fd now ctx m).result ≡ silent)
        × Remembered ctx.tracker
            (handle_message double can_write fd now ctx m).ctx.tracker
            (pending fd now m)
        × ((other : ℕ)
            → is_controller_fd (handle_message double can_write fd now ctx m).ctx other
              ≡ is_controller_fd ctx other)
  unfolding is_controller_fd
  handle_message_forwards fd now ctx m target sent c r room u l s =
      let ((i, t), a) = room_for_one ctx.tracker room in
      rw
        (handle_message_command fd now ctx m target c r
          ∙ forward_request_sent fd now ctx m target i t sent c r a s)
        (refl, refl, lookup_request-alloc ctx.tracker (pending fd now m) a refl l u, λ other. refl)
