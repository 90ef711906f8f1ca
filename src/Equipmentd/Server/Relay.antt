-- ===== src/Equipmentd/Server/Relay.antt =====
-- services/equipmentd/src/main.c: a request that is forwarded, and the response that is relayed to
-- the client that waits for it.
use equipment_control.Equipmentd.Tracker.Lookup.{
  lookup_request-remove, find_match-Found, present, absent, Found, UniqueKeys, lookup_request,
}
use equipment_control.Equipmentd.Server.{
  answered, send_line, relay_or_route, is_controller_fd, waiting_slot, settle, relay_response,
  handle_message, finish_relay, AppCtx,
}
use equipment_control.Protocol.Double.{Double}
use equipment_control.Equipmentd.Tracker.{
  request_tracker_remove, find_match, request_tracker_find, PendingRequest, RequestTracker,
}
use equipment_control.Prelude.{
  sym, ap, ◌∙◌, get_elem?, ℕ, ◌≡◌, refl, Bool, true, List, Option, none, some, arith, Bytes, ◌==◌,
  ◌&&◌, if◌then◌else◌,
}
use equipment_control.Protocol.Message.{Role, MsgType, Message}

-- The answer to a request: a response with the number and the device of it.
pub record IsAnswer {D : Type 0} (m : Message D) : Type 0 where
  pub is_resp : m.role ≡ Role.resp
  pub numbered : m.has_seq ≡ true
  pub addressed : m.has_dev ≡ true

-- The table after a key has been forgotten.
abbrev pub Forgotten : RequestTracker → RequestTracker → ℕ → ℕ → Type 0
Forgotten before after seq dev =
    ((seq' dev' : ℕ)
      → lookup_request after seq' dev'
        ≡ (if (seq == seq') && (dev == dev') then none else lookup_request before seq' dev'))
    × UniqueKeys after.items

module _ {D : Type 0} (double : Double D) (can_write : ℕ → Bytes → Bool) where
  open double use {zero_double}

  settle-tracker :
      (type : MsgType) (dev : ℕ) (ctx : AppCtx D) → (settle type dev ctx).tracker ≡ ctx.tracker
  unfolding settle
  settle-tracker MsgType.stop dev ctx = refl
  settle-tracker MsgType.reset dev ctx = refl
  settle-tracker MsgType.fault dev ctx = refl
  settle-tracker _ dev ctx = refl

  finish_relay-tracker :
      (ctx : AppCtx D) (slot : ℕ) (req : PendingRequest) (m : Message D)
      → (finish_relay ctx slot req m).tracker ≡ request_tracker_remove ctx.tracker (some slot)
  unfolding finish_relay
  finish_relay-tracker ctx slot req m = ground (arith, settle-tracker req.type req.dev ctx)

  -- Where the slot of a waiting request is found.
  data Waits (ctx : AppCtx D) (seq dev : ℕ) (req : PendingRequest) : Type 0 where
    waits :
        (slot : ℕ)
        → request_tracker_find ctx.tracker seq dev ≡ some slot
        → get_elem? ctx.tracker.items slot ≡ some req
        → Waits ctx seq dev req

  lookup_request-Waits :
      (ctx : AppCtx D) (seq dev : ℕ) (req : PendingRequest)
      → lookup_request ctx.tracker seq dev ≡ some req
      → Waits ctx seq dev req
  unfolding lookup_request request_tracker_find
  lookup_request-Waits ctx seq dev req h =
      from (find_match seq dev ctx.tracker.items) refl (find_match-Found ctx.tracker.items seq dev)
    where
      from :
          (o : Option ℕ)
          → find_match seq dev ctx.tracker.items ≡ o
          → Found ctx.tracker.items seq dev o
          → Waits ctx seq dev req
      from none e (absent a) = cc
      from (some slot) e (present i r at m f) = waits slot e (grind arith)

  relay_response_sent :
      (ctx : AppCtx D) (slot : ℕ) (req : PendingRequest) (m : Message D) (client : ℕ)
      (sent : List (ℕ × Bytes))
      → req.client_fd ≡ some client
      → send_line double can_write client m ≡ some sent
      → relay_response double can_write ctx slot req m
        ≡ record { ctx = finish_relay ctx slot req m; sent = sent; result = answered }
  unfolding relay_response
  relay_response_sent ctx slot req m client sent c s = rw (relay_response, c, s) refl

  relay_or_route_found :
      (fd now : ℕ) (ctx : AppCtx D) (m : Message D) (slot : ℕ) (req : PendingRequest)
      → get_elem? ctx.tracker.items slot ≡ some req
      → relay_or_route double can_write fd now ctx m (some slot)
        ≡ relay_response double can_write ctx slot req m
  unfolding relay_or_route
  relay_or_route_found fd now ctx m slot req g = rw (relay_or_route, g) refl

  handle_message_answer :
      (fd now : ℕ) (ctx : AppCtx D) (m : Message D) (slot : ℕ) (req : PendingRequest)
      → IsAnswer m
      → is_controller_fd ctx fd ≡ true
      → request_tracker_find ctx.tracker m.seq m.dev ≡ some slot
      → get_elem? ctx.tracker.items slot ≡ some req
      → handle_message double can_write fd now ctx m
        ≡ relay_response double can_write ctx slot req m
  unfolding handle_message waiting_slot
  handle_message_answer fd now ctx m slot req a c f g =
      simp (a.is_resp, a.numbered, a.addressed, c, f) (relay_or_route_found fd now ctx m slot req g)

  -- In a tracker with unique keys, a response from a controller under the number and device of a
  -- request that waits for a client, when the write succeeds, is written to that client and to nobody
  -- else, and that request alone is forgotten.
  pub handle_message_relays :
      (fd now : ℕ) (ctx : AppCtx D) (m : Message D) (req : PendingRequest) (client : ℕ)
      (sent : List (ℕ × Bytes))
      → IsAnswer m
      → is_controller_fd ctx fd ≡ true
      → UniqueKeys ctx.tracker.items
      → lookup_request ctx.tracker m.seq m.dev ≡ some req
      → req.client_fd ≡ some client
      → send_line double can_write client m ≡ some sent
      → ((handle_message double can_write fd now ctx m).sent ≡ sent)
        × ((handle_message double can_write fd now ctx m).result ≡ answered)
        × Forgotten ctx.tracker
            (handle_message double can_write fd now ctx m).ctx.tracker
            m.seq
            m.dev
  handle_message_relays fd now ctx m req client sent a c u l k s =
      elim (lookup_request-Waits ctx m.seq m.dev req l) [
        | waits slot f g ↦
            let e =
              handle_message_answer fd now ctx m slot req a c f g
              ∙ relay_response_sent ctx slot req m client sent k s in
            let kept =
              finish_relay-tracker ctx slot req m
              ∙ ap (request_tracker_remove ctx.tracker) (sym f) in
            rw e (refl, refl, rw kept (lookup_request-remove ctx.tracker m.seq m.dev u))
      ]
