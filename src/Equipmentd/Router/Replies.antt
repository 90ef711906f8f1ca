-- ===== src/Equipmentd/Router/Replies.antt =====
-- services/equipmentd/src/router.c: the answers of the router to requests.
use equipment_control.Equipmentd.Router.{
  missing_dev, unknown_dev, no_pmc, forward, response, resolved, no_tmc, is_command, route_command,
  resp_base, resolve_controller_fd, make_error, is_ping, handle_req, Routed, Resolved,
}
use equipment_control.Prelude.{
  copy_str, codes, ◌==◌, Bytes, ℕ, ◌≡◌, ◌≢◌, ◌⊎◌, inl, inr, refl, true, false, Option, none, some,
  arith, ◌||◌, Bool-cases, ◌∙◌,
}
use equipment_control.Prelude.Int.{pos}
use equipment_control.Protocol.Message.{Role, MsgType, Message}

-- An answer to `m`: a response with its number and its device.
pub record Correlated {D : Type 0} (m out : Message D) : Type 0 where
  pub is_resp : out.role ≡ Role.resp
  pub same_seq : (out.has_seq ≡ m.has_seq) × (m.has_seq ≡ true → out.seq ≡ m.seq)
  pub same_dev : (out.has_dev ≡ m.has_dev) × (m.has_dev ≡ true → out.dev ≡ m.dev)

-- An answer that says no, with its code and its text.
abbrev pub IsRefusal : {D : Type 0} → Message D → ℕ → Bytes → Type 0
IsRefusal out code text =
    (out.type ≡ MsgType.error)
    × ((out.has_ok ≡ true) × (out.ok ≡ pos 0))
    × ((out.has_code ≡ true) × (out.code ≡ pos code))
    × ((out.has_msg ≡ true) × (out.msg ≡ text))

-- What a request comes to, given the descriptors of the controllers.
pub data Replied {D : Type 0} (pmc_fd tmc_fd : Option ℕ) (m : Message D) : Routed D → Type 0 where
  no_seq :
      (out : Message D)
      → m.has_seq ≡ false
      → Correlated m out
      → IsRefusal out 400 (codes "MISSING_SEQ")
      → Replied pmc_fd tmc_fd m (response out)
  pong :
      (out : Message D)
      → m.has_seq ≡ true
      → m.type ≡ MsgType.ping
      → Correlated m out
      → (out.type ≡ MsgType.ping) × (out.ok ≡ pos 1) × (out.has_ok ≡ true)
      → Replied pmc_fd tmc_fd m (response out)
  no_dev :
      (out : Message D)
      → m.has_seq ≡ true
      → m.has_dev ≡ false
      → is_command m.type ≡ true
      → Correlated m out
      → IsRefusal out 400 (codes "MISSING_DEV")
      → Replied pmc_fd tmc_fd m (response out)
  disconnected :
      (out : Message D)
      → m.has_seq ≡ true
      → m.has_dev ≡ true
      → is_command m.type ≡ true
      → ((m.dev ≡ 100) × (tmc_fd ≡ none) × IsRefusal out 503 (codes "TMC_NOT_CONNECTED"))
        ⊎ (((m.dev ≡ 1) ⊎ (m.dev ≡ 2))
            × (pmc_fd ≡ none)
            × IsRefusal out 503 (codes "PMC_NOT_CONNECTED"))
      → Correlated m out
      → Replied pmc_fd tmc_fd m (response out)
  unknown_device :
      (out : Message D)
      → m.has_seq ≡ true
      → m.has_dev ≡ true
      → is_command m.type ≡ true
      → (m.dev ≢ 100) × (m.dev ≢ 1) × (m.dev ≢ 2)
      → Correlated m out
      → IsRefusal out 404 (codes "UNKNOWN_DEV")
      → Replied pmc_fd tmc_fd m (response out)
  unknown_type :
      (out : Message D)
      → m.has_seq ≡ true
      → is_command m.type ≡ false
      → m.type ≢ MsgType.ping
      → Correlated m out
      → IsRefusal out 404 (codes "UNKNOWN_TYPE")
      → Replied pmc_fd tmc_fd m (response out)
  forwarded :
      (target : ℕ)
      → m.has_seq ≡ true
      → m.has_dev ≡ true
      → is_command m.type ≡ true
      → ((m.dev ≡ 100) × (tmc_fd ≡ some target))
        ⊎ (((m.dev ≡ 1) ⊎ (m.dev ≡ 2)) × (pmc_fd ≡ some target))
      → Replied pmc_fd tmc_fd m forward

is_ping→ping : (type : MsgType) → is_ping type ≡ true → type ≡ MsgType.ping
is_ping→ping MsgType.ping h = refl
is_ping→ping _ h = cc

ping→is_ping : (type : MsgType) → is_ping type ≡ false → type ≢ MsgType.ping
ping→is_ping type h e = cc

-- What `resolve_controller_fd` finds for a message with a device.
data Found {D : Type 0} (pmc_fd tmc_fd : Option ℕ) (m : Message D) : Resolved → Type 0 where
  to_tmc : (fd : ℕ) → m.dev ≡ 100 → tmc_fd ≡ some fd → Found pmc_fd tmc_fd m (resolved fd)
  to_pmc :
      (fd : ℕ) → (m.dev ≡ 1) ⊎ (m.dev ≡ 2) → pmc_fd ≡ some fd → Found pmc_fd tmc_fd m (resolved fd)
  without_tmc : m.dev ≡ 100 → tmc_fd ≡ none → Found pmc_fd tmc_fd m no_tmc
  without_pmc : (m.dev ≡ 1) ⊎ (m.dev ≡ 2) → pmc_fd ≡ none → Found pmc_fd tmc_fd m no_pmc
  nowhere : (m.dev ≢ 100) × (m.dev ≢ 1) × (m.dev ≢ 2) → Found pmc_fd tmc_fd m unknown_dev

module _ {D : Type 0} where
  resolve_controller_fd-Found :
      (pmc_fd tmc_fd : Option ℕ) (m : Message D)
      → m.has_dev ≡ true
      → Found pmc_fd tmc_fd m (resolve_controller_fd m pmc_fd tmc_fd)
  unfolding resolve_controller_fd
  resolve_controller_fd-Found pmc_fd tmc_fd m d = elim (Bool-cases (m.dev == 100)) [
    | inl a ↦ simp (d, a) (tmc tmc_fd refl (ground arith))
    | inr a ↦ elim (Bool-cases (m.dev == 1 || m.dev == 2)) [
      | inl b ↦ simp (d, a, b) (pmc pmc_fd refl (ground arith))
      | inr b ↦ simp (d, a, b) (nowhere (ground arith, ground arith, ground arith))
    ]
  ]
    where
      tmc :
          (o : Option ℕ)
          → tmc_fd ≡ o
          → m.dev ≡ 100
          → Found pmc_fd tmc_fd m (elim o [ none ↦ no_tmc | some fd ↦ resolved fd ])
      tmc none e h = without_tmc h e
      tmc (some fd) e h = to_tmc fd h e

      pmc :
          (o : Option ℕ)
          → pmc_fd ≡ o
          → (m.dev ≡ 1) ⊎ (m.dev ≡ 2)
          → Found pmc_fd tmc_fd m (elim o [ none ↦ no_pmc | some fd ↦ resolved fd ])
      pmc none e h = without_pmc h e
      pmc (some fd) e h = to_pmc fd h e

module _ {D : Type 0} (zero_double : D) where
  resp_base-Correlated : (m : Message D) → Correlated m (resp_base zero_double m)
  unfolding resp_base
  resp_base-Correlated m = record {
    is_resp = refl;
    same_seq = (refl, λ h. simp h);
    same_dev = (refl, λ h. simp h);
  }

  make_error-Correlated :
      (m : Message D) (code : ℕ) (text : Bytes) → Correlated m (make_error zero_double m code text)
  unfolding make_error resp_base
  make_error-Correlated m code text = record {
    is_resp = refl;
    same_seq = (refl, λ h. simp h);
    same_dev = (refl, λ h. simp h);
  }

  make_error-IsRefusal :
      (m : Message D) (code : ℕ) (text : Bytes)
      → IsRefusal (make_error zero_double m code text) code (copy_str 127 text)
  unfolding make_error resp_base
  make_error-IsRefusal m code text = (refl, (refl, refl), (refl, refl), (refl, refl))

  resp_base-ok :
      (m : Message D)
      → ((resp_base zero_double m).type ≡ m.type)
        × ((resp_base zero_double m).ok ≡ pos 1)
        × ((resp_base zero_double m).has_ok ≡ true)
  unfolding resp_base
  resp_base-ok m = (refl, refl, refl)

  route_command-Replied :
      (pmc_fd tmc_fd : Option ℕ) (m : Message D) (r : Resolved)
      → m.has_seq ≡ true
      → m.has_dev ≡ true
      → is_command m.type ≡ true
      → Found pmc_fd tmc_fd m r
      → Replied pmc_fd tmc_fd m (route_command zero_double m r)
  unfolding route_command
  route_command-Replied pmc_fd tmc_fd m (resolved fd) s d c (to_tmc fd' a e) =
      forwarded fd' s d c (inl (a, e))
  route_command-Replied pmc_fd tmc_fd m (resolved fd) s d c (to_pmc fd' a e) =
      forwarded fd' s d c (inr (a, e))
  route_command-Replied pmc_fd tmc_fd m no_tmc s d c (without_tmc a e) =
      disconnected _ s d c (inl (a, e, make_error-IsRefusal m 503 (codes "TMC_NOT_CONNECTED")))
        (make_error-Correlated m 503 (codes "TMC_NOT_CONNECTED"))
  route_command-Replied pmc_fd tmc_fd m no_pmc s d c (without_pmc a e) =
      disconnected _ s d c (inr (a, e, make_error-IsRefusal m 503 (codes "PMC_NOT_CONNECTED")))
        (make_error-Correlated m 503 (codes "PMC_NOT_CONNECTED"))
  route_command-Replied pmc_fd tmc_fd m unknown_dev s d c (nowhere n) =
      unknown_device _ s d c n (make_error-Correlated m 404 (codes "UNKNOWN_DEV"))
        (make_error-IsRefusal m 404 (codes "UNKNOWN_DEV"))
  route_command-Replied pmc_fd tmc_fd m missing_dev s d c f = elim f [ ]

  Replied-at :
      {pmc_fd tmc_fd : Option ℕ} {m : Message D} {r r' : Routed D}
      → Replied pmc_fd tmc_fd m r'
      → r ≡ r'
      → Replied pmc_fd tmc_fd m r
  Replied-at h e = rw e h

  -- Each request is answered under its number and device, or forwarded, as `Replied` says: a refusal is
  -- an error with its code and the text of its reason (MISSING_SEQ, MISSING_DEV, UNKNOWN_DEV, UNKNOWN_TYPE,
  -- or which controller is not connected), and exactly the commands for a connected controller are
  -- forwarded.
  pub handle_req-Replied :
      (pmc_fd tmc_fd : Option ℕ) (m : Message D)
      → Replied pmc_fd tmc_fd m (handle_req zero_double pmc_fd tmc_fd m)
  unfolding handle_req
  handle_req-Replied pmc_fd tmc_fd m = elim (Bool-cases m.has_seq) [
    | inr s ↦
        Replied-at
          (no_seq (make_error zero_double m 400 (codes "MISSING_SEQ")) s
            (make_error-Correlated m 400 (codes "MISSING_SEQ"))
            (make_error-IsRefusal m 400 (codes "MISSING_SEQ")))
          (simp s)
    | inl s ↦ elim (Bool-cases (is_ping m.type)) [
      | inl p ↦
          Replied-at
            (pong (resp_base zero_double m) s (is_ping→ping m.type p) (resp_base-Correlated m)
              ((resp_base-ok m).0 ∙ is_ping→ping m.type p, (resp_base-ok m).1, (resp_base-ok m).2))
            (simp (s, p))
      | inr p ↦ elim (Bool-cases (is_command m.type)) [
        | inl c ↦ elim (Bool-cases m.has_dev) [
          | inl d ↦
              Replied-at
                (route_command-Replied pmc_fd tmc_fd m (resolve_controller_fd m pmc_fd tmc_fd) s d c
                  (resolve_controller_fd-Found pmc_fd tmc_fd m d))
                (simp (s, p, c, d))
          | inr d ↦
              Replied-at
                (no_dev (make_error zero_double m 400 (codes "MISSING_DEV")) s d c
                  (make_error-Correlated m 400 (codes "MISSING_DEV"))
                  (make_error-IsRefusal m 400 (codes "MISSING_DEV")))
                (simp (s, p, c, d))
        ]
        | inr c ↦
            Replied-at
              (unknown_type (make_error zero_double m 404 (codes "UNKNOWN_TYPE")) s c
                (ping→is_ping m.type p) (make_error-Correlated m 404 (codes "UNKNOWN_TYPE"))
                (make_error-IsRefusal m 404 (codes "UNKNOWN_TYPE")))
              (simp (s, p, c))
      ]
    ]
  ]
