-- ===== src/Pmc/Decisions.antt =====
-- nodes/pmc/src/sequence_manager.c and interlock.c: what becomes of a request for a device.
use equipment_control.Pmc.Peers.{pmc_find_sim-Registered, Registered}
use equipment_control.Pmc.{
  route_to_sim, reject_interlock, respond_cached_status, reject_sim_not_found, pmc_find_sim,
  reject_missing_dev, pmc_sequence_decide_eqd_request, pmc_interlock_check, SeqAction,
  route_from_eqd, decide_found, PmcConnection, interlock_state,
}
use equipment_control.Prelude.{
  Bool-cases, ◌↔◌, str_eq_iff, ◌≡◌, ◌≢◌, ◌⊎◌, inl, inr, refl, true, false, List, Option, none, some,
  arith, Bytes, codes,
}
use equipment_control.Prelude.Int.{to_int32}
use equipment_control.Protocol.Message.{type_eq, MsgType, Message}

-- A command suits the state of a device.
pub data Suits : MsgType → Bytes → Type 0 where
  start_idle : Suits MsgType.start (codes "IDLE")
  stop_processing : Suits MsgType.stop (codes "PROCESSING")
  reset_fault : Suits MsgType.reset (codes "FAULT")
  other :
      (type : MsgType) (state : Bytes)
      → type ≢ MsgType.start
      → type ≢ MsgType.stop
      → type ≢ MsgType.reset
      → Suits type state

interlock_state-Suits :
    (type : MsgType) (state : Bytes) → interlock_state type state ≡ true → Suits type state
unfolding interlock_state
interlock_state-Suits MsgType.start state h = rw ((str_eq_iff state (codes "IDLE")).0 h) start_idle
interlock_state-Suits MsgType.stop state h =
    rw ((str_eq_iff state (codes "PROCESSING")).0 h) stop_processing
interlock_state-Suits MsgType.reset state h =
    rw ((str_eq_iff state (codes "FAULT")).0 h) reset_fault
interlock_state-Suits type state h = other type state (cc) (cc) (cc)

-- What is decided for a request, by the registered devices.
pub data Decided {D : Type 0} (conns : List PmcConnection) (m : Message D)
    : Option PmcConnection → SeqAction → Type 0 where
  no_dev : m.has_dev ≡ false → Decided conns m none reject_missing_dev
  unknown :
      m.has_dev ≡ true
      → pmc_find_sim (to_int32 m.dev) conns ≡ none
      → Decided conns m none reject_sim_not_found
  status :
      (c : PmcConnection)
      → Registered c (to_int32 m.dev) conns
      → m.type ≡ MsgType.status
      → Decided conns m (some c) respond_cached_status
  blocked :
      (c : PmcConnection)
      → Registered c (to_int32 m.dev) conns
      → m.type ≢ MsgType.status
      → (c.has_state ≡ false) ⊎ (interlock_state m.type c.state ≡ false)
      → Decided conns m (some c) reject_interlock
  routed :
      (c : PmcConnection)
      → Registered c (to_int32 m.dev) conns
      → c.has_state ≡ true
      → Suits m.type c.state
      → m.type ≢ MsgType.status
      → Decided conns m (some c) route_to_sim

type_eq_iff_status :
    (type : MsgType) → (type_eq type MsgType.status ≡ true) ↔ (type ≡ MsgType.status)
type_eq_iff_status _ = ground arith

not_status : (type : MsgType) → type ≡ MsgType.status → type_eq type MsgType.status ≡ false → ⊥
not_status type e s = cc

module _ {D : Type 0} where
  decide_found-Decided :
      (conns : List PmcConnection) (m : Message D) (c : PmcConnection)
      → Registered c (to_int32 m.dev) conns
      → Decided conns m (some c) (decide_found c m)
  unfolding decide_found pmc_interlock_check
  decide_found-Decided conns m c r = elim (Bool-cases (type_eq m.type MsgType.status)) [
    | inl s ↦ simp s (status c r ((type_eq_iff_status m.type).0 s))
    | inr s ↦ elim (Bool-cases c.has_state) [
      | inl h ↦ elim (Bool-cases (interlock_state m.type c.state)) [
        | inl i ↦
            simp (s, h, i)
              (routed c r h (interlock_state-Suits m.type c.state i) (λ e. not_status m.type e s))
        | inr i ↦ simp (s, h, i) (blocked c r (λ e. not_status m.type e s) (inr i))
      ]
      | inr h ↦ simp (s, h) (blocked c r (λ e. not_status m.type e s) (inl h))
    ]
  ]

  pub route_from_eqd-Decided :
      (conns : List PmcConnection) (m : Message D)
      → Decided conns m (route_from_eqd conns m).0 (route_from_eqd conns m).1
  unfolding route_from_eqd pmc_sequence_decide_eqd_request
  route_from_eqd-Decided conns m = elim (Bool-cases m.has_dev) [
    | inl d ↦ simp d (found (pmc_find_sim (to_int32 m.dev) conns) refl d)
    | inr d ↦ simp d (no_dev d)
  ]
    where
      found :
          (o : Option PmcConnection)
          → pmc_find_sim (to_int32 m.dev) conns ≡ o
          → m.has_dev ≡ true
          → Decided conns m o (elim o [ none ↦ reject_sim_not_found | some c ↦ decide_found c m ])
      found none e d = unknown d e
      found (some c) e d =
          decide_found-Decided conns m c (pmc_find_sim-Registered (to_int32 m.dev) conns c e)
