-- ===== src/Pmc/Routing/Cached.antt =====
-- nodes/pmc/src/pmc_router.c: the state that a device reports, and the requests after it.
use equipment_control.Prelude.{
  ℕ, ◌≡◌, ◌≢◌, refl, ◌∙◌, ap, sym, Bool, true, false, ◌&&◌, List, [], ◌∷◌, some, arith,
  if◌then◌else◌, Bytes, All, Bool-cases, inl, inr, copy_str,
}
use equipment_control.Prelude.Int.{ℤ, eqb_ℤ, eqb_ℤ_iff, to_int32}
use equipment_control.Protocol.Double.{Double}
use equipment_control.Protocol.Message.{MsgType, Message}
use equipment_control.Pmc.{
  PmcConnection, peer_sim, is_sim, pmc_find_sim, route_from_eqd, decide_found, remember_status,
  pmc_sequence_decide_eqd_request,
}
use equipment_control.Pmc.Peers.{Member, here, there, pmc_find_sim-Registered}
use equipment_control.Pmc.Snapshot.{Float}
use equipment_control.Pmc.Routing.{
  PmcState, put_conn, route_event, route_by_peer, pmc_route_message,
}

-- No two connections have the same descriptor.
abbrev pub IsDistinct : List PmcConnection → Type 0
IsDistinct [] = Unit
IsDistinct (c ∷ rest) = All (λ d. c.fd ≢ d.fd) rest × IsDistinct rest

-- The test of `pmc_find_sim`.
abbrev has_dev_id : ℤ → PmcConnection → Bool
has_dev_id dev c = c.registered && (is_sim c.type && eqb_ℤ c.dev_id dev)

All-Member :
    (c d : PmcConnection) (rest : List PmcConnection)
    → All (λ x. c.fd ≢ x.fd) rest
    → Member d rest
    → c.fd ≢ d.fd
All-Member c d rest a (here e es same) = λ t. a.0 (t ∙ ap (λ x. x.fd) same)
All-Member c d rest a (there e es m) = All-Member c d es a.1 m

find_sim-cons :
    (dev : ℤ) (c : PmcConnection) (rest : List PmcConnection)
    → pmc_find_sim dev (c ∷ rest) ≡ (if has_dev_id dev c then some c else pmc_find_sim dev rest)
unfolding pmc_find_sim
find_sim-cons dev c rest = refl

put_conn_same :
    (c new : PmcConnection) (rest : List PmcConnection)
    → c.fd ≡ new.fd
    → put_conn new (c ∷ rest) ≡ new ∷ rest
unfolding put_conn
put_conn_same c new rest e = ground arith

put_conn_skip :
    (c new : PmcConnection) (rest : List PmcConnection)
    → c.fd ≢ new.fd
    → put_conn new (c ∷ rest) ≡ c ∷ put_conn new rest
unfolding put_conn
put_conn_skip c new rest e = ground arith

-- A connection is found by its number in its new version.
find_sim-put_conn :
    (conns : List PmcConnection) (from new : PmcConnection) (dev : ℤ)
    → IsDistinct conns
    → pmc_find_sim dev conns ≡ some from
    → new.fd ≡ from.fd
    → has_dev_id dev new ≡ true
    → pmc_find_sim dev (put_conn new conns) ≡ some new
unfolding pmc_find_sim
find_sim-put_conn [] from new dev u f s h = cc
find_sim-put_conn (c ∷ rest) from new dev u f s h = elim (Bool-cases (has_dev_id dev c)) [
  | inl hit ↦
      let same : c ≡ from = ground (arith, hit, f) in
      rw (put_conn_same c new rest (ap (λ x. x.fd) same ∙ sym s)) (simp h)
  | inr miss ↦
      let later : pmc_find_sim dev rest ≡ some from = ground (arith, miss, f) in
      let apart = All-Member c from rest u.0 (pmc_find_sim-Registered dev rest from later).member in
      rw (put_conn_skip c new rest (λ t. apart (t ∙ s)))
        (simp miss (find_sim-put_conn rest from new dev u.1 later s h))
]

find_sim-put_conn_other :
    (conns : List PmcConnection) (from new : PmcConnection) (dev : ℤ)
    → Member from conns
    → IsDistinct conns
    → new.fd ≡ from.fd
    → has_dev_id dev new ≡ false
    → has_dev_id dev from ≡ false
    → pmc_find_sim dev (put_conn new conns) ≡ pmc_find_sim dev conns
unfolding pmc_find_sim
find_sim-put_conn_other [] from new dev m u s n o = elim m [ ]
find_sim-put_conn_other (c ∷ rest) from new dev (here _ _ same) u s n o =
    rw (put_conn_same c new rest (sym (ap (λ x. x.fd) same) ∙ sym s), ← same) (simp (n, o))
find_sim-put_conn_other (c ∷ rest) from new dev (there _ _ m) u s n o =
    let apart = All-Member c from rest u.0 m in
    let later = find_sim-put_conn_other rest from new dev m u.1 s n o in
    rw (put_conn_skip c new rest (λ t. apart (t ∙ s)))
      (ap (λ t. if has_dev_id dev c then some c else t) later)

-- What a request is decided by, once its device is found.
decided :
    {D : Type 0} (m : Message D) (conns : List PmcConnection) (sim : PmcConnection)
    → m.has_dev ≡ true
    → pmc_find_sim (to_int32 m.dev) conns ≡ some sim
    → route_from_eqd conns m ≡ (some sim, decide_found sim m)
unfolding route_from_eqd pmc_sequence_decide_eqd_request
decided m conns sim h f = simp (h, f)

remembered :
    {D : Type 0} (from : PmcConnection) (m : Message D)
    → m.type ≡ MsgType.status
    → m.has_state ≡ true
    → remember_status from m ≡ record from { state = copy_str 31 m.state; has_state = true }
unfolding remember_status
remembered from m y h = simp (y, h)

other_dev_id : (c : PmcConnection) (dev : ℤ) → c.dev_id ≢ dev → has_dev_id dev c ≡ false
other_dev_id c dev n = elim (Bool-cases (eqb_ℤ c.dev_id dev)) [
  | inl same ↦ absurd (n ((eqb_ℤ_iff c.dev_id dev).0 same))
  | inr differ ↦ ground (arith, differ)
]

module _ {D F : Type 0} (double : Double D) (float : Float F) (can_write : ℕ → Bytes → Bool) where
  route_event-conns :
      (from : PmcConnection) (m : Message D) (state : PmcState)
      → (route_event double float can_write from m state).state.conns
        ≡ put_conn (remember_status from m) state.conns
  unfolding route_event
  route_event-conns from m state = ground arith

  route_message-conns :
      (from : PmcConnection) (m : Message D) (state : PmcState)
      → from.registered ≡ true
      → from.type ≡ peer_sim
      → m.type ≡ MsgType.status
      → (pmc_route_message double float can_write from m state).state.conns
        ≡ put_conn (remember_status from m) state.conns
  unfolding pmc_route_message route_by_peer
  route_message-conns from m state r t y = simp (r, t, y) (route_event-conns from m state)

  -- After a registered device has reported its state in a STATUS, its connection holds that state, at
  -- most 31 bytes of it, and the next request for the device is decided by it; no other device is
  -- affected. The descriptors are distinct, and the connection is the one found by its number.
  pub status-then_request :
      (from : PmcConnection) (m : Message D) (state : PmcState)
      → IsDistinct state.conns
      → pmc_find_sim from.dev_id state.conns ≡ some from
      → m.type ≡ MsgType.status
      → m.has_state ≡ true
      → let conns = (pmc_route_message double float can_write from m state).state.conns in
        let now : PmcConnection = record from { state = copy_str 31 m.state; has_state = true } in
        ((next : Message D)
          → next.has_dev ≡ true
          → to_int32 next.dev ≡ from.dev_id
          → route_from_eqd conns next ≡ (some now, decide_found now next))
        × ((other : ℤ)
            → from.dev_id ≢ other
            → pmc_find_sim other conns ≡ pmc_find_sim other state.conns)
  status-then_request from m state u f y h =
      let now : PmcConnection = record from { state = copy_str 31 m.state; has_state = true } in
      let r = pmc_find_sim-Registered from.dev_id state.conns from f in
      let moved =
        route_message-conns from m state r.registered r.is_sim y
        ∙ ap (λ c. put_conn c state.conns) (remembered from m y h) in
      let found =
        find_sim-put_conn state.conns from now from.dev_id u f refl
          (rw (r.registered, r.is_sim, (eqb_ℤ_iff from.dev_id from.dev_id).1 refl) refl) in
      (
        λ next d e. rw moved (decided next (put_conn now state.conns) now d (rw e found)),
        λ other n. rw moved (
            find_sim-put_conn_other state.conns from now other r.member u refl
              (other_dev_id now other n) (other_dev_id from other n)),
      )
