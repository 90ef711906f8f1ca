-- ===== src/Pmc/Peers.antt =====
-- nodes/pmc/src/pmc_connection.c: the list of connections.
use equipment_control.Pmc.{
  peer_unknown, peer_eqd, peer_sim, is_sim, pmc_find_sim, PmcConnection, PeerType,
}
use equipment_control.Prelude.{
  Bool-cases, ◌&&◌, ◌≡◌, inl, inr, refl, true, List, [], ◌∷◌, some, arith,
}
use equipment_control.Prelude.Int.{eqb_ℤ, eqb_ℤ_iff, ℤ}

pub data Member (c : PmcConnection) : List PmcConnection → Type 0 where
  here : (d : PmcConnection) (rest : List PmcConnection) → c ≡ d → Member c (d ∷ rest)
  there : (d : PmcConnection) (rest : List PmcConnection) → Member c rest → Member c (d ∷ rest)

-- A connection of the list that a device with that number has registered.
pub record Registered (c : PmcConnection) (dev : ℤ) (conns : List PmcConnection) : Type 0 where
  pub member : Member c conns
  pub registered : c.registered ≡ true
  pub is_sim : c.type ≡ peer_sim
  pub same_dev : c.dev_id ≡ dev

is_sim→peer_sim : (type : PeerType) → is_sim type ≡ true → type ≡ peer_sim
is_sim→peer_sim peer_sim h = refl
is_sim→peer_sim peer_eqd h = cc
is_sim→peer_sim peer_unknown h = cc

Registered-there :
    (c d : PmcConnection) (dev : ℤ) (rest : List PmcConnection)
    → Registered c dev rest
    → Registered c dev (d ∷ rest)
Registered-there c d dev rest r = record {
  member = there d rest r.member;
  registered = r.registered;
  is_sim = r.is_sim;
  same_dev = r.same_dev;
}

pub pmc_find_sim-Registered :
    (dev : ℤ) (conns : List PmcConnection) (c : PmcConnection)
    → pmc_find_sim dev conns ≡ some c
    → Registered c dev conns
unfolding pmc_find_sim
pmc_find_sim-Registered dev [] c h = cc
pmc_find_sim-Registered dev (d ∷ rest) c h =
    elim (Bool-cases (d.registered && (is_sim d.type && eqb_ℤ d.dev_id dev))) [
      | inl t ↦
          let same : c ≡ d = ground arith in
          record {
            member = here d rest same;
            registered = rw same (ground arith);
            is_sim = rw same (is_sim→peer_sim d.type (ground arith));
            same_dev = rw same ((eqb_ℤ_iff d.dev_id dev).0 (ground arith));
          }
      | inr t ↦ Registered-there c d dev rest (pmc_find_sim-Registered dev rest c (ground arith))
    ]
