-- ===== src/Pmc/Loop/Listed.antt =====
-- nodes/pmc/src/main.c: the list of connections and the open ones.
use equipment_control.Prelude.{
  ℕ, ◌≤◌, ◌≡◌, refl, ◌∙◌, ap, sym, Bool, true, false, not, ◌&&◌, List, [], ◌∷◌, Option, none, some,
  arith, map, if◌then◌else◌, ltb,
}
use equipment_control.Protocol.Session.{Session}
use equipment_control.Pmc.{pmc_conn_add, pmc_conn_remove}
use equipment_control.Pmc.Routing.{PmcState}
use equipment_control.Pmc.Peer.{Served, accept_peer, close_connection, new_connection}
use equipment_control.Pmc.Peer.Descriptors.{fds, without, left}
use equipment_control.Pmc.Loop.{
  Client, count_open, put_session, remove_client, Accepted, Process, accept_one, accept_all,
  settle_client,
}

-- The list of connections is that of the open ones, whose descriptors are distinct.
pub record IsListed (p : Process) : Type 0 where
  pub listed : fds p.served.state ≡ map (λ c. c.fd) p.clients
  pub distinct : (fd : ℕ) → count_open fd p.clients ≤ 1

-- The kernel gives no descriptor that is open.
unfoldable pub plausible_accepts : List Accepted → Process → Bool
plausible_accepts [] p = true
plausible_accepts (a ∷ rest) p =
    not (ltb 0 (count_open a.fd p.clients)) && plausible_accepts rest (accept_one a p)

map_fd-put :
    (fd : ℕ) (session : Session) (cs : List Client)
    → map (λ c. c.fd) (put_session fd session cs) ≡ map (λ c. c.fd) cs
unfolding put_session
map_fd-put fd session [] = refl
map_fd-put fd session (c ∷ rest) = ground (arith, map_fd-put fd session rest)

count-put :
    (fd other : ℕ) (session : Session) (cs : List Client)
    → count_open other (put_session fd session cs) ≡ count_open other cs
unfolding put_session
count-put fd other session [] = refl
count-put fd other session (c ∷ rest) = ground (arith, count-put fd other session rest)

map_fd-remove :
    (fd : ℕ) (cs : List Client)
    → map (λ c. c.fd) (remove_client fd cs) ≡ without fd (map (λ c. c.fd) cs)
unfolding remove_client
map_fd-remove fd [] = refl
map_fd-remove fd (c ∷ rest) = ground (arith, map_fd-remove fd rest)

count-remove :
    (fd other : ℕ) (cs : List Client) → count_open other (remove_client fd cs) ≤ count_open other cs
unfolding remove_client
count-remove fd other [] = omega arith
count-remove fd other (c ∷ rest) = ground (arith, count-remove fd other rest)

pub accept_peer-fds :
    (polled : Bool) (fd : ℕ) (state : PmcState)
    → fds (accept_peer polled fd state) ≡ (if polled then fd ∷ fds state else fds state)
unfolding accept_peer close_connection pmc_conn_add pmc_conn_remove new_connection
accept_peer-fds polled fd state = ground arith

accept_peer-aux :
    (polled : Bool) (fd : ℕ) (state : PmcState) → (accept_peer polled fd state).aux ≡ state.aux
unfolding accept_peer close_connection
accept_peer-aux polled fd state = ground arith

accept_one-aux :
    (a : Accepted) (p : Process) → (accept_one a p).served.state.aux ≡ p.served.state.aux
unfolding accept_one
accept_one-aux a p = ground (arith, accept_peer-aux a.polled a.fd p.served.state)

accept_one-IsListed :
    (a : Accepted) (p : Process)
    → ltb 0 (count_open a.fd p.clients) ≡ false
    → IsListed p
    → IsListed (accept_one a p)
unfolding accept_one
accept_one-IsListed a p fresh l = record {
  listed = ground (arith, accept_peer-fds a.polled a.fd p.served.state, l.listed);
  distinct = λ fd. ground (arith, l.distinct fd);
}

pub accepts-IsListed :
    (accepted : List Accepted) (p : Process)
    → plausible_accepts accepted p ≡ true
    → IsListed p
    → IsListed (accept_all accepted p)
unfolding accept_all plausible_accepts
accepts-IsListed [] p h l = l
accepts-IsListed (a ∷ rest) p h l =
    accepts-IsListed rest (accept_one a p) (ground arith) (accept_one-IsListed a p (ground arith) l)

pub accepts-aux :
    (accepted : List Accepted) (p : Process)
    → (accept_all accepted p).served.state.aux ≡ p.served.state.aux
unfolding accept_all
accepts-aux [] p = refl
accepts-aux (a ∷ rest) p = accepts-aux rest (accept_one a p) ∙ accept_one-aux a p

pub settle-IsListed :
    (fd : ℕ) (o : Option Session) (p : Process) (s : Served)
    → fds s.state ≡ left o fd (fds p.served.state)
    → IsListed p
    → IsListed (settle_client fd o (record p { served = s }))
unfolding settle_client
settle-IsListed fd none p s e l = record {
  listed = e ∙ ap (without fd) l.listed ∙ sym (map_fd-remove fd p.clients);
  distinct = λ other. omega (arith, l.distinct other, count-remove fd other p.clients);
}
settle-IsListed fd (some session) p s e l = record {
  listed = e ∙ l.listed ∙ sym (map_fd-put fd session p.clients);
  distinct = λ other. omega (arith, l.distinct other, count-put fd other session p.clients);
}
