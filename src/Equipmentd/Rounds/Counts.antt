-- ===== src/Equipmentd/Rounds/Counts.antt =====
-- services/equipmentd/src/main.c: how often a descriptor is open, and how often it is in the table.
use equipment_control.Prelude.{
  not, ℕ, ◌+◌, ◌≤◌, ◌≡◌, refl, List, [], ◌∷◌, ◌++◌, arith, if◌then◌else◌, ◌==◌, ◌&&◌, ltb,
}
use equipment_control.Protocol.Session.{Session}
use equipment_control.Equipmentd.Connections.{
  Connection, register_connection, unregister_connection,
}
use equipment_control.Equipmentd.Connections.Scan.{count_if, is_old, count_closed}
use equipment_control.Equipmentd.Clients.Endings.{count, unregister-IsRemoved}
use equipment_control.Equipmentd.Rounds.{
  Client, count_open, put_session, remove_client, remove_clients,
}

pub count_open-put :
    (fd : ℕ) (session : Session) (other : ℕ) (cs : List Client)
    → count_open other (put_session fd session cs) ≡ count_open other cs
unfolding put_session
count_open-put fd session other [] = refl
count_open-put fd session other (c ∷ rest) = ground (arith, count_open-put fd session other rest)

pub count_open-remove :
    (fd other : ℕ) (cs : List Client)
    → count_open other (remove_client fd cs) ≡ (if other == fd then 0 else count_open other cs)
unfolding remove_client
count_open-remove fd other [] = ground arith
count_open-remove fd other (c ∷ rest) = ground (arith, count_open-remove fd other rest)

pub count_open-remove_all :
    (fds : List ℕ) (other : ℕ) (cs : List Client)
    → count_open other (remove_clients fds cs)
      ≡ (if ltb 0 (count_closed other fds) then 0 else count_open other cs)
unfolding remove_clients
count_open-remove_all [] other cs = refl
count_open-remove_all (fd ∷ fds) other cs =
    ground
      (arith, count_open-remove_all fds other (remove_client fd cs), count_open-remove fd other cs)

pub count-append :
    (fd : ℕ) (xs ys : List Connection) → count fd (xs ++ ys) ≡ count fd xs + count fd ys
count-append fd [] ys = omega arith
count-append fd (x ∷ xs) ys = ground (arith, count-append fd xs ys)

pub register-count :
    (other : ℕ) (table : List Connection) (c : Connection)
    → count other (register_connection table c) ≤ count other table + count other (c ∷ [])
unfolding register_connection
register-count other table c = ground (arith, count-append other table (c ∷ []))

-- The old entries and the others.
pub count-split :
    (now fd : ℕ) (table : List Connection)
    → count fd table
      ≡ count_if (λ c. (c.fd == fd) && is_old now c) table
        + count_if (λ c. (c.fd == fd) && not (is_old now c)) table
count-split now fd [] = refl
count-split now fd (c ∷ rest) = ground (arith, count-split now fd rest)

pub count-count_if :
    (fd : ℕ) (table : List Connection) → count fd table ≡ count_if (λ c. c.fd == fd) table
count-count_if fd [] = refl
count-count_if fd (c ∷ rest) = ground (arith, count-count_if fd rest)

-- The table when a connection has been added, and when it has been removed again.
pub accept-count :
    (table : List Connection) (fd now other : ℕ)
    → count fd table ≡ 0
    → let added = register_connection table (record { fd = fd; last_active_ms = now }) in
      (count other added ≤ (if fd == other then 1 else 0) + count other table)
      × (count other (unregister_connection added fd) ≤ count other table)
accept-count table fd now other none_there =
    let added = register_connection table (record { fd = fd; last_active_ms = now }) in
    let r = register-count other table (record { fd = fd; last_active_ms = now }) in
    let r' = register-count fd table (record { fd = fd; last_active_ms = now }) in
    let u = unregister-IsRemoved fd added other in (ground arith, ground arith)
