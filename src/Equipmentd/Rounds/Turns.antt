-- ===== src/Equipmentd/Rounds/Turns.antt =====
-- services/equipmentd/src/main.c: one event, as a client sees it.
use equipment_control.Prelude.{
  >>=-eq-some, append-nil, ℕ, ◌≤◌, ◌≡◌, refl, ◌∙◌, ap, sym, Bool, true, false, List, [], ◌∷◌, ◌++◌,
  none, some, arith, Bytes, length, All, map, ◌==◌, ◌⊎◌, inl, inr, Option-cases, Bool-cases,
}
use mathlib.Core.List.{flatten}
use equipment_control.Protocol.Double.{Double}
use equipment_control.Protocol.Session.{Session}
use equipment_control.Protocol.Session.Framing.{NoNewline}
use equipment_control.Protocol.Session.Stream.{
  split_lines-partial, split_lines, Short, deliver-split_lines,
}
use equipment_control.Equipmentd.Clients.{
  hung_up, overflowed, freed, stays, line_size, Read, chunk, Ended, ServerState,
  handle_client_event,
}
use equipment_control.Equipmentd.Clients.Streams.{
  touched, finish, serve_all, touch-touch, handle_chunks-deliver, handle_chunk-touched,
}
use equipment_control.Equipmentd.Rounds.{
  accept_one, settle_client, serve_event, handle_accept_event, serve_client, session_of, Accepted,
  Event, incoming, readable, Process,
}
use equipment_control.Equipmentd.Rounds.Heard.{
  IsChunk, chunks_of, heard, Stays, reads-chunks, chunks-short, session_of-put,
  session_of-put_other, session_of-remove,
}

module _ {D : Type 0} (double : Double D) (can_write : ℕ → Bytes → Bool) where
  -- The time of the reads has been noted, if there was one.
  abbrev pub noted : ℕ → ℕ → List Bytes → ServerState D → ServerState D
  noted fd now [] s = s
  noted fd now (c ∷ cs) s = touched fd now s

  -- A turn of a client whose session holds the beginning of a line.
  turn-chunks :
      (fd now : ℕ) (b : Bytes) (chunks : List Bytes) (s : ServerState D)
      → NoNewline b
      → All (λ c. length c ≤ 1024) chunks
      → Short line_size (b ++ flatten chunks)
      → let (ls, rest) = split_lines (b ++ flatten chunks) in
        handle_client_event double can_write fd now (map chunk chunks) (record { buf = b }) s
        ≡ some (
            finish
              (record { buf = rest })
              (serve_all double can_write fd now ls (noted fd now chunks s)))
  unfolding flatten handle_client_event serve_all
  turn-chunks fd now b [] s p h sh = rw (append-nil, split_lines-partial b p) refl
  turn-chunks fd now b (c ∷ cs) s p h sh =
      handle_chunk-touched double can_write fd now c (map chunk cs) (record { buf = b }) s
      ∙ handle_chunks-deliver double can_write fd now (c ∷ cs) (record { buf = b }) _ _
          (touched fd now s) (touch-touch fd now s.table)
          (deliver-split_lines line_size (omega arith) (omega arith) b (c ∷ cs) p h sh)

  turn :
      (fd now : ℕ) (b : Bytes) (reads : List Read) (s : ServerState D)
      → NoNewline b
      → All IsChunk reads
      → Short line_size (b ++ flatten (chunks_of reads))
      → let (ls, rest) = split_lines (b ++ flatten (chunks_of reads)) in
        handle_client_event double can_write fd now reads (record { buf = b }) s
        ≡ some (
            finish
              (record { buf = rest })
              (serve_all double can_write fd now ls (noted fd now (chunks_of reads) s)))
  turn fd now b reads s p h sh =
      ap (λ r. handle_client_event double can_write fd now r (record { buf = b }) s)
        (reads-chunks reads h)
      ∙ turn-chunks fd now b (chunks_of reads) s p (chunks-short reads h) sh

  settle-other :
      (fd other : ℕ) (ended : Ended) (p : Process D)
      → (other == fd) ≡ false
      → session_of fd (settle_client other ended p).clients ≡ session_of fd p.clients
  unfolding settle_client
  settle-other fd other (stays session) p h = session_of-put_other fd other session p.clients h
  settle-other fd other hung_up p h = ground (arith, session_of-remove fd other p.clients)
  settle-other fd other freed p h = ground (arith, session_of-remove fd other p.clients)
  settle-other fd other overflowed p h = ground (arith, session_of-remove fd other p.clients)

  -- The service of another client.
  pub other_client :
      (fd other now : ℕ) (reads : List Read) (p q : Process D)
      → (other == fd) ≡ false
      → serve_client double can_write other now reads p ≡ some q
      → session_of fd q.clients ≡ session_of fd p.clients
  unfolding serve_client
  other_client fd other now reads p q h e = elim (Option-cases (session_of other p.clients)) [
    | inl unknown ↦
        let same : p ≡ q = (let e' = rw (serve_client, unknown) at e in cc) in
        ap (λ x. session_of fd x.clients) (sym same)
    | inr (session, known) ↦
        let ((ended, s), served, last) =
          >>=-eq-some (handle_client_event double can_write other now reads session p.server) _
            (rw (serve_client, known) at e) in
        let same : settle_client other ended (record p { server = s }) ≡ q = cc in
        ap (λ x. session_of fd x.clients) (sym same)
        ∙ settle-other fd other ended (record p { server = s }) h
  ]

  pub accepts-other :
      (fd : ℕ) (accepted : List Accepted) (p : Process D)
      → All (λ a. (a.fd == fd) ≡ false) accepted
      → session_of fd (handle_accept_event accepted p).clients ≡ session_of fd p.clients
  unfolding handle_accept_event accept_one session_of
  accepts-other fd [] p h = refl
  accepts-other fd (a ∷ rest) p (x, h) = ground (arith, accepts-other fd rest (accept_one a p) h)

  -- An event of a run in which the client stays: its own, or one that leaves its session alone.
  pub data Turn (fd : ℕ) (e : Event) (p q : Process D) : Type 0 where
    own :
        (now : ℕ) (reads : List Read)
        → e ≡ readable fd now reads
        → All IsChunk reads
        → serve_client double can_write fd now reads p ≡ some q
        → Turn fd e p q
    elsewhere :
        heard fd (e ∷ []) ≡ [] → session_of fd q.clients ≡ session_of fd p.clients → Turn fd e p q

  pub turn_of :
      (fd : ℕ) (e : Event) (p q : Process D)
      → Stays fd (e ∷ [])
      → serve_event double can_write e p ≡ some q
      → Turn fd e p q
  unfolding serve_event
  turn_of fd (incoming accepted) p q st e =
      let same : handle_accept_event accepted p ≡ q = cc in
      elsewhere refl
        (ap (λ x. session_of fd x.clients) (sym same) ∙ accepts-other fd accepted p st.0)
  turn_of fd (readable other now reads) p q st e = elim (Bool-cases (other == fd)) [
    | inl mine ↦
        let same : other ≡ fd = ground arith in
        own now reads (ap (λ x. readable x now reads) same) (st.0 mine) (rw same at e)
    | inr foreign ↦ elsewhere (simp foreign refl) (other_client fd other now reads p q foreign e)
  ]

  pub own_gone :
      (fd now : ℕ) (reads : List Read) (p q : Process D)
      → session_of fd p.clients ≡ none
      → serve_client double can_write fd now reads p ≡ some q
      → session_of fd q.clients ≡ none
  unfolding serve_client
  own_gone fd now reads p q g e =
      let same : p ≡ q = (let e' = rw (serve_client, g) at e in cc) in
      ap (λ x. session_of fd x.clients) (sym same) ∙ g

  abbrev pub settled : ℕ → Session → Bool × ServerState D → Process D → Process D
  settled fd last r p =
      let (ended, s) = finish last r in settle_client fd ended (record p { server = s })

  pub own_turn :
      (fd now : ℕ) (b : Bytes) (reads : List Read) (p : Process D)
      → NoNewline b
      → All IsChunk reads
      → Short line_size (b ++ flatten (chunks_of reads))
      → session_of fd p.clients ≡ some (record { buf = b })
      → let (ls, rest) = split_lines (b ++ flatten (chunks_of reads)) in
        serve_client double can_write fd now reads p
        ≡ some (
            settled fd
              (record { buf = rest })
              (serve_all double can_write fd now ls (noted fd now (chunks_of reads) p.server))
              p)
  unfolding serve_client
  own_turn fd now b reads p n h sh known =
      rw (serve_client, known, turn fd now b reads p.server n h sh) refl

  -- The session after such a turn.
  pub settled-session :
      (fd : ℕ) (old last : Session) (r : Bool × ServerState D) (p : Process D)
      → session_of fd p.clients ≡ some old
      → (session_of fd (settled fd last r p).clients ≡ some last)
        ⊎ (session_of fd (settled fd last r p).clients ≡ none)
  unfolding settle_client
  settled-session fd old last (true, s) p known = inl (session_of-put fd last old p.clients known)
  settled-session fd old last (false, s) p known =
      inr (ground (arith, session_of-remove fd fd p.clients))
