-- ===== src/Equipmentd/Clients/Streams.antt =====
-- services/equipmentd/src/main.c: the stream of a client.
use equipment_control.Prelude.{
  ◌⊎◌, ℕ, zero, suc, ◌≤◌, ◌≡◌, refl, ◌∙◌, ap, sym, Bool, true, false, List, [], ◌∷◌, ◌++◌, Option,
  none, some, arith, Bytes, length, All, map, Option-cases, Bool-cases, inl, inr, >>=-eq-some,
}
use mathlib.Core.List.{flatten}
use equipment_control.Protocol.Double.{Double}
use equipment_control.Protocol.Session.{
  Session, session_init, session_feed, session_pop_line, line, no_line, too_long, pop_lines, Popped,
  deliver,
}
use equipment_control.Protocol.Session.Stream.{split_lines, Short, deliver-split_lines}
use equipment_control.Equipmentd.Connections.{Connection}
use equipment_control.Equipmentd.Clients.{
  line_size, Read, chunk, Ended, stays, freed, ServerState, touch, serve_line, serve_lines,
  handle_client_event,
}

pub touch-touch :
    (fd now : ℕ) (table : List Connection) → touch fd now (touch fd now table) ≡ touch fd now table
unfolding touch
touch-touch fd now [] = refl
touch-touch fd now (c ∷ rest) = ground (arith, touch-touch fd now rest)

-- What a successful loop over the lines began with.
data PoppedFirst (fuel : ℕ) (session last : Session) (ls : List Bytes) : Type 0 where
  ended :
      (session_pop_line session line_size ≡ no_line)
        ⊎ (session_pop_line session line_size ≡ too_long)
      → ls ≡ []
      → last ≡ session
      → PoppedFirst fuel session last ls
  begun :
      (l : Bytes) (rest : Session) (more : List Bytes)
      → session_pop_line session line_size ≡ line l rest
      → pop_lines fuel line_size rest ≡ some (more, last)
      → ls ≡ l ∷ more
      → PoppedFirst fuel session last ls

pop_first :
    (fuel : ℕ) (session last : Session) (ls : List Bytes) (p : Popped)
    → session_pop_line session line_size ≡ p
    → pop_lines (suc fuel) line_size session ≡ some (ls, last)
    → PoppedFirst fuel session last ls
unfolding pop_lines
pop_first fuel session last ls no_line e h =
    let h' = rw (pop_lines, e) at h in ended (inl e) (cc) (cc)
pop_first fuel session last ls too_long e h =
    let h' = rw (pop_lines, e) at h in ended (inr e) (cc) (cc)
pop_first fuel session last ls (line l rest) e h =
    elim (Option-cases (pop_lines fuel line_size rest)) [
      | inl n ↦ let h' = rw (pop_lines, e, n) at h in cc
      | inr ((more, last'), q) ↦
          let h' = rw (pop_lines, e, q) at h in
          begun l rest more e (let same : last' ≡ last = cc in q ∙ ap (λ x. some (more, x)) same)
            (cc)
    ]

module _ {D : Type 0} where
  -- The state after the time of the read has been noted.
  abbrev pub touched : ℕ → ℕ → ServerState D → ServerState D
  touched fd now s = record s { table = touch fd now s.table }

  -- The result with the session that is left unless a line failed.
  abbrev pub pack : Session → Bool × ServerState D → Option Session × ServerState D
  pack last (true, s) = (some last, s)
  pack last (false, s) = (none, s)

  abbrev pub finish : Session → Bool × ServerState D → Ended × ServerState D
  finish last (true, s) = (stays last, s)
  finish last (false, s) = (freed, s)

  pub pack_ok :
      (last : Session) (r : Bool × ServerState D) → r.0 ≡ true → pack last r ≡ (some last, r.1)
  pack_ok last (true, s) h = refl
  pack_ok last (false, s) h = cc

  pub pack_bad :
      (last : Session) (r : Bool × ServerState D) → r.0 ≡ false → pack last r ≡ (none, r.1)
  pack_bad last (true, s) h = cc
  pack_bad last (false, s) h = refl

module _ {D : Type 0} (double : Double D) (can_write : ℕ → Bytes → Bool) where
  -- The specification: the lines one after the other, up to the first that fails.
  unfoldable pub serve_all : ℕ → ℕ → List Bytes → ServerState D → Bool × ServerState D
  serve_all fd now [] s = (true, s)
  serve_all fd now (l ∷ ls) s =
      let (ok, s') = serve_line double can_write fd now l s in
      elim ok [ true ↦ serve_all fd now ls s' | false ↦ (false, s') ]

  pub serve_all_ok :
      (fd now : ℕ) (l : Bytes) (ls : List Bytes) (s : ServerState D)
      → (serve_line double can_write fd now l s).0 ≡ true
      → serve_all fd now (l ∷ ls) s ≡ serve_all fd now ls (serve_line double can_write fd now l s).1
  unfolding serve_all
  serve_all_ok fd now l ls s ok = rw (serve_all, ok) refl

  pub serve_all_bad :
      (fd now : ℕ) (l : Bytes) (ls : List Bytes) (s : ServerState D)
      → (serve_line double can_write fd now l s).0 ≡ false
      → serve_all fd now (l ∷ ls) s ≡ (false, (serve_line double can_write fd now l s).1)
  unfolding serve_all
  serve_all_bad fd now l ls s bad = rw (serve_all, bad) refl

  pub serve_lines-pop_lines :
      (fuel fd now : ℕ) (session last : Session) (ls : List Bytes) (s : ServerState D)
      → pop_lines fuel line_size session ≡ some (ls, last)
      → serve_lines double can_write fuel fd now session s
        ≡ some (pack last (serve_all fd now ls s))
  unfolding serve_lines pop_lines serve_all
  serve_lines-pop_lines zero fd now session last ls s h = cc
  serve_lines-pop_lines (suc fuel) fd now session last ls s h =
      elim (pop_first fuel session last ls _ refl h) [
        | ended (inl e) nil same ↦ rw (serve_lines, e, nil, same, serve_all) refl
        | ended (inr e) nil same ↦ rw (serve_lines, e, nil, same, serve_all) refl
        | begun l rest more e q cons ↦
            let later =
              serve_lines-pop_lines fuel fd now rest last more
                (serve_line double can_write fd now l s).1 q in
            elim (Bool-cases (serve_line double can_write fd now l s).0) [
              | inl ok ↦
                  rw (serve_lines, e, cons, ok)
                    (later ∙ ap (λ r. some (pack last r)) (sym (serve_all_ok fd now l more s ok)))
              | inr bad ↦
                  rw (serve_lines, e, cons, bad)
                    (ap (λ r. some (pack last r)) (sym (serve_all_bad fd now l more s bad)))
            ]
      ]

  serve_all-append :
      (fd now : ℕ) (ls more : List Bytes) (s : ServerState D)
      → serve_all fd now (ls ++ more) s ≡ elim (serve_all fd now ls s).0 [
        | true ↦ serve_all fd now more (serve_all fd now ls s).1
        | false ↦ (false, (serve_all fd now ls s).1)
      ]
  unfolding serve_all
  serve_all-append fd now [] more s = refl
  serve_all-append fd now (l ∷ ls) more s =
      ground (arith, serve_all-append fd now ls more (serve_line double can_write fd now l s).1)

  append_ok :
      (fd now : ℕ) (ls more : List Bytes) (s : ServerState D)
      → (serve_all fd now ls s).0 ≡ true
      → serve_all fd now (ls ++ more) s ≡ serve_all fd now more (serve_all fd now ls s).1
  append_ok fd now ls more s ok = rw (serve_all-append fd now ls more s, ok) refl

  append_bad :
      (fd now : ℕ) (ls more : List Bytes) (s : ServerState D)
      → (serve_all fd now ls s).0 ≡ false
      → serve_all fd now (ls ++ more) s ≡ (false, (serve_all fd now ls s).1)
  append_bad fd now ls more s bad = rw (serve_all-append fd now ls more s, bad) refl

  pub serve_line-table :
      (fd now : ℕ) (l : Bytes) (s : ServerState D)
      → (serve_line double can_write fd now l s).0 ≡ true
      → (serve_line double can_write fd now l s).1.table ≡ s.table
  unfolding serve_line
  serve_line-table fd now l s h = ground (arith, h)

  pub serve_all-table :
      (fd now : ℕ) (ls : List Bytes) (s : ServerState D)
      → (serve_all fd now ls s).0 ≡ true
      → (serve_all fd now ls s).1.table ≡ s.table
  unfolding serve_all
  serve_all-table fd now [] s h = refl
  serve_all-table fd now (l ∷ ls) s h =
      elim (Bool-cases (serve_line double can_write fd now l s).0) [
        | inl ok ↦
            rw (serve_all, ok)
              (serve_all-table fd now ls _ (rw (serve_all, ok) at h)
                ∙ serve_line-table fd now l s ok)
        | inr bad ↦ let h' = rw (serve_all, bad) at h in cc
      ]

  -- One chunk of a connection whose time has been noted.
  handle_chunk :
      (fd now : ℕ) (bytes : Bytes) (reads : List Read) (session fed : Session) (s : ServerState D)
      (left : Option Session) (s' : ServerState D)
      → touch fd now s.table ≡ s.table
      → session_feed session bytes ≡ some fed
      → serve_lines double can_write (suc (length fed.buf)) fd now fed s ≡ some (left, s')
      → handle_client_event double can_write fd now (chunk bytes ∷ reads) session s ≡ elim left [
        | none ↦ some (freed, s')
        | some rest ↦ handle_client_event double can_write fd now reads rest s'
      ]
  unfolding handle_client_event
  handle_chunk fd now bytes reads session fed s left s' t f e =
      rw (handle_client_event, f, t) (rw e refl)

  abbrev finished :
      ℕ → ℕ → ServerState D → Option (List Bytes × Session) → Option (Ended × ServerState D)
  finished fd now s none = none
  finished fd now s (some (ls, last)) = some (finish last (serve_all fd now ls s))

  -- Once the time of the read has been noted, so it stays.
  pub handle_chunks-deliver :
      (fd now : ℕ) (chunks : List Bytes) (session last : Session) (ls : List Bytes)
      (s : ServerState D)
      → touch fd now s.table ≡ s.table
      → deliver line_size session chunks ≡ some (ls, last)
      → handle_client_event double can_write fd now (map chunk chunks) session s
        ≡ some (finish last (serve_all fd now ls s))
  unfolding handle_client_event deliver serve_all
  handle_chunks-deliver fd now [] session last ls s t e = ap (finished fd now s) e
  handle_chunks-deliver fd now (c ∷ cs) session last ls s t e =
      let (fed, f, e1) = >>=-eq-some (session_feed session c) _ e in
      let (popped, p, e2) = >>=-eq-some (pop_lines (suc (length fed.buf)) line_size fed) _ e1 in
      let (later, q, e3) = >>=-eq-some (deliver line_size popped.1 cs) _ e2 in
      let turn = serve_lines-pop_lines (suc (length fed.buf)) fd now fed popped.1 popped.0 s p in
      let r = serve_all fd now popped.0 s in
      let end : some (finish later.1 (serve_all fd now (popped.0 ++ later.0) s)) ≡ _ =
        ap (finished fd now s) e3 in
      elim (Bool-cases r.0) [
        | inl ok ↦
            let same = serve_all-table fd now popped.0 s ok in
            handle_chunk fd now c (map chunk cs) session fed s (some popped.1) r.1 t f
              (turn ∙ ap some (pack_ok popped.1 r ok))
            ∙ handle_chunks-deliver fd now cs popped.1 later.1 later.0 r.1
                (ap (touch fd now) same ∙ t ∙ sym same) q
            ∙ ap (λ x. some (finish later.1 x)) (sym (append_ok fd now popped.0 later.0 s ok))
            ∙ end
        | inr bad ↦
            handle_chunk fd now c (map chunk cs) session fed s none r.1 t f
              (turn ∙ ap some (pack_bad popped.1 r bad))
            ∙ ap (λ x. some (finish later.1 x)) (sym (append_bad fd now popped.0 later.0 s bad))
            ∙ end
      ]

  pub handle_chunk-touched :
      (fd now : ℕ) (bytes : Bytes) (reads : List Read) (session : Session) (s : ServerState D)
      → handle_client_event double can_write fd now (chunk bytes ∷ reads) session s
        ≡ handle_client_event double can_write fd now
            (chunk bytes ∷ reads)
            session
            (touched fd now s)
  unfolding handle_client_event
  handle_chunk-touched fd now bytes reads session s =
      elim (Option-cases (session_feed session bytes)) [
        | inl overflow ↦ rw (handle_client_event, overflow, touch-touch fd now s.table) refl
        | inr (fed, f) ↦ rw (handle_client_event, f, touch-touch fd now s.table) refl
      ]

  -- A client whose lines fit the line buffer, and which is read in chunks of at most 1024 bytes, is served
  -- the lines of its stream one after the other up to the first that fails, however the network cuts the
  -- stream; if none fails, what follows the last newline stays in the session.
  pub handle_client_event-lines :
      (fd now : ℕ) (start : Bytes) (chunks : List Bytes) (s : ServerState D)
      → All (λ c. length c ≤ 1024) (start ∷ chunks)
      → Short line_size (start ++ flatten chunks)
      → let (ls, rest) = split_lines (start ++ flatten chunks) in
        handle_client_event double can_write fd now (map chunk (start ∷ chunks)) session_init s
        ≡ some (finish (record { buf = rest }) (serve_all fd now ls (touched fd now s)))
  unfolding session_init flatten
  handle_client_event-lines fd now start chunks s short fits =
      handle_chunk-touched fd now start (map chunk chunks) session_init s
      ∙ handle_chunks-deliver fd now (start ∷ chunks) session_init _ _ (touched fd now s)
          (touch-touch fd now s.table)
          (deliver-split_lines line_size (omega arith) (omega arith) [] (start ∷ chunks) tt short
            fits)
