-- ===== src/Pmc/Peer/Stream.antt =====
-- nodes/pmc/src/main.c: the stream of a connection.
use equipment_control.Prelude.{
  >>=-eq-some, ℕ, zero, suc, ◌≤◌, ◌≡◌, refl, ◌∙◌, ap, sym, Bool, List, [], ◌∷◌, ◌++◌, Option, none,
  some, arith, Bytes, length, All, ◌>>=◌, map,
}
use mathlib.Core.List.{flatten}
use equipment_control.Protocol.Double.{Double}
use equipment_control.Protocol.Session.{
  Session, session_init, session_feed, session_pop_line, line, no_line, too_long, pop_lines, Popped,
  deliver,
}
use equipment_control.Protocol.Session.Stream.{split_lines, Short, deliver-split_lines}
use equipment_control.Pmc.Snapshot.{Float}
use equipment_control.Pmc.Peer.{
  buf_size, chunk, Served, then_line, serve_lines, handle_connected_peer,
}

module _ {D F : Type 0} (double : Double D) (float : Float F) (can_write : ℕ → Bytes → Bool) where
  -- The specification: the lines one after the other.
  unfoldable pub serve_all : ℕ → List Bytes → Served → Served
  serve_all fd [] s = s
  serve_all fd (l ∷ ls) s = serve_all fd ls (then_line double float can_write fd l s)

  serve_all-append :
      (fd : ℕ) (ls more : List Bytes) (s : Served)
      → serve_all fd (ls ++ more) s ≡ serve_all fd more (serve_all fd ls s)
  unfolding serve_all
  serve_all-append fd [] more s = refl
  serve_all-append fd (l ∷ ls) more s = serve_all-append fd ls more _

  -- One turn of the loop on what `session_pop_line` says, with the rest of the loop.
  serve_turn :
      (fuel fd : ℕ) (session : Session) (s : Served) (p : Popped)
      → session_pop_line session buf_size ≡ p
      → ((rest : Session) (s' : Served)
          → serve_lines double float can_write fuel fd rest s'
            ≡ (pop_lines fuel buf_size rest >>= λ (ls, last). some (last, serve_all fd ls s')))
      → serve_lines double float can_write (suc fuel) fd session s
        ≡ (pop_lines (suc fuel) buf_size session >>= λ (ls, last). some (last, serve_all fd ls s))
  unfolding serve_lines pop_lines serve_all
  serve_turn fuel fd session s (line l rest) e later =
      ground (arith, e, later rest (then_line double float can_write fd l s))
  serve_turn fuel fd session s no_line e later = rw (serve_lines, pop_lines, e) refl
  serve_turn fuel fd session s too_long e later = rw (serve_lines, pop_lines, e) refl

  pub serve_lines-pop_lines :
      (fuel fd : ℕ) (session : Session) (s : Served)
      → serve_lines double float can_write fuel fd session s
        ≡ (pop_lines fuel buf_size session >>= λ (ls, last). some (last, serve_all fd ls s))
  unfolding serve_lines pop_lines
  serve_lines-pop_lines zero fd session s = refl
  serve_lines-pop_lines (suc fuel) fd session s =
      serve_turn fuel fd session s _ refl (λ rest s'. serve_lines-pop_lines fuel fd rest s')

  abbrev served : ℕ → Served → Option (List Bytes × Session) → Option (Option Session × Served)
  served fd s none = none
  served fd s (some (ls, last)) = some (some last, serve_all fd ls s)

  handle_chunks-deliver :
      (fd : ℕ) (chunks : List Bytes) (session last : Session) (ls : List Bytes) (s : Served)
      → deliver buf_size session chunks ≡ some (ls, last)
      → handle_connected_peer double float can_write fd (map chunk chunks) session s
        ≡ some (some last, serve_all fd ls s)
  unfolding handle_connected_peer deliver serve_all
  handle_chunks-deliver fd [] session last ls s e = ap (served fd s) e
  handle_chunks-deliver fd (c ∷ cs) session last ls s e =
      let (fed, f, e1) = >>=-eq-some (session_feed session c) _ e in
      let (popped, p, e2) = >>=-eq-some (pop_lines (suc (length fed.buf)) buf_size fed) _ e1 in
      let (later, q, e3) = >>=-eq-some (deliver buf_size popped.1 cs) _ e2 in
      let rest = handle_chunks-deliver fd cs popped.1 later.1 later.0 (serve_all fd popped.0 s) q in
      rw (handle_connected_peer, f)
        (rw (serve_lines-pop_lines (suc (length fed.buf)) fd fed s, p)
          (rest
            ∙ ap (λ t. some (some later.1, t)) (sym (serve_all-append fd popped.0 later.0 s))
            ∙ ap (served fd s) e3))

  -- A peer whose lines fit the line buffer, and which is read in chunks of at most 1024 bytes, is served
  -- the lines of its stream one after the other, however the network cuts the stream; what follows the
  -- last newline stays in the session.
  pub handle_connected_peer-lines :
      (fd : ℕ) (chunks : List Bytes) (s : Served)
      → All (λ c. length c ≤ 1024) chunks
      → Short buf_size (flatten chunks)
      → handle_connected_peer double float can_write fd (map chunk chunks) session_init s
        ≡ some (
          some (record { buf = (split_lines (flatten chunks)).1 }),
          serve_all fd (split_lines (flatten chunks)).0 s,
        )
  unfolding session_init
  handle_connected_peer-lines fd chunks s short fits =
      handle_chunks-deliver fd chunks session_init _ _ s
        (deliver-split_lines buf_size (omega arith) (omega arith) [] chunks tt short fits)
