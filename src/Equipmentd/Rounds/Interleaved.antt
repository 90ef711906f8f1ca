-- ===== src/Equipmentd/Rounds/Interleaved.antt =====
-- services/equipmentd/src/main.c: the stream of one client among the events of all.
use equipment_control.Prelude.{
  append_assoc, ◌≢◌, >>=-eq-some, append-nil, ℕ, ◌≡◌, ◌∙◌, ap, sym, Bool, List, [], ◌∷◌, ◌++◌, none,
  some, Bytes, All, inl, inr,
}
use mathlib.Core.List.{flatten}
use equipment_control.Protocol.Double.{Double}
use equipment_control.Protocol.Session.{session_init}
use equipment_control.Protocol.Session.Framing.{NoNewline}
use equipment_control.Protocol.Session.Stream.{
  split_lines-rest, split_lines-partial, split_lines-append, split_lines, Short,
}
use equipment_control.Equipmentd.Clients.{line_size, Read}
use equipment_control.Equipmentd.Clients.Streams.{serve_all}
use equipment_control.Equipmentd.Rounds.{
  serve_event, serve_events, serve_client, session_of, Event, Process,
}
use equipment_control.Equipmentd.Rounds.Heard.{
  IsChunk, chunks_of, heard, Stays, Stays-cons, heard-own, heard-elsewhere, Short-parts, regroup,
}
use equipment_control.Equipmentd.Rounds.Turns.{
  own, elsewhere, turn_of, own_gone, settled, own_turn, settled-session, noted,
}

module _ {D : Type 0} (double : Double D) (can_write : ℕ → Bytes → Bool) where
  still_gone :
      (fd : ℕ) (es : List Event) (p q : Process D)
      → Stays fd es
      → session_of fd p.clients ≡ none
      → serve_events double can_write es p ≡ some q
      → session_of fd q.clients ≡ none
  unfolding serve_events
  still_gone fd [] p q st g e =
      let same : p ≡ q = cc in ap (λ x. session_of fd x.clients) (sym same) ∙ g
  still_gone fd (e ∷ es) p q st g run =
      let (p', first, later) = >>=-eq-some (serve_event double can_write e p) _ run in
      let (one, others) = Stays-cons fd e es st in
      elim (turn_of double can_write fd e p p' one first) [
        | own now reads mine h served ↦
            still_gone fd es p' q others (own_gone double can_write fd now reads p p' g served)
              later
        | elsewhere silent same ↦ still_gone fd es p' q others (same ∙ g) later
      ]

  -- A client that is still there at the end has in its session what follows the last newline.
  session_follows :
      (fd : ℕ) (es : List Event) (p q : Process D) (b more : Bytes)
      → NoNewline b
      → Stays fd es
      → Short line_size (b ++ (heard fd es ++ more))
      → session_of fd p.clients ≡ some (record { buf = b })
      → serve_events double can_write es p ≡ some q
      → session_of fd q.clients ≢ none
      → session_of fd q.clients ≡ some (record { buf = (split_lines (b ++ heard fd es)).1 })
  unfolding serve_events
  session_follows fd [] p q b more n st sh known run there =
      let same : p ≡ q = cc in
      ap (λ x. session_of fd x.clients) (sym same)
      ∙ known
      ∙ ap (λ x. some (record { buf = x })) (ap (λ x. x.1) (sym (split_lines-partial b n)))
      ∙ ap (λ x. some (record { buf = (split_lines x).1 })) (sym (append-nil b))
  session_follows fd (e ∷ es) p q b more n st sh known run there =
      let (p', first, later) = >>=-eq-some (serve_event double can_write e p) _ run in
      let (one, others) = Stays-cons fd e es st in
      elim (turn_of double can_write fd e p p' one first) [
        | own now reads mine h served ↦
            let said = flatten (chunks_of reads) in
            let eq = ap (λ x. heard fd (x ∷ es)) mine ∙ heard-own fd now reads es in
            let (now_short, later_short) =
              Short-parts line_size (b ++ said) (heard fd es ++ more)
                (rw (regroup b said (heard fd es) more) at (rw eq at sh)) in
            let s = split_lines (b ++ said) in
            let r =
              serve_all double can_write fd now s.0
                (noted double can_write fd now (chunks_of reads) p.server) in
            let turned : settled double can_write fd (record { buf = s.1 }) r p ≡ p' =
              (let e' = own_turn double can_write fd now b reads p n h now_short known in cc) in
            elim (settled-session double can_write fd (record { buf = b }) (record { buf = s.1 }) r
              p known) [
                | inl kept ↦
                    session_follows fd es p' q s.1 more (split_lines-rest (b ++ said)) others
                      later_short (ap (λ x. session_of fd x.clients) (sym turned) ∙ kept) later
                      there
                    ∙ ap (λ x. some (record { buf = x }))
                        (ap (λ x. x.1) (sym (split_lines-append (b ++ said) (heard fd es)))
                          ∙ ap (λ x. (split_lines x).1)
                              (append_assoc b said (heard fd es) ∙ ap (λ x. b ++ x) (sym eq)))
                | inr gone ↦ absurd (
                    there (
                      still_gone fd es p' q others
                        (ap (λ x. session_of fd x.clients) (sym turned) ∙ gone) later))
              ]
        | elsewhere silent same ↦
            let eq = heard-elsewhere fd e es silent in
            let rest =
              session_follows fd es p' q b more n others (rw eq at sh) (same ∙ known) later there in
            rest ∙ ap (λ x. some (record { buf = (split_lines (b ++ x)).1 })) (sym eq)
      ]

  -- A client whose lines fit the line buffer, and whose descriptor the kernel does not give again, is served
  -- exactly the lines of its stream, each once, whatever the other clients send in between: after any
  -- events, what it is served next are the lines that its new bytes complete, and its session then holds
  -- what follows the last newline, unless a line failed and the connection was closed.
  pub serve_client-interleaved :
      (fd now : ℕ) (es : List Event) (reads : List Read) (p q : Process D)
      → session_of fd p.clients ≡ some session_init
      → Stays fd es
      → All IsChunk reads
      → Short line_size (heard fd es ++ flatten (chunks_of reads))
      → serve_events double can_write es p ≡ some q
      → session_of fd q.clients ≢ none
      → let (before, begun) = split_lines (heard fd es) in
        let (ls, rest) = split_lines (begun ++ flatten (chunks_of reads)) in
        (split_lines (heard fd es ++ flatten (chunks_of reads)) ≡ (before ++ ls, rest))
        × (serve_client double can_write fd now reads q
            ≡ some (
                settled double can_write fd
                  (record { buf = rest })
                  (serve_all double can_write fd now ls
                    (noted double can_write fd now (chunks_of reads) q.server))
                  q))
  unfolding session_init
  serve_client-interleaved fd now es reads p q known st h sh run there =
      let said = flatten (chunks_of reads) in
      let begun = session_follows fd es p q [] said tt st sh known run there in
      (
        split_lines-append (heard fd es) said,
        own_turn double can_write fd now (split_lines (heard fd es)).1 reads q
            (split_lines-rest (heard fd es)) h (Short-parts line_size (heard fd es) said sh).1
            begun,
      )
