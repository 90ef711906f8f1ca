-- ===== src/Protocol/Session/Stream.antt =====
-- The lines of a byte stream, however the network cuts it into chunks.
use equipment_control.Prelude.{
  sym, ap, All-right, All-left, append_assoc, append-nil, All-append, ℕ, zero, suc, ◌+◌, ◌≤◌, ◌<◌,
  ◌≡◌, refl, ◌⊎◌, inl, inr, ◌∙◌, List, [], ◌∷◌, ◌++◌, some, arith, ltb, leb, ◌==◌, if◌then◌else◌,
  Bytes, length, All, length-append, Bool-cases,
}
use mathlib.Core.List.{flatten}
use equipment_control.Protocol.Session.{
  session_feed, session_capacity, deliver, Session, session_pop_line, line, no_line, too_long,
  pop_lines,
}
use equipment_control.Protocol.Session.Framing.{
  NoNewline, partial, whole, Shape_of, pop_line-none, pop_line_small, session_pop_line-first,
}

-- The specification: the complete lines of a text, and what follows the last newline.
abbrev extend_first : ℕ → List Bytes × Bytes → List Bytes × Bytes
extend_first c ([], r) = ([], c ∷ r)
extend_first c (l ∷ ls, r) = ((c ∷ l) ∷ ls, r)

unfoldable pub split_lines : Bytes → List Bytes × Bytes
split_lines [] = ([], [])
split_lines (c ∷ cs) =
    let (ls, r) = split_lines cs in
    if c == b'\n' then ((c ∷ []) ∷ ls, r) else extend_first c (ls, r)

pub split_lines-partial : (s : Bytes) → NoNewline s → split_lines s ≡ ([], s)
unfolding split_lines
split_lines-partial [] h = refl
split_lines-partial (c ∷ s) h = ground (arith, split_lines-partial s h.1)

pub split_lines-whole :
    (s rest : Bytes)
    → NoNewline s
    → split_lines (s ++ b'\n' ∷ rest)
      ≡ ((s ++ b'\n' ∷ []) ∷ (split_lines rest).0, (split_lines rest).1)
unfolding split_lines
split_lines-whole [] rest h = refl
split_lines-whole (c ∷ s) rest h = ground (arith, split_lines-whole s rest h.1)

pub split_lines-append :
    (a b : Bytes)
    → let (ls, r) = split_lines a in
      split_lines (a ++ b) ≡ (ls ++ (split_lines (r ++ b)).0, (split_lines (r ++ b)).1)
unfolding split_lines
split_lines-append [] b = refl
split_lines-append (c ∷ a) b = ground (arith, split_lines-append a b)

pub split_lines-rest : (s : Bytes) → NoNewline (split_lines s).1
unfolding split_lines
split_lines-rest [] = tt
split_lines-rest (c ∷ s) = ground (arith, split_lines-rest s)

-- Every line of the stream, and what follows the last newline, fits a `char line[size]`.
pub record Short (size : ℕ) (t : Bytes) : Type 0 where
  pub lines_short : All (λ l. length l < size) (split_lines t).0
  pub rest_short : length (split_lines t).1 < size

-- A call hands out a line and leaves a shorter buffer, or changes nothing.
pub pop_line-cases :
    (size : ℕ) (b : Bytes)
    → ((session_pop_line (record { buf = b }) size ≡ no_line)
        ⊎ (session_pop_line (record { buf = b }) size ≡ too_long))
      ⊎ ((l rest : Bytes) × (session_pop_line (record { buf = b }) size
            ≡ line l (record { buf = rest }))
          × (length rest < length b))
pop_line-cases size b = elim (Bool-cases (ltb size 2)) [
  | inl small ↦ inl (inr (pop_line_small b size (ground arith)))
  | inr wide ↦ elim (Shape_of b) [
    | partial p ↦ inl (inl (pop_line-none b size (ground arith) p))
    | whole s rest p e ↦ elim (Bool-cases (leb size (length s + 1))) [
      | inl long ↦
          inl (inr (rw e (session_pop_line-first s rest size (ground arith) p ∙ rw long refl)))
      | inr fits ↦ inr (
        s ++ b'\n' ∷ [],
        rest,
        rw e (session_pop_line-first s rest size (ground arith) p ∙ rw fits refl),
        rw e (omega (arith, length-append {0} s (b'\n' ∷ rest))),
      )
    ]
  ]
]

-- The fuel `length buf + 1` is enough, whatever the buffer holds.
pub pop_lines_total :
    (fuel size : ℕ) (b : Bytes)
    → length b < fuel
    → (r : List Bytes × Session) × (pop_lines fuel size (record { buf = b }) ≡ some r)
unfolding pop_lines
pop_lines_total zero size b h = elim h [ ]
pop_lines_total (suc fuel) size b h = elim (pop_line-cases size b) [
  | inl stays ↦ (([], record { buf = b }), ground arith)
  | inr (l, rest, popped, shorter) ↦
      let (r, e) = pop_lines_total fuel size rest (omega arith) in ((l ∷ r.0, r.1), ground arith)
]

-- The first line of a buffer whose lines fit is handed out.
pop_line_fits :
    (size : ℕ) (s rest b : Bytes)
    → 2 ≤ size
    → NoNewline s
    → b ≡ s ++ b'\n' ∷ rest
    → All (λ l. length l < size) (split_lines b).0
    → (session_pop_line (record { buf = b }) size ≡ line (s ++ b'\n' ∷ []) (record { buf = rest }))
      × All (λ l. length l < size) (split_lines rest).0
      × (length rest < length b)
pop_line_fits size s rest b hc p e a =
    let (first, others) = rw (e, split_lines-whole s rest p) at a in
    (
      rw e (
          session_pop_line-first s rest size hc p
          ∙ ground (arith, length-append {0} s (b'\n' ∷ []))),
      others,
      rw e (omega (arith, length-append {0} s (b'\n' ∷ rest))),
    )

-- With enough fuel the loop hands out exactly the complete lines, if each fits.
pub pop_lines-split_lines :
    (fuel size : ℕ) (b : Bytes)
    → 2 ≤ size
    → length b < fuel
    → All (λ l. length l < size) (split_lines b).0
    → pop_lines fuel size (record { buf = b })
      ≡ some ((split_lines b).0, record { buf = (split_lines b).1 })
unfolding pop_lines
pop_lines-split_lines zero size b hc h a = elim h [ ]
pop_lines-split_lines (suc fuel) size b hc h a = elim (Shape_of b) [
  | partial p ↦ rw (pop_line-none b size hc p, pop_lines) (rw (split_lines-partial b p) refl)
  | whole s rest p e ↦
      let (popped, others, shorter) = pop_line_fits size s rest b hc p e a in
      let later = pop_lines-split_lines fuel size rest hc (omega arith) others in
      rw (popped, pop_lines) (rw later (rw e (rw (split_lines-whole s rest p) refl)))
]

-- The part after the last newline stays short if the stream that it begins is short.
pub Short-rest :
    (size : ℕ) (r more : Bytes) → NoNewline r → Short size (r ++ more) → length r < size
Short-rest size r more p sh = elim (Shape_of more) [
  | partial q ↦
      let whole_partial = split_lines-partial (r ++ more) (All-append _ r more p q) in
      omega (arith, rw whole_partial at sh.rest_short, length-append {0} r more)
  | whole s rest q e ↦
      let short =
        rw (e, ← append_assoc, split_lines-whole (r ++ s) rest (All-append _ r s p q)) at
          sh.lines_short in
      omega (arith, short.0, length-append {0} (r ++ s) (b'\n' ∷ []), length-append {0} r s)
]

split_lines-chunk :
    (r chunk more : Bytes)
    → let (ls, rest) = split_lines (r ++ chunk) in
      split_lines (r ++ (chunk ++ more))
      ≡ (ls ++ (split_lines (rest ++ more)).0, (split_lines (rest ++ more)).1)
split_lines-chunk r chunk more =
    ap split_lines (sym (append_assoc r chunk more)) ∙ split_lines-append (r ++ chunk) more

feed_fits :
    (r chunk : Bytes)
    → length (r ++ chunk) ≤ session_capacity
    → session_feed (record { buf = r }) chunk ≡ some (record { buf = r ++ chunk })
unfolding session_feed
feed_fits r [] h = rw append-nil refl
feed_fits r (c ∷ chunk) h = ground (arith, length-append {0} r (c ∷ chunk))

module _ (size : ℕ) (wide : 2 ≤ size) (room : size + 1024 ≤ session_capacity) where
  -- One chunk: the feed is accepted, and the loop hands out the lines that the chunk completes.
  deliver_chunk :
      (r chunk more : Bytes)
      → length r < size
      → length chunk ≤ 1024
      → Short size (r ++ (chunk ++ more))
      → (session_feed (record { buf = r }) chunk ≡ some (record { buf = r ++ chunk }))
        × (pop_lines (suc (length (r ++ chunk))) size (record { buf = r ++ chunk })
            ≡ some ((split_lines (r ++ chunk)).0, record { buf = (split_lines (r ++ chunk)).1 }))
        × Short size ((split_lines (r ++ chunk)).1 ++ more)
  deliver_chunk r chunk more hr hc sh =
      let all_short = rw (split_lines-chunk r chunk more) at sh.lines_short in
      (
        feed_fits r chunk (omega (arith, length-append {0} r chunk)),
        pop_lines-split_lines _ size _ wide (omega arith) (All-left _ _ _ all_short),
        record {
          lines_short = All-right _ _ _ all_short;
          rest_short = rw (split_lines-chunk r chunk more) at sh.rest_short;
        },
      )

  -- A peer whose lines fit the line buffer, and which is read in chunks of at most 1024 bytes, never
  -- overflows the session, and the lines handed out are those of the whole stream: how the network
  -- cuts the stream makes no difference.
  pub deliver-split_lines :
      (r : Bytes) (chunks : List Bytes)
      → NoNewline r
      → All (λ c. length c ≤ 1024) chunks
      → Short size (r ++ flatten chunks)
      → deliver size (record { buf = r }) chunks
        ≡ some (
          (split_lines (r ++ flatten chunks)).0,
          record { buf = (split_lines (r ++ flatten chunks)).1 },
        )
  unfolding deliver flatten
  deliver-split_lines r [] p h sh = rw append-nil (rw (split_lines-partial r p))
  deliver-split_lines r (chunk ∷ chunks) p h sh =
      let (fed, popped, rest_short) =
        deliver_chunk r chunk (flatten chunks) (Short-rest size r _ p sh) h.0 sh in
      let later =
        deliver-split_lines (split_lines (r ++ chunk)).1 chunks (split_lines-rest (r ++ chunk)) h.1
          rest_short in
      let split : split_lines (r ++ (chunk ++ flatten chunks)) ≡ _ =
        rw (← append_assoc) (split_lines-append (r ++ chunk) (flatten chunks)) in
      rw (fed) (rw popped (rw later (rw split refl)))
