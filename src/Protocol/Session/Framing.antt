-- ===== src/Protocol/Session/Framing.antt =====
-- One call of `session_pop_line` against the text up to the first newline.
use equipment_control.Prelude.{
  ◌<◌, ℕ, suc, ◌+◌, ◌≤◌, ◌≡◌, ◌≢◌, refl, ap, inl, inr, [], ◌∷◌, ◌++◌, none, some, arith, leb, ◌==◌,
  if◌then◌else◌, Bytes, length, take, drop, All, Bool-cases, le→ltb,
}
use equipment_control.Protocol.Session.{find_newline, session_pop_line, line, no_line, too_long}

-- The bytes of a line, its newline left out.
abbrev pub NoNewline : Bytes → Type 0
NoNewline = All (λ c. c ≢ b'\n')

pub find_newline-none : (s : Bytes) → NoNewline s → find_newline s ≡ none
unfolding find_newline
find_newline-none [] h = refl
find_newline-none (c ∷ s) h = ground (arith, find_newline-none s)

pub find_newline-append :
    (s rest : Bytes) → NoNewline s → find_newline (s ++ b'\n' ∷ rest) ≡ some (length s)
unfolding find_newline
find_newline-append [] rest h = refl
find_newline-append (c ∷ s) rest h = ground (arith, find_newline-append s rest)

-- A buffer has no newline, or splits at its first one.
pub data Shape (b : Bytes) : Type 0 where
  partial : NoNewline b → Shape b
  whole : (s rest : Bytes) → NoNewline s → b ≡ s ++ b'\n' ∷ rest → Shape b

Shape-cons : (c : ℕ) (b : Bytes) → c ≢ b'\n' → Shape b → Shape (c ∷ b)
Shape-cons c b h (partial p) = partial (h, p)
Shape-cons c b h (whole s rest p e) = whole (c ∷ s) rest (h, p) (ap (◌∷◌ c) e)

pub Shape_of : (b : Bytes) → Shape b
Shape_of [] = partial tt
Shape_of (c ∷ b) = elim (Bool-cases (c == b'\n')) [
  | inl h ↦ whole [] b tt (ap (λ x. x ∷ b) (ground arith))
  | inr h ↦ Shape-cons c b (ground arith) (Shape_of b)
]

add_suc_left : (n k : ℕ) → suc n + k ≡ suc (n + k)
add_suc_left n k = omega arith

pub take-line : (s rest : Bytes) (c : ℕ) → take (length s + 1) (s ++ c ∷ rest) ≡ s ++ c ∷ []
take-line [] rest c = refl
take-line (x ∷ s) rest c = rw (add_suc_left (length s) 1) (ap (◌∷◌ x) (take-line s rest c))

pub drop-line : (s rest : Bytes) (c : ℕ) → drop (length s + 1) (s ++ c ∷ rest) ≡ rest
drop-line [] rest c = refl
drop-line (x ∷ s) rest c = rw (add_suc_left (length s) 1) (drop-line s rest c)

pub pop_line-none :
    (b : Bytes) (size : ℕ)
    → 2 ≤ size
    → NoNewline b
    → session_pop_line (record { buf = b }) size ≡ no_line
unfolding session_pop_line
pop_line-none b size h p = rw (le→ltb size 2 h, find_newline-none b p)

pub pop_line_small :
    (b : Bytes) (size : ℕ) → size < 2 → session_pop_line (record { buf = b }) size ≡ too_long
unfolding session_pop_line
pop_line_small b size h = ground arith

-- Where a newline stands in the buffer, the call hands out the text up to the first one, newline
-- included, and keeps exactly the rest; a line that does not fit is refused.
pub session_pop_line-first :
    (s rest : Bytes) (size : ℕ)
    → 2 ≤ size
    → NoNewline s
    → session_pop_line (record { buf = s ++ b'\n' ∷ rest }) size ≡ (
        if leb size (length s + 1)
        then too_long
        else line (s ++ b'\n' ∷ []) (record { buf = rest }))
unfolding session_pop_line
session_pop_line-first s rest size h p =
    rw (
      le→ltb size 2 h,
      find_newline-append s rest p,
      take-line s rest b'\n',
      drop-line s rest b'\n',
    )
