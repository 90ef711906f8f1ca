-- ===== src/Protocol/Codec/Tokens.antt =====
-- The C library's tokenisation as `line_parse` uses it, and `rstrip_crlf`.
use equipment_control.Prelude.{
  ℕ, ◌≡◌, ◌≢◌, refl, Bool, true, false, ◌||◌, List, [], ◌∷◌, ◌++◌, Option, none, some, arith, ◌==◌,
  if◌then◌else◌, Bytes, All, append-nil, append_assoc,
}
use equipment_control.Protocol.Double.{IsPlain}

abbrev is_blank : ℕ → Bool
is_blank c = c == b' ' || c == b'\t'

abbrev end_token : Bytes → List Bytes → List Bytes
end_token [] ts = ts
end_token (c ∷ cs) ts = (c ∷ cs) ∷ ts

-- The tokens that `strtok_r(..., " \t", ...)` hands out, one after another; `current` is the part of
-- the present token that has been read.
unfoldable pub tokens_from : Bytes → Bytes → List Bytes
tokens_from current [] = end_token current []
tokens_from current (c ∷ cs) = elim (is_blank c) [
  | true ↦ end_token current (tokens_from [] cs)
  | false ↦ tokens_from (current ++ c ∷ []) cs
]

unfoldable pub tokens : Bytes → List Bytes
unfolding tokens_from
tokens = tokens_from []

-- `strchr(tok, '=')`: the key before the first `=` and the value behind it.
abbrev key_onto : ℕ → Option (Bytes × Bytes) → Option (Bytes × Bytes)
key_onto c none = none
key_onto c (some (key, val)) = some (c ∷ key, val)

unfoldable pub split_eq : Bytes → Option (Bytes × Bytes)
split_eq [] = none
split_eq (c ∷ cs) = if c == b'=' then some ([], cs) else key_onto c (split_eq cs)

abbrev is_line_end : ℕ → Bool
is_line_end c = c == b'\n' || c == b'\r'

abbrev keep_byte : ℕ → Bytes → Bytes
keep_byte c [] = if is_line_end c then [] else c ∷ []
keep_byte c (d ∷ ds) = c ∷ d ∷ ds

-- `rstrip_crlf`: the text without the line ends at its end.
unfoldable pub rstrip_crlf : Bytes → Bytes
rstrip_crlf [] = []
rstrip_crlf (c ∷ cs) = keep_byte c (rstrip_crlf cs)

abbrev pub Plain : Bytes → Type 0
Plain = All IsPlain

pub tokens_from_word :
    (current w rest : Bytes)
    → Plain w
    → tokens_from current (w ++ rest) ≡ tokens_from (current ++ w) rest
unfolding tokens_from
tokens_from_word current [] rest h = rw append-nil refl
tokens_from_word current (c ∷ w) rest h =
    ground (arith, tokens_from_word (current ++ c ∷ []) w rest h.1, append_assoc current (c ∷ []) w)

-- Words with one blank in front of each.
abbrev pub spaced : List Bytes → Bytes
spaced [] = []
spaced (w ∷ ws) = b' ' ∷ (w ++ spaced ws)

-- A word of a line: not empty, and no byte that ends it.
pub record IsWord (w : Bytes) : Type 0 where
  pub not_nil : w ≢ []
  pub plain : Plain w

end_token-IsWord : (w : Bytes) (ts : List Bytes) → w ≢ [] → end_token w ts ≡ w ∷ ts
end_token-IsWord [] ts h = absurd (h refl)
end_token-IsWord (c ∷ w) ts h = refl

tokens_from-spaced :
    (current : Bytes) (ws : List Bytes)
    → current ≢ []
    → All IsWord ws
    → tokens_from current (spaced ws) ≡ current ∷ ws
unfolding tokens_from
tokens_from-spaced current [] h a = end_token-IsWord current [] h
tokens_from-spaced current (w ∷ ws) h (word, a) =
    rw (tokens_from_word [] w (spaced ws) word.plain, tokens_from-spaced w ws word.not_nil a)
      (end_token-IsWord current (w ∷ ws) h)

-- A line of words with one blank between them has exactly these words as its tokens.
pub tokens-spaced :
    (w : Bytes) (ws : List Bytes) → IsWord w → All IsWord ws → tokens (w ++ spaced ws) ≡ w ∷ ws
unfolding tokens
tokens-spaced w ws word a =
    rw (tokens_from_word [] w (spaced ws) word.plain) (tokens_from-spaced w ws word.not_nil a)

-- No byte of a text that is no line end is stripped.
abbrev pub NoLineEnd : Bytes → Type 0
NoLineEnd = All (λ c. (c ≢ b'\n') × (c ≢ b'\r'))

pub rstrip_crlf-newline : (s : Bytes) → NoLineEnd s → rstrip_crlf (s ++ b'\n' ∷ []) ≡ s
unfolding rstrip_crlf
rstrip_crlf-newline [] h = refl
rstrip_crlf-newline (c ∷ s) h = rw (rstrip_crlf-newline s h.1) (keep s)
  where
    keep : (s : Bytes) → keep_byte c s ≡ c ∷ s
    keep [] = ground arith
    keep (d ∷ s) = refl
