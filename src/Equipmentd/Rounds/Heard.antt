-- ===== src/Equipmentd/Rounds/Heard.antt =====
-- services/equipmentd/src/main.c: what one client sends in a sequence of events, and its entry among the
-- connections.
use equipment_control.Prelude.{
  append_assoc, All-left, All-right, append-nil, ℕ, ◌≤◌, ◌≡◌, refl, ◌∙◌, ap, sym, true, false, List,
  [], ◌∷◌, ◌++◌, none, some, arith, Bytes, length, All, map, if◌then◌else◌, ◌==◌,
}
use mathlib.Core.List.{flatten}
use equipment_control.Protocol.Session.{Session}
use equipment_control.Protocol.Session.Stream.{
  split_lines-rest, Short-rest, split_lines-append, split_lines, Short,
}
use equipment_control.Equipmentd.Clients.{Read, chunk, end_of_file, broken}
use equipment_control.Equipmentd.Rounds.{
  Client, session_of, put_session, remove_client, Event, incoming, readable,
}

abbrev pub IsChunk : Read → Type 0
IsChunk (chunk bytes) = length bytes ≤ 1024
IsChunk _ = ⊥

abbrev pub chunks_of : List Read → List Bytes
chunks_of [] = []
chunks_of (chunk bytes ∷ reads) = bytes ∷ chunks_of reads
chunks_of (_ ∷ reads) = chunks_of reads

-- The bytes that the client at `fd` sends.
abbrev pub heard : ℕ → List Event → Bytes
heard fd [] = []
heard fd (incoming accepted ∷ es) = heard fd es
heard fd (readable other now reads ∷ es) =
    (if other == fd then flatten (chunks_of reads) else []) ++ heard fd es

-- The client at `fd` stays: the kernel does not give its descriptor, and every read of it gives at most
-- 1024 bytes.
abbrev pub Stays : ℕ → List Event → Type 0
Stays fd [] = Unit
Stays fd (incoming accepted ∷ es) = All (λ a. (a.fd == fd) ≡ false) accepted × Stays fd es
Stays fd (readable other now reads ∷ es) = ((other == fd) ≡ true → All IsChunk reads) × Stays fd es

pub Stays-cons :
    (fd : ℕ) (e : Event) (es : List Event) → Stays fd (e ∷ es) → Stays fd (e ∷ []) × Stays fd es
Stays-cons fd (incoming accepted) es st = ((st.0, tt), st.1)
Stays-cons fd (readable other now reads) es st = ((st.0, tt), st.1)

pub heard-own :
    (fd now : ℕ) (reads : List Read) (es : List Event)
    → heard fd (readable fd now reads ∷ es) ≡ flatten (chunks_of reads) ++ heard fd es
heard-own fd now reads es = ground arith

pub heard-elsewhere :
    (fd : ℕ) (e : Event) (es : List Event)
    → heard fd (e ∷ []) ≡ []
    → heard fd (e ∷ es) ≡ heard fd es
heard-elsewhere fd (incoming accepted) es h = refl
heard-elsewhere fd (readable other now reads) es h =
    ap (λ x. x ++ heard fd es)
      (sym (append-nil (if other == fd then flatten (chunks_of reads) else [])) ∙ h)

pub reads-chunks : (reads : List Read) → All IsChunk reads → reads ≡ map chunk (chunks_of reads)
reads-chunks [] h = refl
reads-chunks (chunk bytes ∷ reads) h = ap (◌∷◌ (chunk bytes)) (reads-chunks reads h.1)
reads-chunks (end_of_file ∷ reads) h = absurd h.0
reads-chunks (broken ∷ reads) h = absurd h.0

pub chunks-short :
    (reads : List Read) → All IsChunk reads → All (λ c. length c ≤ 1024) (chunks_of reads)
chunks-short [] h = tt
chunks-short (chunk bytes ∷ reads) h = (h.0, chunks-short reads h.1)
chunks-short (end_of_file ∷ reads) h = absurd h.0
chunks-short (broken ∷ reads) h = absurd h.0

pub session_of-put :
    (fd : ℕ) (new old : Session) (cs : List Client)
    → session_of fd cs ≡ some old
    → session_of fd (put_session fd new cs) ≡ some new
unfolding session_of put_session
session_of-put fd new old [] h = cc
session_of-put fd new old (c ∷ rest) h = ground (arith, session_of-put fd new old rest)

pub session_of-put_other :
    (fd other : ℕ) (new : Session) (cs : List Client)
    → (other == fd) ≡ false
    → session_of fd (put_session other new cs) ≡ session_of fd cs
unfolding session_of put_session
session_of-put_other fd other new [] h = refl
session_of-put_other fd other new (c ∷ rest) h =
    ground (arith, session_of-put_other fd other new rest)

pub session_of-remove :
    (fd other : ℕ) (cs : List Client)
    → session_of fd (remove_client other cs) ≡ (if other == fd then none else session_of fd cs)
unfolding session_of remove_client
session_of-remove fd other [] = ground arith
session_of-remove fd other (c ∷ rest) = ground (arith, session_of-remove fd other rest)

-- What is short is so in its parts.
pub Short-parts :
    (size : ℕ) (a more : Bytes)
    → Short size (a ++ more)
    → Short size a × Short size ((split_lines a).1 ++ more)
Short-parts size a more sh =
    let all_short = rw (split_lines-append a more) at sh.lines_short in
    let later : Short size ((split_lines a).1 ++ more) = record {
      lines_short = All-right _ _ _ all_short;
      rest_short = rw (split_lines-append a more) at sh.rest_short;
    } in
    (
      record {
        lines_short = All-left _ _ _ all_short;
        rest_short = Short-rest size (split_lines a).1 more (split_lines-rest a) later;
      },
      later,
    )

pub regroup : (a b c d : Bytes) → a ++ ((b ++ c) ++ d) ≡ (a ++ b) ++ (c ++ d)
regroup a b c d = ap (λ x. a ++ x) (append_assoc b c d) ∙ sym (append_assoc a b (c ++ d))
