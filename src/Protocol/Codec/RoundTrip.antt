-- ===== src/Protocol/Codec/RoundTrip.antt =====
-- common/src/protocol/line_codec.c: what a receiver reads from a line that `line_format` wrote.
use equipment_control.Protocol.Codec.Received.{apply_key_words}
use equipment_control.Protocol.Codec.Sendable.{
  type_from-type_to, spaced-All, key_words-IsWord, type_to-IsWord, role_to-IsWord,
  role_from-role_to, c_string-All, received, IsSendable,
}
use equipment_control.Prelude.{
  ◌||◌, take, length-append, take_all, some, ap, ℕ, ◌+◌, ◌≡◌, ◌≢◌, refl, ◌≤◌, Bool, true, false, [],
  ◌∷◌, ◌++◌, arith, if◌then◌else◌, Bytes, length, c_string, All, All-append, All-map,
}
use equipment_control.Protocol.Double.{Double, IsPlain}
use equipment_control.Protocol.Message.{type_eq, role_eq, Role, MsgType, Message}
use equipment_control.Protocol.Codec.Numbers.{read_int32-print_int, read_uint32-print_unsigned}
use equipment_control.Protocol.Codec.Tokens.{
  tokens-spaced, rstrip_crlf-newline, rstrip_crlf, tokens, spaced, IsWord,
}
use equipment_control.Protocol.Codec.Parse.{parse_tokens, line_parse}
use equipment_control.Protocol.Codec.Format.{line_format, role_to, type_to}
use equipment_control.Protocol.Codec.Render.{line_format-render, render, key_words}

module _ {D : Type 0} (double : Double D) where
  open double use {zero_double, strtod, print_2f, print_2f-IsPlain}

  if_set : (b : Bool) → (if b then true else false) ≡ b
  if_set true = refl
  if_set false = refl

  if_eq {ℓ} :
      {A : Type ℓ} (b : Bool) (x y z : A) → x ≡ y → (if b then x else z) ≡ (if b then y else z)
  if_eq b x y z e = ap (λ w. if b then w else z) e

  known_types :
      (r : Role) (t : MsgType)
      → r ≢ Role.unknown
      → t ≢ MsgType.unknown
      → (role_eq r Role.unknown || type_eq t MsgType.unknown) ≡ false
  known_types r t hr ht = ground arith

  -- The words of a message, read back.
  parse_tokens-words :
      (m : Message D)
      → IsSendable m
      → parse_tokens double (role_to m.role ∷ type_to m.type ∷ key_words double m)
        ≡ some (received double m)
  unfolding parse_tokens received
  parse_tokens-words m h =
      rw
        (
          role_from-role_to m.role h.role_known,
          type_from-type_to m.type h.type_known,
          known_types m.role m.type h.role_known h.type_known,
        )
        (simp (
          apply_key_words,
          if_set,
          read_uint32-print_unsigned m.dev h.dev_fits,
          read_uint32-print_unsigned m.seq h.seq_fits,
          read_int32-print_int m.ok h.ok_fits,
          read_int32-print_int m.code h.code_fits,
          take_all 31 m.state h.state_short,
          take_all 127 m.msg h.msg_short,
        ))

  words-IsWord : (m : Message D) → IsSendable m → All IsWord (type_to m.type ∷ key_words double m)
  words-IsWord m h = (type_to-IsWord m.type, key_words-IsWord double m h)

  -- A property of the blank and of plain bytes holds of the whole line.
  render-All :
      (P : ℕ → Type 0)
      → ((c : ℕ) → IsPlain c → P c)
      → P b' '
      → (m : Message D) → IsSendable m
      → All P (render double m)
  unfolding render
  render-All P plain blank m h =
      let words = type_to m.type ∷ key_words double m in
      let plain_words =
        All-map IsWord (All P) (λ w q. All-map IsPlain P plain w q.plain) words
          (words-IsWord m h) in
      All-append P (role_to m.role) (spaced words)
        (All-map IsPlain P plain (role_to m.role) (role_to-IsWord m.role).plain)
        (spaced-All P blank words plain_words)

  tokens-render :
      (m : Message D)
      → IsSendable m
      → tokens (rstrip_crlf (render double m ++ b'\n' ∷ []))
        ≡ role_to m.role ∷ type_to m.type ∷ key_words double m
  tokens-render m h =
      rw
        (rstrip_crlf-newline _
          (render-All (λ c. (c ≢ b'\n') × (c ≢ b'\r')) (λ c p. (p.2, p.3)) (omega arith) m h))
        (unfold render in tokens-spaced _ _ (role_to-IsWord m.role) (words-IsWord m h))

  line_is_string :
      (m : Message D)
      → IsSendable m
      → length (render double m) + 1 ≤ 510
      → c_string (take 511 (render double m ++ b'\n' ∷ [])) ≡ render double m ++ b'\n' ∷ []
  line_is_string m h short =
      let line = render double m ++ b'\n' ∷ [] in
      let fits : length line ≤ 511 =
        omega (arith, length-append {0} (render double m) (b'\n' ∷ [])) in
      rw (take_all 511 line fits) (
        c_string-All line (
          All-append _ (render double m) (b'\n' ∷ [])
            (render-All (λ c. c ≢ 0) (λ c p. p.0) (omega arith) m h) (omega arith)))

  -- A line of at most 510 bytes, its newline included, gives the message back.
  pub line_parse-render :
      (m : Message D)
      → IsSendable m
      → length (render double m) + 1 ≤ 510
      → line_parse double (render double m ++ b'\n' ∷ []) ≡ some (received double m)
  unfolding line_parse
  line_parse-render m h short =
      let measured = length-append {0} (render double m) (b'\n' ∷ []) in
      rw (line_is_string m h short, tokens-render m h, parse_tokens-words m h)
        (ground (arith, measured))

  line_of_format :
      (m : Message D) (room : ℕ) {line : Bytes}
      → line_format double m room ≡ some line
      → line ≡ render double m ++ b'\n' ∷ []
  line_of_format m room written = ground (arith, line_format-render double m room)

  -- What `line_format` writes for a sendable message, in at most 510 bytes, `line_parse` reads back:
  -- the fields that are present come through unchanged (a `double` through its two decimals), the
  -- others are as `msg_init` leaves them.
  pub line_parse-line_format :
      (m : Message D) (room : ℕ) {line : Bytes}
      → IsSendable m
      → line_format double m room ≡ some line
      → length line ≤ 510
      → line_parse double line ≡ some (received double m)
  line_parse-line_format m room {line} h written short =
      let e = line_of_format m room written in
      rw e (
        line_parse-render m h
          (omega (arith, ap length e, length-append {0} (render double m) (b'\n' ∷ []))))
