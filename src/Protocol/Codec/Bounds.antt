-- ===== src/Protocol/Codec/Bounds.antt =====
-- common/src/protocol/line_codec.c: how long the line of a message can be.
use equipment_control.Prelude.{
  ℕ, zero, suc, ◌+◌, ◌/◌, ◌%◌, ◌≡◌, refl, ◌≤◌, Bool, true, false, List, [], ◌∷◌, ◌++◌, some, arith,
  Bytes, codes, length, length-append, le→ltb,
}
use equipment_control.Prelude.Int.{ℤ, pos, negsuc}
use equipment_control.Protocol.Double.{Double}
use equipment_control.Protocol.Message.{Role, MsgType, Message}
use equipment_control.Protocol.Codec.Numbers.{digits_onto, print_unsigned, print_int}
use equipment_control.Protocol.Codec.Tokens.{spaced}
use equipment_control.Protocol.Codec.Format.{role_to, type_to, line_format}
use equipment_control.Protocol.Codec.Render.{
  opt_word, key_words, render, line_format-render, spaced-append,
}

length-digits_onto :
    (fuel n : ℕ) (out : Bytes) → length (digits_onto fuel n out) ≤ fuel + length out
unfolding digits_onto
length-digits_onto zero n out = omega arith
length-digits_onto (suc fuel) n out =
    ground (arith, length-digits_onto fuel (n / 10) ((b'0' + n % 10) ∷ out))

length-print_unsigned : (n : ℕ) → length (print_unsigned n) ≤ 20
unfolding print_unsigned
length-print_unsigned n = omega (arith, length-digits_onto 20 n [])

length-print_int : (z : ℤ) → length (print_int z) ≤ 21
unfolding print_int
length-print_int (pos n) = omega (arith, length-print_unsigned n)
length-print_int (negsuc n) = omega (arith, length-print_unsigned (n + 1))

length-opt_word :
    (has : Bool) (key val : Bytes) (k v : ℕ)
    → length key ≤ k
    → length val ≤ v
    → length (spaced (opt_word has key val)) ≤ 1 + k + v
length-opt_word true key val k v hk hv =
    omega (arith, length-append {0} (key ++ val) [], length-append {0} key val)
length-opt_word false key val k v hk hv = omega arith

length-spaced_append :
    (us vs : List Bytes) → length (spaced (us ++ vs)) ≡ length (spaced us) + length (spaced vs)
length-spaced_append us vs = rw (spaced-append us vs) (length-append (spaced us) (spaced vs))

role_at_most : (r : Role) → length (role_to r) ≤ 4
unfolding role_to
role_at_most Role.req = omega arith
role_at_most _ = omega arith

type_at_most : (t : MsgType) → length (type_to t) ≤ 9
unfolding type_to
type_at_most MsgType.ping = omega arith
type_at_most _ = omega arith

-- A message that carries no measurement, with the texts that its C arrays can hold.
pub record IsBrief {D : Type 0} (m : Message D) : Type 0 where
  pub no_temp : m.has_temp ≡ false
  pub no_pressure : m.has_pressure ≡ false
  pub no_flow : m.has_flow ≡ false
  pub state_short : length m.state ≤ 31
  pub msg_short : length m.msg ≤ 127

module _ {D : Type 0} (double : Double D) where
  length-key_words : (m : Message D) → IsBrief m → length (spaced (key_words double m)) ≤ 272
  unfolding key_words
  length-key_words m b =
      simp (b.no_temp, b.no_pressure, b.no_flow, length-spaced_append)
        (omega (
          arith,
          length-opt_word m.has_dev (codes "dev=") _ 4 20 (omega arith)
              (length-print_unsigned m.dev),
          length-opt_word m.has_seq (codes "seq=") _ 4 20 (omega arith)
              (length-print_unsigned m.seq),
          length-opt_word m.has_ok (codes "ok=") _ 3 21 (omega arith) (length-print_int m.ok),
          length-opt_word m.has_state (codes "state=") _ 6 31 (omega arith) b.state_short,
          length-opt_word m.has_code (codes "code=") _ 5 21 (omega arith) (length-print_int m.code),
          length-opt_word m.has_msg (codes "msg=") _ 4 127 (omega arith) b.msg_short,
        ))

  -- The line of a message with no measurement always fits a buffer of 512 bytes:
  -- `line_format` does not fail, and writes at most 288 bytes.
  pub line_format-brief :
      (m : Message D)
      → IsBrief m
      → (line_format double m 512 ≡ some (render double m ++ b'\n' ∷ []))
        × (length (render double m ++ b'\n' ∷ []) ≤ 288)
  unfolding render
  line_format-brief m b =
      let short : length (render double m) ≤ 287 = omega (
        arith,
        role_at_most m.role,
        type_at_most m.type,
        length-key_words m b,
        length-append {0} (role_to m.role) (spaced (type_to m.type ∷ key_words double m)),
        length-append {0} (type_to m.type) (spaced (key_words double m)),
      ) in
      (
        rw (line_format-render double m 512)
            (rw (le→ltb 512 (length (render double m) + 2) (omega arith)) refl),
        omega (arith, length-append {0} (render double m) (b'\n' ∷ [])),
      )
