-- ===== src/Protocol/Codec/Sendable.antt =====
-- common/src/protocol/line_codec.c: messages that a line can carry, and what is read of them.
use equipment_control.Prelude.{
  ℕ, ◌+◌, ◌^◌, ◌≡◌, ◌≢◌, refl, ◌<◌, ◌≤◌, Bool, true, false, List, [], ◌∷◌, ◌++◌, arith,
  if◌then◌else◌, Bytes, length, c_string, All, All-append, All-map,
}
use equipment_control.Prelude.Int.{negsuc, pos, ℤ, IsInt32, minus_one}
use equipment_control.Protocol.Double.{Double, IsPlain}
use equipment_control.Protocol.Message.{Role, MsgType, Message, zero_message}
use equipment_control.Protocol.Codec.Numbers.{
  print_unsigned, print_int, IsDigits, print_unsigned-IsDigits,
}
use equipment_control.Protocol.Codec.Tokens.{spaced, Plain, IsWord}
use equipment_control.Protocol.Codec.Parse.{role_from, type_from}
use equipment_control.Protocol.Codec.Format.{role_to, type_to}
use equipment_control.Protocol.Codec.Render.{opt_word, key_words}

-- What a sender may put into a message so that it comes through unchanged.
pub record IsSendable {D : Type 0} (m : Message D) : Type 0 where
  pub role_known : m.role ≢ Role.unknown
  pub type_known : m.type ≢ MsgType.unknown
  pub dev_fits : m.dev < 2 ^ 32
  pub seq_fits : m.seq < 2 ^ 32
  pub ok_fits : IsInt32 m.ok
  pub code_fits : IsInt32 m.code
  pub state_plain : Plain m.state
  pub state_short : length m.state ≤ 31
  pub msg_plain : Plain m.msg
  pub msg_short : length m.msg ≤ 127

pub role_from-role_to : (r : Role) → r ≢ Role.unknown → role_from (role_to r) ≡ r
unfolding role_from role_to
role_from-role_to Role.unknown h = absurd (h refl)
role_from-role_to Role.req h = refl
role_from-role_to _ h = refl

pub type_from-type_to : (t : MsgType) → t ≢ MsgType.unknown → type_from (type_to t) ≡ t
unfolding type_from type_to
type_from-type_to MsgType.unknown h = absurd (h refl)
type_from-type_to MsgType.ping h = refl
type_from-type_to _ h = refl

pub role_to-IsWord : (r : Role) → IsWord (role_to r)
unfolding role_to
role_to-IsWord Role.req = ground arith
role_to-IsWord _ = ground arith

pub type_to-IsWord : (t : MsgType) → IsWord (type_to t)
unfolding type_to
type_to-IsWord MsgType.ping = ground arith
type_to-IsWord _ = ground arith

IsDigits-Plain : (s : Bytes) → IsDigits s → Plain s
IsDigits-Plain s h = All-map _ IsPlain (λ c d. ground arith) s h

pub print_unsigned-Plain : (n : ℕ) → Plain (print_unsigned n)
print_unsigned-Plain n = IsDigits-Plain _ (print_unsigned-IsDigits n)

pub opt_word-IsWord :
    (has : Bool) (c : ℕ) (key val : Bytes)
    → Plain (c ∷ key)
    → Plain val
    → All IsWord (opt_word has (c ∷ key) val)
opt_word-IsWord false c key val hk hv = tt
opt_word-IsWord true c key val hk hv =
    (record { not_nil = λ e. cc; plain = All-append _ (c ∷ key) val hk hv }, tt)

pub append-IsWord :
    (has : Bool) (c : ℕ) (key val : Bytes) (ws : List Bytes)
    → Plain (c ∷ key)
    → Plain val
    → All IsWord ws
    → All IsWord (opt_word has (c ∷ key) val ++ ws)
append-IsWord has c key val ws hk hv h =
    All-append IsWord _ ws (opt_word-IsWord has c key val hk hv) h

pub print_int-Plain : (z : ℤ) → Plain (print_int z)
unfolding print_int
print_int-Plain (pos n) = print_unsigned-Plain n
print_int-Plain (negsuc n) = (ground arith, print_unsigned-Plain (n + 1))

pub spaced-All : (P : ℕ → Type 0) → P b' ' → (ws : List Bytes) → All (All P) ws → All P (spaced ws)
spaced-All P blank [] h = tt
spaced-All P blank (w ∷ ws) h = (blank, All-append P w (spaced ws) h.0 (spaced-All P blank ws h.1))

pub c_string-All : (s : Bytes) → All (λ c. c ≢ 0) s → c_string s ≡ s
unfolding c_string
c_string-All [] h = refl
c_string-All (c ∷ s) h = ground (arith, c_string-All s h.1)

module _ {D : Type 0} (double : Double D) where
  open double use {zero_double, strtod, print_2f, print_2f-IsPlain}

  -- The message that is read: what was not sent is as `msg_init` left it, and a `double` is what its two
  -- decimal places say.
  unfoldable pub received : Message D → Message D
  received m = record {
    role = m.role;
    type = m.type;
    dev = if m.has_dev then m.dev else 0;
    has_dev = m.has_dev;
    seq = if m.has_seq then m.seq else 0;
    has_seq = m.has_seq;
    ok = if m.has_ok then m.ok else minus_one;
    has_ok = m.has_ok;
    code = if m.has_code then m.code else (zero_message zero_double).code;
    has_code = m.has_code;
    state = if m.has_state then m.state else [];
    has_state = m.has_state;
    msg = if m.has_msg then m.msg else [];
    has_msg = m.has_msg;
    temp = if m.has_temp then strtod (print_2f m.temp) else zero_double;
    has_temp = m.has_temp;
    pressure = if m.has_pressure then strtod (print_2f m.pressure) else zero_double;
    has_pressure = m.has_pressure;
    flow = if m.has_flow then strtod (print_2f m.flow) else zero_double;
    has_flow = m.has_flow;
  }

  pub key_words-IsWord : (m : Message D) → IsSendable m → All IsWord (key_words double m)
  unfolding key_words
  key_words-IsWord m h =
      append-IsWord m.has_dev _ _ _ _ (omega arith) (print_unsigned-Plain m.dev) (
        append-IsWord m.has_seq _ _ _ _ (omega arith) (print_unsigned-Plain m.seq) (
          append-IsWord m.has_ok _ _ _ _ (omega arith) (print_int-Plain m.ok) (
            append-IsWord m.has_state _ _ _ _ (omega arith) h.state_plain (
              append-IsWord m.has_code _ _ _ _ (omega arith) (print_int-Plain m.code) (
                append-IsWord m.has_msg _ _ _ _ (omega arith) h.msg_plain (
                  append-IsWord m.has_temp _ _ _ _ (omega arith) (print_2f-IsPlain m.temp) (
                    append-IsWord m.has_pressure _ _ _ _ (omega arith) (print_2f-IsPlain m.pressure)
                      (opt_word-IsWord m.has_flow _ _ _ (omega arith)
                        (print_2f-IsPlain m.flow)))))))))
