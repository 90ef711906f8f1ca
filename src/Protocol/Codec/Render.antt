-- ===== src/Protocol/Codec/Render.antt =====
-- common/src/protocol/line_codec.c: the text of a message with no buffer, its words with a blank
-- between them.
use equipment_control.Prelude.{
  ltb→lt, lt→ltb, ltb→le, ℕ, ◌+◌, ◌≡◌, refl, ◌≤◌, Bool, true, false, List, [], ◌∷◌, ◌++◌, Option,
  none, some, arith, ltb, if◌then◌else◌, Bytes, codes, length, ◌>>=◌, length-append, append_assoc,
  Bool-cases, inl, inr, append-nil, ◌∙◌, ap, sym,
}
use equipment_control.Protocol.Double.{Double}
use equipment_control.Protocol.Message.{Role, MsgType, Message}
use equipment_control.Protocol.Codec.Numbers.{print_unsigned, print_int}
use equipment_control.Protocol.Codec.Tokens.{spaced}
use equipment_control.Protocol.Codec.Format.{
  role_to, type_to, append_text, put_field, end_line, line_format,
}

-- A word that is there if its flag is set.
abbrev pub opt_word : Bool → Bytes → Bytes → List Bytes
opt_word true key val = (key ++ val) ∷ []
opt_word false key val = []

module _ {D : Type 0} (double : Double D) where
  open double use {print_2f}

  -- The `key=value` words of a message, in the order of `line_format`.
  unfoldable pub key_words : Message D → List Bytes
  key_words m =
      opt_word m.has_dev (codes "dev=") (print_unsigned m.dev)
      ++ (opt_word m.has_seq (codes "seq=") (print_unsigned m.seq)
          ++ (opt_word m.has_ok (codes "ok=") (print_int m.ok)
              ++ (opt_word m.has_state (codes "state=") m.state
                  ++ (opt_word m.has_code (codes "code=") (print_int m.code)
                      ++ (opt_word m.has_msg (codes "msg=") m.msg
                          ++ (opt_word m.has_temp (codes "temp=") (print_2f m.temp)
                              ++ (opt_word m.has_pressure (codes "pressure=") (print_2f m.pressure)
                                  ++ opt_word m.has_flow (codes "flow=") (print_2f m.flow))))))))

  -- The line of a message without its newline.
  unfoldable pub render : Message D → Bytes
  unfolding key_words
  render m = role_to m.role ++ spaced (type_to m.type ∷ key_words m)

-- A text if it is shorter than the buffer.
unfoldable pub fit : ℕ → Bytes → Option Bytes
fit room s = if ltb (length s) room then some s else none

fit_long : (room : ℕ) (s : Bytes) → room ≤ length s → fit room s ≡ none
unfolding fit
fit_long room s h = ground arith

append_text-fit : (room : ℕ) (text out : Bytes) → append_text room text out ≡ fit room (out ++ text)
unfolding append_text fit
append_text-fit room text out = ground (arith, length-append {0} out text)

pub spaced-append : (us vs : List Bytes) → spaced (us ++ vs) ≡ spaced us ++ spaced vs
spaced-append [] vs = refl
spaced-append (w ∷ us) vs =
    ap (λ t. b' ' ∷ (w ++ t)) (spaced-append us vs)
    ∙ ap (◌∷◌ b' ') (sym (append_assoc w (spaced us) (spaced vs)))

-- One step of the chain on a text that may have been too long already.
put_field-fit :
    (room : ℕ) (has : Bool) (key val s : Bytes)
    → (fit room s >>= put_field room has (b' ' ∷ key) val)
      ≡ fit room (s ++ spaced (opt_word has key val))
unfolding fit put_field
put_field-fit room false key val s = rw append-nil (keep (fit room s))
  where
    keep : (o : Option Bytes) → (o >>= put_field room false (b' ' ∷ key) val) ≡ o
    keep none = refl
    keep (some t) = refl
put_field-fit room true key val s = elim (Bool-cases (ltb (length s) room)) [
  | inl fits ↦ rw fits (append_text-fit room (b' ' ∷ (key ++ val)) s ∙ rw append-nil refl)
  | inr long ↦ rw long (
      sym (
        fit_long room _ (
          omega
            (arith, ltb→le (length s) room long, length-append {0} s (b' ' ∷ (key ++ val ++ []))))))
]

end_line-fit :
    (room : ℕ) (s : Bytes)
    → (fit room s >>= end_line room)
      ≡ (if ltb room (length s + 2) then none else some (s ++ b'\n' ∷ []))
unfolding fit end_line
end_line-fit room s = ground arith

length-role_to : (r : Role) → 3 ≤ length (role_to r)
unfolding role_to
length-role_to Role.req = omega arith
length-role_to _ = omega arith

length-type_to : (t : MsgType) → 4 ≤ length (type_to t)
unfolding type_to
length-type_to MsgType.ping = omega arith
length-type_to _ = omega arith

module _ {D : Type 0} (double : Double D) where
  length-render : (m : Message D) → 8 ≤ length (render double m)
  unfolding render
  length-render m = omega (
    arith,
    length-role_to m.role,
    length-type_to m.type,
    length-append {0} (role_to m.role) (spaced (type_to m.type ∷ key_words double m)),
    length-append {0} (type_to m.type) (spaced (key_words double m)),
  )

  -- The texts in the order of the chain are the rendered line.
  chain-render :
      (m : Message D)
      → (((((((((role_to m.role ++ b' ' ∷ type_to m.type)
                          ++ spaced (opt_word m.has_dev (codes "dev=") (print_unsigned m.dev)))
                        ++ spaced (opt_word m.has_seq (codes "seq=") (print_unsigned m.seq)))
                      ++ spaced (opt_word m.has_ok (codes "ok=") (print_int m.ok)))
                    ++ spaced (opt_word m.has_state (codes "state=") m.state))
                  ++ spaced (opt_word m.has_code (codes "code=") (print_int m.code)))
                ++ spaced (opt_word m.has_msg (codes "msg=") m.msg))
              ++ spaced (opt_word m.has_temp (codes "temp=") (double.print_2f m.temp)))
            ++ spaced (opt_word m.has_pressure (codes "pressure=") (double.print_2f m.pressure)))
          ++ spaced (opt_word m.has_flow (codes "flow=") (double.print_2f m.flow))
        ≡ render double m
  unfolding render
  chain-render m = simp (spaced-append, append_assoc)

  -- The checks of the ten `snprintf` calls and the last one come to one test on the whole text: the
  -- line is written, whole and with its newline, exactly when it fits the buffer with its NUL.
  pub line_format-render :
      (m : Message D) (room : ℕ)
      → line_format double m room ≡ (
          if ltb room (length (render double m) + 2)
          then none
          else some (render double m ++ b'\n' ∷ []))
  unfolding line_format
  line_format-render m room = elim (Bool-cases (ltb room 8)) [
    | inl small ↦
        rw
          (
            small,
            lt→ltb room (length (render double m) + 2)
                (omega (arith, ltb→lt room 8 small, length-render m)),
          )
          refl
    | inr large ↦ rw large (simp (append_text-fit, put_field-fit, end_line-fit, chain-render))
  ]
