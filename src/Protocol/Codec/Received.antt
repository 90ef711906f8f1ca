-- ===== src/Protocol/Codec/Received.antt =====
-- common/src/protocol/line_codec.c: what `line_parse` makes of each word that `line_format` wrote.
use equipment_control.Prelude.{
  ◌≡◌, refl, Bool, true, false, List, ◌++◌, if◌then◌else◌, Bytes, codes, copy_str,
}
use equipment_control.Protocol.Double.{Double}
use equipment_control.Protocol.Message.{Message}
use equipment_control.Protocol.Codec.Numbers.{print_unsigned, print_int, read_uint32, read_int32}
use equipment_control.Protocol.Codec.Parse.{apply_token, apply_tokens}
use equipment_control.Protocol.Codec.Render.{opt_word, key_words}

module _ {D : Type 0} (double : Double D) where
  open double use {zero_double, strtod, print_2f, print_2f-IsPlain}

  pub apply_tokens-opt_word :
      (has : Bool) (key val : Bytes) (ws : List Bytes) (m : Message D)
      → apply_tokens double m (opt_word has key val ++ ws)
        ≡ apply_tokens double (if has then apply_token double m (key ++ val) else m) ws
  unfolding apply_tokens
  apply_tokens-opt_word true key val ws m = refl
  apply_tokens-opt_word false key val ws m = refl

  apply_dev :
      (has : Bool) (val : Bytes) (m : Message D)
      → (if has then apply_token double m (codes "dev=" ++ val) else m) ≡ record m {
        dev = if has then read_uint32 val else m.dev;
        has_dev = if has then true else m.has_dev;
      }
  unfolding apply_token
  apply_dev true val m = refl
  apply_dev false val m = refl

  apply_seq :
      (has : Bool) (val : Bytes) (m : Message D)
      → (if has then apply_token double m (codes "seq=" ++ val) else m) ≡ record m {
        seq = if has then read_uint32 val else m.seq;
        has_seq = if has then true else m.has_seq;
      }
  unfolding apply_token
  apply_seq true val m = refl
  apply_seq false val m = refl

  apply_ok :
      (has : Bool) (val : Bytes) (m : Message D)
      → (if has then apply_token double m (codes "ok=" ++ val) else m) ≡ record m {
        ok = if has then read_int32 val else m.ok;
        has_ok = if has then true else m.has_ok;
      }
  unfolding apply_token
  apply_ok true val m = refl
  apply_ok false val m = refl

  apply_state :
      (has : Bool) (val : Bytes) (m : Message D)
      → (if has then apply_token double m (codes "state=" ++ val) else m) ≡ record m {
        state = if has then copy_str 31 val else m.state;
        has_state = if has then true else m.has_state;
      }
  unfolding apply_token
  apply_state true val m = refl
  apply_state false val m = refl

  apply_code :
      (has : Bool) (val : Bytes) (m : Message D)
      → (if has then apply_token double m (codes "code=" ++ val) else m) ≡ record m {
        code = if has then read_int32 val else m.code;
        has_code = if has then true else m.has_code;
      }
  unfolding apply_token
  apply_code true val m = refl
  apply_code false val m = refl

  apply_msg :
      (has : Bool) (val : Bytes) (m : Message D)
      → (if has then apply_token double m (codes "msg=" ++ val) else m) ≡ record m {
        msg = if has then copy_str 127 val else m.msg;
        has_msg = if has then true else m.has_msg;
      }
  unfolding apply_token
  apply_msg true val m = refl
  apply_msg false val m = refl

  apply_temp :
      (has : Bool) (val : Bytes) (m : Message D)
      → (if has then apply_token double m (codes "temp=" ++ val) else m) ≡ record m {
        temp = if has then strtod val else m.temp;
        has_temp = if has then true else m.has_temp;
      }
  unfolding apply_token
  apply_temp true val m = refl
  apply_temp false val m = refl

  apply_pressure :
      (has : Bool) (val : Bytes) (m : Message D)
      → (if has then apply_token double m (codes "pressure=" ++ val) else m) ≡ record m {
        pressure = if has then strtod val else m.pressure;
        has_pressure = if has then true else m.has_pressure;
      }
  unfolding apply_token
  apply_pressure true val m = refl
  apply_pressure false val m = refl

  apply_flow :
      (has : Bool) (val : Bytes) (m : Message D)
      → (if has then apply_token double m (codes "flow=" ++ val) else m) ≡ record m {
        flow = if has then strtod val else m.flow;
        has_flow = if has then true else m.has_flow;
      }
  unfolding apply_token
  apply_flow true val m = refl
  apply_flow false val m = refl

  apply_last_flow :
      (has : Bool) (val : Bytes) (m : Message D)
      → apply_tokens double m (opt_word has (codes "flow=") val) ≡ record m {
        flow = if has then strtod val else m.flow;
        has_flow = if has then true else m.has_flow;
      }
  unfolding apply_tokens
  apply_last_flow true val m = apply_flow true val m
  apply_last_flow false val m = apply_flow false val m

  -- The message that the words of `m` give, before the values are read back.
  pub apply_key_words :
      (m start : Message D)
      → apply_tokens double start (key_words double m) ≡ record start {
        dev = if m.has_dev then read_uint32 (print_unsigned m.dev) else start.dev;
        has_dev = if m.has_dev then true else start.has_dev;
        seq = if m.has_seq then read_uint32 (print_unsigned m.seq) else start.seq;
        has_seq = if m.has_seq then true else start.has_seq;
        ok = if m.has_ok then read_int32 (print_int m.ok) else start.ok;
        has_ok = if m.has_ok then true else start.has_ok;
        state = if m.has_state then copy_str 31 m.state else start.state;
        has_state = if m.has_state then true else start.has_state;
        code = if m.has_code then read_int32 (print_int m.code) else start.code;
        has_code = if m.has_code then true else start.has_code;
        msg = if m.has_msg then copy_str 127 m.msg else start.msg;
        has_msg = if m.has_msg then true else start.has_msg;
        temp = if m.has_temp then strtod (print_2f m.temp) else start.temp;
        has_temp = if m.has_temp then true else start.has_temp;
        pressure = if m.has_pressure then strtod (print_2f m.pressure) else start.pressure;
        has_pressure = if m.has_pressure then true else start.has_pressure;
        flow = if m.has_flow then strtod (print_2f m.flow) else start.flow;
        has_flow = if m.has_flow then true else start.has_flow;
      }
  unfolding key_words
  apply_key_words m start = simp (
    apply_tokens-opt_word, apply_dev, apply_seq, apply_ok, apply_state, apply_code, apply_msg,
    apply_temp, apply_pressure, apply_last_flow,
  )
