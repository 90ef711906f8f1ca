-- ===== src/Protocol/Codec/Parse.antt =====
-- `line_parse`. `line` is the memory before the NUL that the caller wrote; a NUL inside it ends the
-- string, as for `strnlen`.
use equipment_control.Prelude.{
  true, ◌||◌, List, [], ◌∷◌, Option, none, some, ◌==◌, leb, if◌then◌else◌, Bytes, codes, str_eq,
  c_string, copy_str, length, take,
}
use equipment_control.Prelude.Int.{minus_one}
use equipment_control.Protocol.Double.{Double}
use equipment_control.Protocol.Message.{Role, MsgType, role_eq, type_eq, Message, zero_message}
use equipment_control.Protocol.Codec.Numbers.{read_uint32, read_int32}
use equipment_control.Protocol.Codec.Tokens.{tokens, split_eq, rstrip_crlf}

unfoldable pub role_from : Bytes → Role
unfolding str_eq
role_from s =
    if str_eq s (codes "REQ")
    then Role.req
    else if str_eq s (codes "RESP")
    then Role.resp
    else if str_eq s (codes "EVT")
    then Role.evt
    else Role.unknown

unfoldable pub type_from : Bytes → MsgType
unfolding str_eq
type_from s =
    if str_eq s (codes "PING")
    then MsgType.ping
    else if str_eq s (codes "REGISTER")
    then MsgType.register
    else if str_eq s (codes "START")
    then MsgType.start
    else if str_eq s (codes "STOP")
    then MsgType.stop
    else if str_eq s (codes "STATUS")
    then MsgType.status
    else if str_eq s (codes "RESET")
    then MsgType.reset
    else if str_eq s (codes "FAULT")
    then MsgType.fault
    else if str_eq s (codes "TELEMETRY")
    then MsgType.telemetry
    else if str_eq s (codes "ALARM")
    then MsgType.alarm
    else if str_eq s (codes "ERROR")
    then MsgType.error
    else MsgType.unknown

module _ {D : Type 0} (double : Double D) where
  open double use {zero_double, strtod}

  unfoldable pub msg_init : Message D
  msg_init = record (zero_message zero_double) {
    role = Role.unknown;
    type = MsgType.unknown;
    ok = minus_one;
  }

  -- The chain of `strcmp(key, ...)`; an unknown key changes nothing.
  unfoldable pub set_key : Bytes → Bytes → Message D → Message D
  unfolding str_eq
  set_key key val m =
      if str_eq key (codes "dev")
      then record m { dev = read_uint32 val; has_dev = true }
      else if str_eq key (codes "seq")
      then record m { seq = read_uint32 val; has_seq = true }
      else if str_eq key (codes "ok")
      then record m { ok = read_int32 val; has_ok = true }
      else if str_eq key (codes "code")
      then record m { code = read_int32 val; has_code = true }
      else if str_eq key (codes "state")
      then record m { state = copy_str 31 val; has_state = true }
      else if str_eq key (codes "msg")
      then record m { msg = copy_str 127 val; has_msg = true }
      else if str_eq key (codes "temp")
      then record m { temp = strtod val; has_temp = true }
      else if str_eq key (codes "pressure")
      then record m { pressure = strtod val; has_pressure = true }
      else if str_eq key (codes "flow")
      then record m { flow = strtod val; has_flow = true }
      else m

  -- The body of the loop over the tokens: one without `=` is ignored.
  unfoldable pub apply_token : Message D → Bytes → Message D
  unfolding split_eq set_key
  apply_token m tok = elim (split_eq tok) [ none ↦ m | some (key, val) ↦ set_key key val m ]

  unfoldable pub apply_tokens : Message D → List Bytes → Message D
  apply_tokens m [] = m
  apply_tokens m (tok ∷ toks) = apply_tokens (apply_token m tok) toks

  unfoldable pub parse_tokens : List Bytes → Option (Message D)
  unfolding role_from type_from msg_init apply_tokens
  parse_tokens [] = none
  parse_tokens (tok_role ∷ []) = none
  parse_tokens (tok_role ∷ tok_type ∷ toks) =
      let role = role_from tok_role in
      let type = type_from tok_type in
      if role_eq role Role.unknown || type_eq type MsgType.unknown
      then none
      else some (apply_tokens (record msg_init { role = role; type = type }) toks)

  -- `none` is the result -1.
  unfoldable pub line_parse : Bytes → Option (Message D)
  line_parse line =
      let buf = c_string (take 511 line) in
      if length buf == 0 || leb 511 (length buf)
      then none
      else parse_tokens (tokens (rstrip_crlf buf))
