-- ===== src/Protocol/Codec/Format.antt =====
-- `line_format`. Each `snprintf` appends to what is there, and its test is on what would be written.
use equipment_control.Prelude.{
  ℕ, ◌+◌, Bool, true, false, [], ◌∷◌, ◌++◌, Option, none, some, ltb, leb, if◌then◌else◌, Bytes,
  codes, length, ◌>>=◌,
}
use equipment_control.Protocol.Double.{Double}
use equipment_control.Protocol.Message.{Role, MsgType, Message}
use equipment_control.Protocol.Codec.Numbers.{print_unsigned, print_int}

unfoldable pub role_to : Role → Bytes
role_to Role.req = codes "REQ"
role_to Role.resp = codes "RESP"
role_to Role.evt = codes "EVT"
role_to Role.unknown = codes "UNK"

unfoldable pub type_to : MsgType → Bytes
type_to MsgType.ping = codes "PING"
type_to MsgType.register = codes "REGISTER"
type_to MsgType.start = codes "START"
type_to MsgType.stop = codes "STOP"
type_to MsgType.status = codes "STATUS"
type_to MsgType.reset = codes "RESET"
type_to MsgType.fault = codes "FAULT"
type_to MsgType.telemetry = codes "TELEMETRY"
type_to MsgType.alarm = codes "ALARM"
type_to MsgType.error = codes "ERROR"
type_to MsgType.unknown = codes "UNKNOWN"

-- One `snprintf(out + w, cap - w, ...)` with its test on `w + r`.
unfoldable pub append_text : ℕ → Bytes → Bytes → Option Bytes
append_text room text out = if leb room (length out + length text) then none else some (out ++ text)

-- `if(m->has_x){ ... }` with the format `" key=%..."`.
unfoldable pub put_field : ℕ → Bool → Bytes → Bytes → Bytes → Option Bytes
unfolding append_text
put_field room false key val out = some out
put_field room true key val out = append_text room (key ++ val) out

unfoldable pub end_line : ℕ → Bytes → Option Bytes
end_line room out = if ltb room (length out + 2) then none else some (out ++ b'\n' ∷ [])

module _ {D : Type 0} (double : Double D) where
  open double use {print_2f}

  -- The bytes written before the final NUL, whose number is the result; `none` is the result -1.
  unfoldable pub line_format : Message D → ℕ → Option Bytes
  unfolding role_to type_to append_text put_field end_line
  line_format m room =
      if ltb room 8
      then none
      else append_text room (role_to m.role ++ b' ' ∷ type_to m.type) []
        >>= put_field room m.has_dev (codes " dev=") (print_unsigned m.dev)
        >>= put_field room m.has_seq (codes " seq=") (print_unsigned m.seq)
        >>= put_field room m.has_ok (codes " ok=") (print_int m.ok)
        >>= put_field room m.has_state (codes " state=") m.state
        >>= put_field room m.has_code (codes " code=") (print_int m.code)
        >>= put_field room m.has_msg (codes " msg=") m.msg
        >>= put_field room m.has_temp (codes " temp=") (print_2f m.temp)
        >>= put_field room m.has_pressure (codes " pressure=") (print_2f m.pressure)
        >>= put_field room m.has_flow (codes " flow=") (print_2f m.flow)
        >>= end_line room
