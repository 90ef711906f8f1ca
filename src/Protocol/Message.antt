-- ===== src/Protocol/Message.antt =====
-- common/include/protocol/message.h: roles, types and the parsed message. A pair of C fields
-- `x` and `has_x` is a pair of fields here too. `D` stands for `double`, which the message only carries.
use equipment_control.Prelude.{ℕ, Bool, true, false, [], Bytes}
use equipment_control.Prelude.Int.{ℤ, pos}

pub data Role : Type 0 where
  req resp evt unknown : Role

pub data MsgType : Type 0 where
  ping register start stop status reset fault error telemetry alarm unknown : MsgType

-- `a == b` on the enums.
abbrev pub role_eq : Role → Role → Bool
role_eq Role.req Role.req = true
role_eq Role.resp Role.resp = true
role_eq Role.evt Role.evt = true
role_eq Role.unknown Role.unknown = true
role_eq _ _ = false

abbrev pub type_eq : MsgType → MsgType → Bool
type_eq MsgType.ping MsgType.ping = true
type_eq MsgType.register MsgType.register = true
type_eq MsgType.start MsgType.start = true
type_eq MsgType.stop MsgType.stop = true
type_eq MsgType.status MsgType.status = true
type_eq MsgType.reset MsgType.reset = true
type_eq MsgType.fault MsgType.fault = true
type_eq MsgType.error MsgType.error = true
type_eq MsgType.telemetry MsgType.telemetry = true
type_eq MsgType.alarm MsgType.alarm = true
type_eq MsgType.unknown MsgType.unknown = true
type_eq _ _ = false

pub record Message (D : Type 0) : Type 0 where
  pub role : Role
  pub type : MsgType
  pub dev : ℕ
  pub has_dev : Bool
  pub seq : ℕ
  pub has_seq : Bool
  pub ok : ℤ
  pub has_ok : Bool
  pub code : ℤ
  pub has_code : Bool
  pub state : Bytes
  pub has_state : Bool
  pub msg : Bytes
  pub has_msg : Bool
  pub temp : D
  pub has_temp : Bool
  pub pressure : D
  pub has_pressure : Bool
  pub flow : D
  pub has_flow : Bool

-- `memset(&m, 0, sizeof m)`: all bits zero is `ROLE_REQ`, `TYPE_PING` and 0.0, which is given.
abbrev pub zero_message : {D : Type 0} → D → Message D
zero_message d = record {
  role = Role.req;
  type = MsgType.ping;
  dev = 0;
  has_dev = false;
  seq = 0;
  has_seq = false;
  ok = pos 0;
  has_ok = false;
  code = pos 0;
  has_code = false;
  state = [];
  has_state = false;
  msg = [];
  has_msg = false;
  temp = d;
  has_temp = false;
  pressure = d;
  has_pressure = false;
  flow = d;
  has_flow = false;
}
