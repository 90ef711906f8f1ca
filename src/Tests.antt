-- ===== src/Tests.antt =====
-- Runs on concrete inputs, and the data that they share.
mod Wire
mod Device
mod Server
mod Transfer
mod Table
mod Process
mod Clients
mod Rounds
mod Peers
mod Interleaved
mod Journey
mod Answer
mod Simulator
use equipment_control.Prelude.{arith, ℕ, ◌++◌, Bool, true, false, Bytes, codes, All-append, All-map}
use equipment_control.Prelude.Int.{pos}
use equipment_control.Protocol.Double.{Double, IsPlain}
use equipment_control.Protocol.Message.{Role, MsgType, Message, zero_message}
use equipment_control.Protocol.Codec.Numbers.{print_unsigned, read_uint32}
use equipment_control.Protocol.Codec.Sendable.{print_unsigned-Plain}

-- Whole numbers for `double`, printed with two decimals.
abbrev pub whole : Double ℕ
whole = record {
  zero_double = 0;
  strtod = read_uint32;
  print_2f = λ n. print_unsigned n ++ codes ".00";
  print_2f-IsPlain = λ n.
      All-append IsPlain (print_unsigned n) (codes ".00") (print_unsigned-Plain n) (omega arith);
}

-- REQ START dev=1 seq=7
abbrev pub start_one : Message ℕ
start_one = record (zero_message 0) {
  role = Role.req;
  type = MsgType.start;
  dev = 1;
  has_dev = true;
  seq = 7;
  has_seq = true;
}

-- RESP START dev=1 seq=7 ok=1
abbrev pub started_one : Message ℕ
started_one = record start_one { role = Role.resp; ok = pos 1; has_ok = true }
