-- ===== src/Tests/Wire.antt =====
-- common/src/protocol on concrete lines.
use equipment_control.Protocol.Session.{deliver}
use equipment_control.Protocol.Codec.RoundTrip.{line_parse-line_format}
use equipment_control.Tests.{whole, start_one}
use equipment_control.Protocol.Session.Stream.{deliver-split_lines, split_lines}
use equipment_control.Protocol.Codec.Sendable.{received, IsSendable}
use equipment_control.Protocol.Codec.Render.{line_format-render, render}
use equipment_control.Protocol.Codec.Parse.{line_parse}
use equipment_control.Protocol.Codec.Numbers.{digits_onto, print_unsigned}
use equipment_control.Protocol.Codec.Format.{type_to, role_to, line_format}
use equipment_control.Prelude.{arith, ◌≡◌, refl, none, some, List, [], ◌∷◌, Bytes, codes}
use mathlib.Core.List.{flatten}

abbrev chunks : List Bytes
chunks = codes "REQ PI" ∷ codes "NG seq=1\nREQ ST" ∷ codes "ATUS dev=1 seq=2\nRE" ∷ []

deliver-split_lines_example :
    deliver 512 (record { buf = codes "" }) chunks
    ≡ some (
      codes "REQ PING seq=1\n" ∷ codes "REQ STATUS dev=1 seq=2\n" ∷ [],
      record { buf = codes "RE" },
    )
unfolding split_lines flatten
deliver-split_lines_example =
    deliver-split_lines 512 (omega arith) (omega arith) (codes "") chunks tt
      (omega arith, (omega arith, (omega arith, tt)))
      (record { lines_short = (omega arith, (omega arith, tt)); rest_short = omega arith })

format_start : line_format whole start_one 512 ≡ some (codes "REQ START dev=1 seq=7\n")
unfolding line_format print_unsigned digits_onto
format_start = refl

pub start_one-IsSendable : IsSendable start_one
start_one-IsSendable = record {
  role_known = cc;
  type_known = cc;
  dev_fits = omega arith;
  seq_fits = omega arith;
  ok_fits = omega arith;
  code_fits = omega arith;
  state_plain = tt;
  state_short = omega arith;
  msg_plain = tt;
  msg_short = omega arith;
}

line_parse-line_format_example :
    line_parse whole (codes "REQ START dev=1 seq=7\n") ≡ some (received whole start_one)
line_parse-line_format_example =
    line_parse-line_format whole start_one 512 start_one-IsSendable format_start (omega arith)

line_format-render_example : line_format whole start_one 22 ≡ none
unfolding render role_to type_to print_unsigned digits_onto
line_format-render_example = line_format-render whole start_one 22
