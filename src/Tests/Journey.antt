-- ===== src/Tests/Journey.antt =====
-- services/equipmentd and nodes/pmc together, on a concrete command.
use equipment_control.Prelude.{arith, ◌≡◌, refl, [], ◌∷◌, Bytes}
use equipment_control.Protocol.Codec.Sendable.{received}
use equipment_control.Protocol.Codec.Render.{render}
use equipment_control.Protocol.Codec.Format.{role_to, type_to}
use equipment_control.Protocol.Codec.Numbers.{print_unsigned, digits_onto}
use equipment_control.Equipmentd.Server.{handle_message}
use equipment_control.Pmc.Routing.{pmc_route_message}
use equipment_control.Pmc.Routing.Answers.{Dealt}
use equipment_control.Pmc.Peer.{handle_line, conn_at}
use equipment_control.System.{command-Dealt}
use equipment_control.Tests.{whole, start_one}
use equipment_control.Tests.Wire.{start_one-IsSendable}
use equipment_control.Tests.Server.{
  connected, all_write, start_one-IsCommand, to_pmc, connected-room, connected-UniqueKeys,
  connected_fresh,
}
use equipment_control.Tests.Process.{whole_float, writes_all, server, with_both}

command-Dealt_example :
    (l : Bytes) × ((handle_message whole all_write 9 100 connected start_one).sent ≡ (5, l) ∷ [])
    × (let o =
          pmc_route_message whole whole_float writes_all server
            (received whole start_one)
            with_both in
        (handle_line whole whole_float writes_all 4 l with_both
          ≡ record { state = o.state; sent = o.sent })
        × Dealt whole whole_float writes_all 4 (received whole start_one) with_both o)
unfolding render role_to type_to print_unsigned digits_onto conn_at
command-Dealt_example =
    command-Dealt whole whole_float all_write writes_all 9 100 5 4 connected start_one server
      with_both start_one-IsCommand start_one-IsSendable (omega arith) to_pmc connected-room
      connected-UniqueKeys connected_fresh (λ l. refl) refl refl refl (λ l. refl)
