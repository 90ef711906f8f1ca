-- ===== src/Tests/Answer.antt =====
-- services/equipmentd and nodes/pmc together, on a concrete answer.
use equipment_control.Prelude.{arith, ◌≡◌, refl, [], ◌∷◌, ◌++◌}
use equipment_control.Protocol.Codec.Sendable.{IsSendable}
use equipment_control.Protocol.Codec.Render.{render}
use equipment_control.Protocol.Codec.Bounds.{IsBrief}
use equipment_control.Equipmentd.Server.{handle_one_line, is_controller_fd, pending}
use equipment_control.Equipmentd.Server.Relay.{Forgotten}
use equipment_control.Pmc.{pmc_find_eqd}
use equipment_control.Pmc.Peer.{handle_line, conn_at}
use equipment_control.System.Answer.{answer-Returned}
use equipment_control.Tests.{whole, start_one, started_one}
use equipment_control.Tests.Server.{
  after_start, after_start-Remembered, all_write, started_one-IsAnswer,
}
use equipment_control.Tests.Process.{whole_float, writes_all, server, sim, with_both}

started_one-IsSendable : IsSendable started_one
started_one-IsSendable = record {
  role_known = cc;
  type_known = cc;
  dev_fits = omega arith;
  seq_fits = omega arith;
  ok_fits = omega arith;
  code_fits = omega arith;
  state_plain = tt;
  state_short = omega arith;
  msg_plain = tt;
  msg_short = omega arith;
}

started_one-IsBrief : IsBrief started_one
started_one-IsBrief = record {
  no_temp = refl;
  no_pressure = refl;
  no_flow = refl;
  state_short = omega arith;
  msg_short = omega arith;
}

answer-Returned_example :
    let l = render whole started_one ++ b'\n' ∷ [] in
    let e = handle_one_line whole all_write 5 200 after_start l in
    ((handle_line whole whole_float writes_all 9 l with_both).sent ≡ (4, l) ∷ [])
    × (e.sent ≡ (9, l) ∷ [])
    × Forgotten after_start.tracker e.ctx.tracker 7 1
unfolding is_controller_fd conn_at pmc_find_eqd
answer-Returned_example =
    let (remembered, same) = after_start-Remembered in
    answer-Returned whole whole_float all_write writes_all 9 5 200 9 sim server with_both
      after_start (pending 9 100 start_one) started_one started_one-IsSendable started_one-IsBrief
      started_one-IsAnswer refl refl refl refl refl (λ l. refl) (same 5) remembered.1
      (remembered.0 7 1) refl (λ l. refl)
