-- ===== src/Pmc/Apply.antt =====
-- nodes/pmc/src/io_manager.c: what a command for a device asks of the auxiliary device.
pub mod Heater
use equipment_control.Prelude.{
  ℕ, ◌+◌, Bool, true, false, not, Option, none, some, if◌then◌else◌, Bytes, codes,
}
use equipment_control.Protocol.Message.{MsgType}
use equipment_control.Prelude.Int.{ℤ, pos, eqb_ℤ}
use equipment_control.Pmc.Auxiliary.{
  AuxState, pmc_aux_reply_is, pmc_aux_ping_with_retry, pmc_aux_set_heater_with_retry, ready_session,
}

-- The result 0, or -1 with the reply that the caller sends on.
pub data Applied : Type 0 where
  applied : Applied
  refused : Bytes → Applied

-- The checks of a reply: the text for none, the text expected, and the text for another.
unfoldable pub check_reply : Bytes → Bytes → Bytes → Option Bytes → Applied
check_reply missing expect bad none = refused missing
check_reply missing expect bad (some reply) =
    if pmc_aux_reply_is reply expect then applied else refused bad

-- The size of the reply's buffer in the caller.
abbrev aux_reply_sz : ℕ
aux_reply_sz = 128

unfoldable pub apply_ping : AuxState → Applied × AuxState
apply_ping s =
    let (r, s') = pmc_aux_ping_with_retry aux_reply_sz s in
    (check_reply (codes "AUX_PING_FAILED") (codes "OK PONG") (codes "AUX_PING_BAD_REPLY") r, s')

unfoldable pub apply_heater_on : AuxState → Applied × AuxState
apply_heater_on s =
    let (r, s') = pmc_aux_set_heater_with_retry true aux_reply_sz s in
    (
      check_reply (codes "AUX_HEATER_ON_FAILED") (codes "OK HEATER ON")
          (codes "AUX_HEATER_ON_BAD_REPLY") r,
      s',
    )

unfoldable pub apply_heater_off : AuxState → Applied × AuxState
apply_heater_off s =
    let (r, s') = pmc_aux_set_heater_with_retry false aux_reply_sz s in
    (
      check_reply (codes "AUX_HEATER_OFF_FAILED") (codes "OK HEATER OFF")
          (codes "AUX_HEATER_OFF_BAD_REPLY") r,
      s',
    )

unfoldable pub apply_start : AuxState → Applied × AuxState
apply_start s =
    let (r, s') = apply_ping s in
    elim r [ refused text ↦ (refused text, s') | applied ↦ apply_heater_on s' ]

-- The `switch` on the type of the command.
unfoldable pub apply_type : MsgType → AuxState → Applied × AuxState
apply_type MsgType.start s = apply_start s
apply_type MsgType.stop s = apply_heater_off s
apply_type MsgType.reset s = apply_heater_off s
apply_type MsgType.fault s = apply_heater_off s
apply_type _ s = (applied, s)

unfoldable pub pmc_io_apply_aux_for_command : ℤ → MsgType → AuxState → Applied × AuxState
pmc_io_apply_aux_for_command dev_id type s =
    if not s.cfg.enabled
    then (applied, s)
    else (let (ok, s') = ready_session s in
        if not ok
        then (refused (codes "AUX_SESSION_NOT_READY"), s')
        else if not (eqb_ℤ dev_id (pos 1))
        then (applied, s')
        else apply_type type s')
