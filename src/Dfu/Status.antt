-- ===== src/Dfu/Status.antt =====
-- handle_dfu_getstatus: the transitions that a status request drives, and the execution of pending
-- work on the flash.
use nova_voyager_bootloader.Base.{
  ℕ, ◌+◌, true, false, List, [], ◌∷◌, take, splice, ltb, ◌==◌, if◌then◌else◌, u32,
}
use nova_voyager_bootloader.Usb.Regs.{UsbPort}
use nova_voyager_bootloader.Usb.Ep0.{Ep0, scratch, ep0_send}
use nova_voyager_bootloader.Flash.Interface.{FlashIf, done, failed}
use nova_voyager_bootloader.Dfu.State.{
  DfuState, dnload_sync, dnbusy, dnload_idle, manifest_sync, manifest_wait_reset, err_write,
  err_erase, err_address, err_vendor, state_code, status_code, Dfu, Device, dfuse_cmd_set_address,
  dfuse_cmd_erase_page, enter, fail,
}

-- ep0_reply[0..] = bytes
abbrev pub put_reply : List ℕ → Ep0 → Ep0
put_reply bytes s = record s { ep0_reply = splice s.ep0_reply 0 bytes }

module _ {F : Type 0} (flash_if : FlashIf F) where
  -- The SET_ADDRESS branch.
  pub run_set_address : Dfu → F → Dfu × F
  run_set_address d f =
      if d.dfuse_cmd_has_arg
      then (enter dnload_idle (record d { dfuse_address_ptr = d.dfuse_cmd_arg }), f)
      else (fail err_address d, f)

  -- The ERASE_PAGE branch: without an operand the flash is not called.
  pub run_erase : Dfu → F → Dfu × F
  run_erase d f = elim d.dfuse_cmd_has_arg [
    | true ↦
        let (r, f') = flash_if.flash_erase_page d.dfuse_cmd_arg f in
        (elim r [ done ↦ enter dnload_idle d | failed ↦ fail err_erase d ], f')
    | false ↦ (fail err_erase d, f)
  ]

  -- `if (dfuse_cmd_pending)`, with the command that was pending.
  pub run_command : ℕ → Dfu → F → Dfu × F
  unfolding run_set_address run_erase
  run_command cmd d f =
      if cmd == dfuse_cmd_set_address
      then run_set_address d f
      else if cmd == dfuse_cmd_erase_page
      then run_erase d f
      else (fail err_vendor d, f)

  -- `else if (dfu_buffer_len > 0)`
  pub run_write : Dfu → F → Dfu × F
  run_write d f =
      let (r, f') = flash_if.flash_write d.context.address (take d.dfu_buffer_len d.dfu_buffer) f in
      let written = record d {
        context = record d.context { address = u32 (d.context.address + d.dfu_buffer_len) };
        dfu_buffer_len = 0;
      } in
      (elim r [ done ↦ enter dnload_idle written | failed ↦ fail err_write d ], f')

  -- The branch for DFU_STATE_DNBUSY.
  pub execute_pending : Dfu → F → Dfu × F
  execute_pending d f =
      if ltb 0 d.dfuse_cmd_pending
      then run_command d.dfuse_cmd_pending (record d { dfuse_cmd_pending = 0 }) f
      else if ltb 0 d.dfu_buffer_len
      then run_write d f
      else (enter dnload_idle d, f)

  -- The `if` chain on dfu.state, with the poll timeout.
  unfoldable pub getstatus_transition : DfuState → Dfu → F → ℕ × Dfu × F
  unfolding execute_pending run_command run_write
  getstatus_transition dnload_sync d f = (100, enter dnbusy d, f)
  getstatus_transition dnbusy d f = let (d', f') = execute_pending d f in (0, d', f')
  getstatus_transition manifest_sync d f = (0, enter manifest_wait_reset d, f)
  getstatus_transition _ d f = (0, d, f)

  module _ (port : UsbPort) where
    unfoldable pub handle_dfu_getstatus : Device F → Device F
    handle_dfu_getstatus v =
        let (poll_timeout, d, f) = getstatus_transition v.dfu.context.state v.dfu v.flash in
        let reply =
          status_code d.context.status
          ∷ poll_timeout
          ∷ 0
          ∷ 0
          ∷ state_code d.context.state
          ∷ 0
          ∷ [] in
        record {
          dfu = d;
          ep0 = ep0_send port (flash_if.byte f) (scratch 0) 6 (put_reply reply v.ep0);
          flash = f;
        }
