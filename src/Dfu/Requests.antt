-- ===== src/Dfu/Requests.antt =====
-- The handlers of the other DFU class requests: DNLOAD, UPLOAD, GETSTATE, CLRSTATUS and ABORT.
use nova_voyager_bootloader.Base.{
  ℕ, ◌+◌, ◌-◌, ◌*◌, false, ◌&&◌, ◌||◌, not, [], ◌∷◌, ltb, ◌==◌, if◌then◌else◌, u16, u32,
}
use nova_voyager_bootloader.Usb.Regs.{UsbPort, usb_ep_rx_valid}
use nova_voyager_bootloader.Usb.Descriptors.{dfu_xfer_size}
use nova_voyager_bootloader.Usb.Ep0.{
  scratch, memory, ep_set_rx_status, ep0_send, ep0_send_zlp, ep0_stall,
}
use nova_voyager_bootloader.Flash.Region.{app_flash_start, app_flash_end}
use nova_voyager_bootloader.Flash.Interface.{FlashIf}
use nova_voyager_bootloader.Dfu.State.{
  idle, dnload_sync, dnload_idle, manifest_sync, upload_idle, error, ok, err_unknown, state_code,
  in_state, Dfu, Device, app_start_address, enter, fail,
}
use nova_voyager_bootloader.Dfu.Status.{put_reply}

-- `dfuse_address_ptr + (uint32_t)(block - 2) * DFU_XFER_SIZE`
abbrev pub block_address : Dfu → ℕ → ℕ
block_address d block = u32 (d.dfuse_address_ptr + (block - 2) * dfu_xfer_size)

-- What an accepted DNLOAD does to the variables.
unfoldable pub start_download : ℕ → ℕ → Dfu → Dfu
start_download block len d = record d {
  context = record d.context {
    state = dnload_sync;
    block_num = block;
    xfer_len = len;
    address = if ltb block 2 then d.context.address else block_address d block;
  };
  dfu_buffer_len = 0;
}

module _ {F : Type 0} (flash_if : FlashIf F) (port : UsbPort) where
  abbrev pub stall : Device F → Device F
  stall v = record v { ep0 = ep0_stall port v.ep0 }

  abbrev pub send_zlp : Device F → Device F
  send_zlp v = record v { ep0 = ep0_send_zlp port v.ep0 }

  unfoldable pub handle_dfu_getstate : Device F → Device F
  handle_dfu_getstate v =
      let s = put_reply (state_code v.dfu.context.state ∷ []) v.ep0 in
      record v { ep0 = ep0_send port (flash_if.byte v.flash) (scratch 0) 1 s }

  unfoldable pub handle_dfu_dnload : ℕ → ℕ → Device F → Device F
  unfolding start_download
  handle_dfu_dnload block len v =
      if len == 0
      then (if in_state v.dfu.context.state dnload_idle
          then send_zlp (record v { dfu = enter manifest_sync v.dfu })
          else stall v)
      else if ltb dfu_xfer_size len
      then stall (record v { dfu = fail err_unknown v.dfu })
      else if block == 1
      then stall v
      else if in_state v.dfu.context.state idle || in_state v.dfu.context.state dnload_idle
      then record v {
        dfu = start_download block len v.dfu;
        ep0 = record v.ep0 { usb = ep_set_rx_status port usb_ep_rx_valid v.ep0.usb };
      }
      else stall v

  unfoldable pub handle_dfu_upload : ℕ → ℕ → Device F → Device F
  handle_dfu_upload block len v =
      if not (in_state v.dfu.context.state idle) && not (in_state v.dfu.context.state upload_idle)
      then stall v
      else if ltb block 2
      then stall v
      else let addr = block_address v.dfu block in
        if ltb addr app_flash_start || ltb app_flash_end addr
        then (let w = send_zlp v in record w { dfu = enter idle w.dfu })
        else let avail = app_flash_end - addr + 1 in
          let read_len = if ltb len avail then len else u16 avail in
          record v {
            dfu = enter upload_idle v.dfu;
            ep0 = ep0_send port (flash_if.byte v.flash) (memory addr) read_len v.ep0;
          }

  unfoldable pub handle_dfu_clrstatus : Device F → Device F
  handle_dfu_clrstatus v = send_zlp (
      if in_state v.dfu.context.state error
      then record v {
        dfu = record v.dfu { context = record v.dfu.context { status = ok; state = idle } };
      }
      else v)

  unfoldable pub handle_dfu_abort : Device F → Device F
  handle_dfu_abort v = send_zlp (record v {
    dfu = record v.dfu {
      context = record v.dfu.context { status = ok; state = idle; address = app_start_address };
      dfuse_address_ptr = app_start_address;
      dfuse_cmd_pending = 0;
      dfuse_cmd_has_arg = false;
    };
  })
