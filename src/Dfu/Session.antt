-- ===== src/Dfu/Session.antt =====
-- dfu_init, the variables at reset, and a session: the host may set the peripheral to anything
-- between two polls.
use nova_voyager_bootloader.Base.{false, replicate}
use nova_voyager_bootloader.Usb.Regs.{UsbRegs, UsbPort}
use nova_voyager_bootloader.Usb.Ep0.{null}
use nova_voyager_bootloader.Usb.Init.{Board, init_board, init_peripheral}
use nova_voyager_bootloader.Flash.Interface.{FlashIf}
use nova_voyager_bootloader.Dfu.State.{idle, app_idle, ok, Dfu, Device, app_start_address}
use nova_voyager_bootloader.Dfu.Dispatch.{usb_poll}

-- The variables in .bss, which Reset_Handler clears.
abbrev pub zero_dfu : Dfu
zero_dfu = record {
  context = record {
    state = app_idle;
    status = ok;
    address = 0;
    block_num = 0;
    xfer_len = 0;
    manifest_state = 0;
  };
  dfu_buffer = replicate 1024 0;
  dfu_buffer_len = 0;
  dfuse_cmd_pending = 0;
  dfuse_cmd_has_arg = false;
  dfuse_cmd_arg = 0;
  dfuse_address_ptr = 0;
}

-- The DFU variables of dfu_init.
unfoldable pub init_dfu : Dfu → Dfu
init_dfu d = record d {
  context = record d.context { state = idle; status = ok; address = app_start_address };
  dfu_buffer_len = 0;
  dfuse_cmd_pending = 0;
  dfuse_cmd_has_arg = false;
  dfuse_cmd_arg = 0;
  dfuse_address_ptr = app_start_address;
}

module _ {F : Type 0} (flash_if : FlashIf F) (port : UsbPort) where
  unfoldable pub dfu_init : Board → Device F → Board × Device F
  unfolding init_dfu
  dfu_init b v = (
    init_board b,
    record v {
      dfu = init_dfu v.dfu;
      ep0 = record v.ep0 {
        pending_address = 0;
        ep0_tx_ptr = null;
        ep0_tx_remaining = 0;
        ep0_tx_need_zlp = false;
        ep0_req_len = 0;
        usb = init_peripheral port v.ep0.usb;
      };
    },
  )

  -- A step of a session: a poll, or anything that the bus and the host do to the peripheral's
  -- registers and packet memory.
  pub data Step : Device F → Device F → Type 0 where
    poll : (v : Device F) → Step v (usb_poll flash_if port v)
    host : (v : Device F) (r : UsbRegs) → Step v (record v { ep0 = record v.ep0 { usb = r } })

  pub data Reach (v : Device F) : Device F → Type 0 where
    here : Reach v v
    next : {w u : Device F} → Reach v w → Step w u → Reach v u
