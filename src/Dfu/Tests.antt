-- ===== src/Dfu/Tests.antt =====
-- The DFU half on concrete inputs.
use nova_voyager_bootloader.Base.{◌≡◌, inl, refl, true, [], ◌∷◌, ◌==◌, if◌then◌else◌, arith}
use nova_voyager_bootloader.Usb.Regs.{UsbRegs}
use nova_voyager_bootloader.Usb.Pma.{pma_read, read_halfwords}
use nova_voyager_bootloader.Usb.Init.{Board}
use nova_voyager_bootloader.Usb.Sim.{silicon}
use nova_voyager_bootloader.Flash.Interface.{done, failed}
use nova_voyager_bootloader.Flash.Sim.{Sim, sim, sim-IsController}
use nova_voyager_bootloader.Dfu.Dispatch.{handle_request}
use nova_voyager_bootloader.Dfu.State.{
  idle, dnload_sync, dnbusy, dnload_idle, error, err_write, Device,
}
use nova_voyager_bootloader.Dfu.Status.{handle_dfu_getstatus}
use nova_voyager_bootloader.Dfu.Requests.{handle_dfu_dnload}
use nova_voyager_bootloader.Dfu.Dispatch.{handle_ep0_out, usb_poll}
use nova_voyager_bootloader.Dfu.Address.{
  address_packet, device_packet, set_address_lem, stale_address,
}
use nova_voyager_bootloader.Usb.Ep0.{handle_ep0_in}
use nova_voyager_bootloader.Dfu.Dispatch.{usb_reset}
use nova_voyager_bootloader.Base.{bit_or, ◌%◌}
use nova_voyager_bootloader.Dfu.Edges.{IsStep, usb_poll-IsStep}
use nova_voyager_bootloader.Dfu.Invariant.{IsValid, usb_poll-IsValid}
use nova_voyager_bootloader.Dfu.Session.{dfu_init, poll, host, Reach, here, next}
use nova_voyager_bootloader.Dfu.Confined.{zero-IsValid, bootloader_untouched}
use nova_voyager_bootloader.Dfu.Transfer.{IsReady, receive_all, download_block}
use nova_voyager_bootloader.Dfu.Stale.{cleared, stale_command}
use nova_voyager_bootloader.Dfu.Partial.{partial_command}
use nova_voyager_bootloader.Dfu.Commands.{Commanded, command_block}
use nova_voyager_bootloader.Dfu.TestData.{flash, received, blank, ready}

-- The packet of the DNLOAD request for block 0 with five bytes: 21 01 00 00 00 00 05 00.
abbrev dnload_5 : UsbRegs
dnload_5 = received 0x8A20 8 0x0121 0 0 5

abbrev board : Board
board = record {
  rcc_apb2enr = 0;
  rcc_apb1enr = 0;
  gpioa_crl = 0x44444444;
  gpioa_crh = 0x44444444;
  gpioa_odr = 0;
  gpioc_crh = 0x44444444;
  gpioc_odr = 0;
}

abbrev started : Device Sim
started = (dfu_init flash silicon board blank).1

abbrev asked : Device Sim
asked = record started { ep0 = record started.ep0 { usb = dnload_5 } }

session : Reach flash silicon started (usb_poll flash silicon asked)
session = next (next here (host started dnload_5)) (poll asked)

bootloader_untouched_example : (usb_poll flash silicon asked).flash.bytes 0x08000000 ≡ 0xFF
bootloader_untouched_example =
    bootloader_untouched sim sim-IsController silicon board blank 0x08000000 refl refl session
      (λ h. omega arith)

usb_poll-IsValid_example : IsValid (usb_poll flash silicon asked).dfu
unfolding dfu_init
usb_poll-IsValid_example = usb_poll-IsValid flash silicon asked zero-IsValid

-- Four bytes for block 3.
download_block_example :
    let filled =
      receive_all flash silicon
        ((1 ∷ 2 ∷ 3 ∷ 4 ∷ [], received 0xB220 4 0x0201 0x0403 0 0) ∷ [])
        (handle_dfu_dnload flash silicon 3 4 ready) in
    let busy = handle_dfu_getstatus flash silicon filled in
    let end = handle_dfu_getstatus flash silicon busy in
    let (r, f) = flash.flash_write 0x08003400 (1 ∷ 2 ∷ 3 ∷ 4 ∷ []) ready.flash in
    (busy.dfu.context.state ≡ dnbusy)
    × (busy.flash ≡ ready.flash)
    × (end.flash ≡ f)
    × (r ≡ done → IsReady 0x08003000 end.dfu)
    × (r ≡ failed → (end.dfu.context.state ≡ error) × (end.dfu.context.status ≡ err_write))
unfolding pma_read read_halfwords
download_block_example =
    download_block flash silicon ready 3
      ((1 ∷ 2 ∷ 3 ∷ 4 ∷ [], received 0xB220 4 0x0201 0x0403 0 0) ∷ [])
      ((refl, refl), omega arith, tt) refl (inl refl) refl (omega arith) (omega arith) (omega arith)

-- Block 0 is announced with five bytes.
abbrev awaiting : Device Sim
awaiting = record ready {
  dfu = record ready.dfu {
    context = record ready.dfu.context { state = dnload_sync; xfer_len = 5 };
  };
}

-- Erase of the page at 0x08004800.
command_block_example :
    let filled = handle_ep0_out flash silicon (record awaiting {
      ep0 = record awaiting.ep0 { usb = received 0xB220 5 0x0041 0x0048 0x0008 0 };
    }) in
    let busy = handle_dfu_getstatus flash silicon filled in
    let end = handle_dfu_getstatus flash silicon busy in
    (busy.dfu.context.state ≡ dnbusy)
    × (busy.flash ≡ awaiting.flash)
    × Commanded flash 0x41 0x08004800 0x08003000 awaiting.flash end.dfu end.flash
unfolding pma_read read_halfwords
command_block_example =
    command_block flash silicon 0x41 0x00 0x48 0x00 0x08 (received 0xB220 5 0x0041 0x0048 0x0008 0)
      awaiting (record { size = refl; state = refl; block = refl; announced = refl; empty = refl })
      (refl, refl) (omega arith)

-- The erase of the page at 0x08004800 is decoded and not yet executed.
abbrev erase_pending : Device Sim
erase_pending = record awaiting {
  dfu = record awaiting.dfu {
    context = record awaiting.dfu.context { state = dnbusy };
    dfuse_cmd_pending = 0x41;
    dfuse_cmd_has_arg = true;
    dfuse_cmd_arg = 0x08004800;
  };
}

stale_command_example :
    let filled =
      receive_all flash silicon
        ((1 ∷ 2 ∷ 3 ∷ 4 ∷ [], received 0xB220 4 0x0201 0x0403 0 0) ∷ [])
        (handle_dfu_dnload flash silicon 2 4 (cleared flash silicon 0 2000 erase_pending)) in
    let end = handle_dfu_getstatus flash silicon (handle_dfu_getstatus flash silicon filled) in
    Commanded flash 0x41 0x08004800 0x08003000 erase_pending.flash end.dfu end.flash
unfolding pma_read read_halfwords
stale_command_example =
    stale_command flash silicon erase_pending 0x41 0 2000 2
      ((1 ∷ 2 ∷ 3 ∷ 4 ∷ [], received 0xB220 4 0x0201 0x0403 0 0) ∷ [])
      ((refl, refl), omega arith, tt) refl refl (omega arith) refl (omega arith) (omega arith)
      (omega arith) (omega arith)

-- One byte of five.
partial_command_example :
    let filled =
      handle_ep0_out flash silicon
        (record awaiting { ep0 = record awaiting.ep0 { usb = received 0xB220 1 0x0041 0 0 0 } }) in
    let busy = handle_dfu_getstatus flash silicon filled in
    let end = handle_dfu_getstatus flash silicon busy in
    let (outcome, f) = flash.flash_write 0x08003000 (0x41 ∷ []) awaiting.flash in
    (busy.flash ≡ awaiting.flash)
    × (end.flash ≡ f)
    × (outcome ≡ done → end.dfu.context.state ≡ dnload_idle)
unfolding pma_read read_halfwords
partial_command_example =
    partial_command flash silicon awaiting (0x41 ∷ []) 5 (received 0xB220 1 0x0041 0 0 0)
      (record { size = refl; state = refl; block = refl; announced = refl; empty = refl }) refl
      (refl, refl) (omega arith) (omega arith) (omega arith)

usb_poll-IsStep_example :
    let w = usb_poll flash silicon asked in IsStep idle asked.flash w.dfu w.flash
unfolding dfu_init
usb_poll-IsStep_example = usb_poll-IsStep flash silicon asked

set_address_lem_example :
    let w = handle_request flash silicon (address_packet 5) ready in
    let u = handle_ep0_in silicon (flash.byte w.flash) w.ep0 in
    (w.ep0.usb.daddr ≡ 0x80)
    × (u.usb.daddr ≡ (if (5 % 128) == 0 then 0x80 else bit_or 0x80 (5 % 128)))
    × (u.pending_address ≡ 0)
set_address_lem_example = set_address_lem flash silicon 5 ready

stale_address_example :
    let w = handle_request flash silicon (address_packet 5) ready in
    let r = usb_reset flash silicon w in
    let s = handle_request flash silicon device_packet r in
    let u = handle_ep0_in silicon (flash.byte s.flash) s.ep0 in
    (r.ep0.usb.daddr ≡ 0x80) × (s.ep0.usb.daddr ≡ 0x80) × (u.usb.daddr ≡ 0x85)
stale_address_example = stale_address flash silicon 5 ready (omega arith)
