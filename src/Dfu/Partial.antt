-- ===== src/Dfu/Partial.antt =====
-- A command block of which only the first packet arrives: handle_ep0_out, then
-- handle_dfu_getstatus.
use nova_voyager_bootloader.Base.{
  ℕ, ◌≤◌, ◌<◌, ◌≡◌, refl, ap, ◌∙◌, List, length, take, take-splice, length-splice, arith,
}
use nova_voyager_bootloader.Usb.Regs.{UsbRegs, UsbPort}
use nova_voyager_bootloader.Flash.Interface.{FlashIf, done}
use nova_voyager_bootloader.Dfu.State.{dnload_idle, Dfu, Device}
use nova_voyager_bootloader.Dfu.Status.{handle_dfu_getstatus}
use nova_voyager_bootloader.Dfu.Dispatch.{take_packet, handle_ep0_out}
use nova_voyager_bootloader.Dfu.Download.{getstatus_twice_write}
use nova_voyager_bootloader.Dfu.Transfer.{IsDelivered, out-dfu, statuses}
use nova_voyager_bootloader.Dfu.Commands.{AwaitsCommand}

-- The packet stays in the buffer, and no command is decoded.
kept :
    (packet : List ℕ) (len : ℕ) (d : Dfu)
    → AwaitsCommand len d
    → length packet < len
    → len ≤ 1024
    → let e = (take_packet packet d).0 in
      (e.context ≡ d.context)
      × (e.dfuse_cmd_pending ≡ d.dfuse_cmd_pending)
      × (e.dfuse_address_ptr ≡ d.dfuse_address_ptr)
      × (e.dfu_buffer_len ≡ length packet)
      × (take e.dfu_buffer_len e.dfu_buffer ≡ packet)
      × (length e.dfu_buffer ≡ 1024)
unfolding take_packet
kept packet len d w n m = ground (
  arith,
  w.size,
  w.announced,
  w.block,
  w.empty,
  take-splice d.dfu_buffer d.dfu_buffer_len packet,
  length-splice d.dfu_buffer d.dfu_buffer_len packet,
)

module _ {F : Type 0} (flash_if : FlashIf F) (port : UsbPort) where
  -- Of block 0, of which more bytes are announced, the device has received one packet, and no
  -- command is pending. Two status requests write the packet, the first bytes of a command, to the
  -- flash at the address that the last data block or the reset has left.
  pub partial_command :
      (v : Device F) (packet : List ℕ) (len : ℕ) (r : UsbRegs)
      → AwaitsCommand len v.dfu
      → v.dfu.dfuse_cmd_pending ≡ 0
      → IsDelivered packet r
      → 0 < length packet
      → length packet < len
      → len ≤ 1024
      → let filled = handle_ep0_out flash_if port (record v { ep0 = record v.ep0 { usb = r } }) in
        let busy = handle_dfu_getstatus flash_if port filled in
        let end = handle_dfu_getstatus flash_if port busy in
        let (outcome, f) = flash_if.flash_write v.dfu.context.address packet v.flash in
        (busy.flash ≡ v.flash)
        × (end.flash ≡ f)
        × (outcome ≡ done → end.dfu.context.state ≡ dnload_idle)
  partial_command v packet len r w p h n short fits =
      let o = out-dfu flash_if port packet r v h n w.state in
      let e = kept packet len v.dfu w short fits in
      let s =
        statuses flash_if port _ (take_packet packet v.dfu).0 v.flash v.dfu.context.address packet _
          _ o.0 o.1
          (getstatus_twice_write flash_if (take_packet packet v.dfu).0 v.flash _ packet _ _
            (ap (λ k. k.state) e.0 ∙ w.state) (e.1 ∙ p) (omega (arith, e.3))
            (ap (λ k. k.address) e.0) e.4 refl refl e.5) in
      (s.1, s.2, λ k. (s.3 k).0)
