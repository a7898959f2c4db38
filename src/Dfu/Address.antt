-- ===== src/Dfu/Address.antt =====
-- SET_ADDRESS, from its request to USB_DADDR.
use nova_voyager_bootloader.Base.{ℕ, ◌%◌, ◌≡◌, ◌≢◌, bit_or, ◌==◌, if◌then◌else◌, arith}
use nova_voyager_bootloader.Usb.Regs.{UsbPort, usb_daddr_ef}
use nova_voyager_bootloader.Usb.Descriptors.{find_descriptor}
use nova_voyager_bootloader.Usb.Ep0.{ep0_send, ep0_tx_chunk, ep0_send_zlp, handle_ep0_in}
use nova_voyager_bootloader.Flash.Interface.{FlashIf}
use nova_voyager_bootloader.Dfu.State.{Device}
use nova_voyager_bootloader.Dfu.Dispatch.{
  SetupPacket, handle_get_descriptor, standard_request, begin_setup, typed_request, handle_request,
  usb_reset,
}

-- SETUP packets: SET_ADDRESS, and GET_DESCRIPTOR for 64 bytes of the device descriptor.
abbrev pub address_packet : ℕ → SetupPacket
address_packet address = record {
  bm_request_type = 0x00;
  b_request = 0x05;
  w_value = address;
  w_index = 0;
  w_length = 0;
}

abbrev pub device_packet : SetupPacket
device_packet = record {
  bm_request_type = 0x80;
  b_request = 0x06;
  w_value = 0x0100;
  w_index = 0;
  w_length = 64;
}

module _ {F : Type 0} (flash_if : FlashIf F) (port : UsbPort) where
  -- A SET_ADDRESS leaves the address as it is, so that its status stage still uses the old one.
  -- Once that stage is complete, the device has the new address, unless that is 0, and none is
  -- pending.
  pub set_address_lem :
      (address : ℕ) (v : Device F)
      → let w = handle_request flash_if port (address_packet address) v in
        let u = handle_ep0_in port (flash_if.byte w.flash) w.ep0 in
        (w.ep0.usb.daddr ≡ v.ep0.usb.daddr)
        × (u.usb.daddr ≡ (
            if (address % 128) == 0 then v.ep0.usb.daddr else bit_or usb_daddr_ef (address % 128)))
        × (u.pending_address ≡ 0)
  unfolding handle_request typed_request standard_request begin_setup ep0_send_zlp handle_ep0_in
  set_address_lem address v = ground arith

  -- A SET_ADDRESS, other than of 0, whose status stage a bus reset cuts off: the device answers at
  -- address 0 then, but keeps the address pending. When the host next reads the device descriptor,
  -- as it does at address 0, the device takes the old address as soon as the data is sent.
  pub stale_address :
      (address : ℕ) (v : Device F)
      → address % 128 ≢ 0
      → let w = handle_request flash_if port (address_packet address) v in
        let r = usb_reset flash_if port w in
        let s = handle_request flash_if port device_packet r in
        let u = handle_ep0_in port (flash_if.byte s.flash) s.ep0 in
        (r.ep0.usb.daddr ≡ usb_daddr_ef)
        × (s.ep0.usb.daddr ≡ usb_daddr_ef)
        × (u.usb.daddr ≡ bit_or usb_daddr_ef (address % 128))
  unfolding handle_request typed_request standard_request begin_setup ep0_send_zlp handle_ep0_in
      usb_reset handle_get_descriptor find_descriptor ep0_send ep0_tx_chunk
  stale_address address v h = ground arith
