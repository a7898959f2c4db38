-- ===== src/Dfu/Dispatch.antt =====
-- handle_setup, handle_ep0_out, usb_reset and usb_poll of src/usb_dfu.c.
use nova_voyager_bootloader.Base.{
  ℕ, ◌+◌, ◌*◌, ◌%◌, ◌^◌, Bool, true, false, ◌&&◌, none, some, List, [], ◌∷◌, length, get_or, splice,
  bit_and, has_bits, ltb, leb, ◌==◌, if◌then◌else◌, u16,
}
use nova_voyager_bootloader.Usb.Regs.{
  UsbPort, usb_ep_ctr_rx, usb_ep_ctr_tx, usb_ep_setup, usb_ep_rx_valid, usb_istr_ctr,
  usb_istr_reset, usb_istr_ep_id, usb_daddr_ef,
}
use nova_voyager_bootloader.Usb.Pma.{pma_read, pma_get}
use nova_voyager_bootloader.Usb.Descriptors.{dfu_xfer_size, find_descriptor}
use nova_voyager_bootloader.Usb.Ep0.{
  Ep0, null, rodata, scratch, btable_offset, ep0_rx_offset, write_ep0r, ep_set_rx_status, ep0_send,
  ep0_send_zlp, handle_ep0_in,
}
use nova_voyager_bootloader.Usb.Init.{init_btable}
use nova_voyager_bootloader.Flash.Interface.{FlashIf}
use nova_voyager_bootloader.Dfu.State.{
  idle, dnload_sync, ok, in_state, Dfu, Device, app_start_address,
}
use nova_voyager_bootloader.Dfu.Status.{put_reply, handle_dfu_getstatus}
use nova_voyager_bootloader.Dfu.Requests.{
  stall, send_zlp, handle_dfu_getstate, handle_dfu_dnload, handle_dfu_upload, handle_dfu_clrstatus,
  handle_dfu_abort,
}

-- USB_SetupPacket
pub record SetupPacket : Type 0 where
  pub bm_request_type : ℕ
  pub b_request : ℕ
  pub w_value : ℕ
  pub w_index : ℕ
  pub w_length : ℕ

-- The packed structure that the eight bytes of a SETUP packet fill, on a little-endian core.
abbrev pub to_setup : List ℕ → SetupPacket
to_setup bytes =
    let byte = λ (i : ℕ). get_or bytes i 0 in
    record {
      bm_request_type = byte 0;
      b_request = byte 1;
      w_value = byte 2 + byte 3 * 256;
      w_index = byte 4 + byte 5 * 256;
      w_length = byte 6 + byte 7 * 256;
    }

-- bmRequestType & USB_REQ_TYPE_MASK, as the code tells the types apart.
pub data RequestType : Type 0 where
  standard class reserved : RequestType

abbrev pub to_type : ℕ → RequestType
to_type bm =
    if bit_and bm 0x60 == 0x00
    then standard
    else if bit_and bm 0x60 == 0x20
    then class
    else reserved

-- The labels of the `switch` over standard requests, USB_REQ_* of include/usb_regs.h.
pub data StandardRequest : Type 0 where
  get_descriptor set_address set_configuration get_configuration get_status : StandardRequest
  other : StandardRequest

abbrev pub to_standard : ℕ → StandardRequest
to_standard b =
    if b == 0x06
    then get_descriptor
    else if b == 0x05
    then set_address
    else if b == 0x09
    then set_configuration
    else if b == 0x08
    then get_configuration
    else if b == 0x00
    then get_status
    else other

-- The labels of the `switch` over class requests, DFU_* of include/usb_dfu.h.
pub data DfuRequest : Type 0 where
  getstatus getstate dnload upload clrstatus abort unknown : DfuRequest

abbrev pub to_dfu : ℕ → DfuRequest
to_dfu b =
    if b == 0x03
    then getstatus
    else if b == 0x05
    then getstate
    else if b == 0x01
    then dnload
    else if b == 0x02
    then upload
    else if b == 0x04
    then clrstatus
    else if b == 0x06
    then abort
    else unknown

-- The operand of a DfuSe command, little-endian; the byte fields are disjoint.
abbrev pub command_arg : List ℕ → ℕ
command_arg buffer =
    get_or buffer 1 0
    + get_or buffer 2 0 * 2 ^ 8
    + get_or buffer 3 0 * 2 ^ 16
    + get_or buffer 4 0 * 2 ^ 24

-- The decoding of block 0 in handle_ep0_out.
pub decode_command : Dfu → Dfu
decode_command d =
    let has_arg = leb 5 d.dfu_buffer_len in
    record d {
      dfuse_cmd_pending = get_or d.dfu_buffer 0 0;
      dfuse_cmd_has_arg = has_arg;
      dfuse_cmd_arg = if has_arg then command_arg d.dfu_buffer else d.dfuse_cmd_arg;
      dfu_buffer_len = 0;
    }

-- The append to dfu_buffer in handle_ep0_out, with its guard.
pub append_packet : List ℕ → Dfu → Dfu
append_packet packet d =
    let count = length packet in
    if leb (d.dfu_buffer_len + count) dfu_xfer_size
    then record d {
      dfu_buffer = splice d.dfu_buffer d.dfu_buffer_len packet;
      dfu_buffer_len = u16 (d.dfu_buffer_len + count);
    }
    else d

-- The part of handle_ep0_out that handles data: the variables after it, and whether the transfer
-- is complete, so that it is acknowledged.
unfoldable pub take_packet : List ℕ → Dfu → Dfu × Bool
unfolding append_packet decode_command
take_packet packet d0 =
    let d = append_packet packet d0 in
    if leb d.context.xfer_len d.dfu_buffer_len
    then (if d.context.block_num == 0 && leb 1 d.dfu_buffer_len then decode_command d else d, true)
    else (d, false)

-- The variables of usb_reset.
abbrev pub reset_dfu : Dfu → Dfu
reset_dfu d = record d {
  context = record d.context { state = idle; status = ok; address = app_start_address };
  dfuse_address_ptr = app_start_address;
  dfuse_cmd_pending = 0;
  dfuse_cmd_has_arg = false;
  dfu_buffer_len = 0;
}

module _ {F : Type 0} (flash_if : FlashIf F) (port : UsbPort) where
  unfoldable pub handle_get_descriptor : ℕ → ℕ → Device F → Device F
  handle_get_descriptor value len v = elim (find_descriptor value) [
    | none ↦ stall flash_if port v
    | some desc ↦
        let desc_len = if ltb len (length desc) then len else length desc in
        record v { ep0 = ep0_send port (flash_if.byte v.flash) (rodata desc 0) desc_len v.ep0 }
  ]

  -- `ep0_reply[..] = bytes; ep0_send(ep0_reply, n)`
  abbrev pub reply : List ℕ → Device F → Device F
  reply bytes v = record v {
    ep0 = ep0_send port (flash_if.byte v.flash) (scratch 0) (length bytes) (put_reply bytes v.ep0);
  }

  -- The `switch` over standard requests.
  unfoldable pub standard_request : StandardRequest → SetupPacket → Device F → Device F
  standard_request get_descriptor p v = handle_get_descriptor p.w_value p.w_length v
  standard_request set_address p v =
      send_zlp flash_if port (record v { ep0 = record v.ep0 { pending_address = p.w_value % 128 } })
  standard_request set_configuration p v = send_zlp flash_if port v
  standard_request get_configuration p v = reply (1 ∷ []) v
  standard_request get_status p v = reply (0 ∷ 0 ∷ []) v
  standard_request other p v = stall flash_if port v

  -- The `switch` over DFU class requests.
  unfoldable pub class_request : DfuRequest → SetupPacket → Device F → Device F
  class_request getstatus p v = handle_dfu_getstatus flash_if port v
  class_request getstate p v = handle_dfu_getstate flash_if port v
  class_request dnload p v = handle_dfu_dnload flash_if port p.w_value p.w_length v
  class_request upload p v = handle_dfu_upload flash_if port p.w_value p.w_length v
  class_request clrstatus p v = handle_dfu_clrstatus flash_if port v
  class_request abort p v = handle_dfu_abort flash_if port v
  class_request unknown p v = stall flash_if port v

  -- handle_setup up to its `if`: the EP0 state once the packet is read.
  unfoldable pub begin_setup : SetupPacket → Ep0 → Ep0
  begin_setup p s = record s {
    usb = write_ep0r port 0x0280 s.usb;
    ep0_tx_ptr = null;
    ep0_tx_remaining = 0;
    ep0_tx_need_zlp = false;
    ep0_req_len = p.w_length;
  }

  -- The `if` chain of handle_setup over the type bits.
  unfoldable pub typed_request : RequestType → SetupPacket → Device F → Device F
  typed_request standard p v = standard_request (to_standard p.b_request) p v
  typed_request class p v = class_request (to_dfu p.b_request) p v
  typed_request reserved p v = stall flash_if port v

  unfoldable pub handle_request : SetupPacket → Device F → Device F
  handle_request p v =
      typed_request (to_type p.bm_request_type) p (record v { ep0 = begin_setup p v.ep0 })

  unfoldable pub handle_setup : Device F → Device F
  handle_setup v = handle_request (to_setup (pma_read ep0_rx_offset 8 v.ep0.usb.pma)) v

  -- The `if` over the data stage in handle_ep0_out, with its test.
  unfoldable pub receive : Bool → List ℕ → Device F → Device F
  receive true packet v =
      let (d, acked) = take_packet packet v.dfu in
      record v { dfu = d; ep0 = if acked then ep0_send_zlp port v.ep0 else v.ep0 }
  receive false packet v = v

  unfoldable pub handle_ep0_out : Device F → Device F
  unfolding receive
  handle_ep0_out v =
      let count = bit_and (pma_get (btable_offset + 6) v.ep0.usb.pma) 0x3FF in
      let packet = pma_read ep0_rx_offset count v.ep0.usb.pma in
      let w = receive (in_state v.dfu.context.state dnload_sync && ltb 0 count) packet v in
      record w {
        ep0 = record w.ep0 {
          usb = ep_set_rx_status port usb_ep_rx_valid (write_ep0r port 0x0280 w.ep0.usb);
        };
      }

  unfoldable pub usb_reset : Device F → Device F
  usb_reset v =
      let r = record v.ep0.usb { btable = btable_offset; pma = init_btable v.ep0.usb.pma } in
      record v {
        dfu = reset_dfu v.dfu;
        ep0 = record v.ep0 {
          usb = record (write_ep0r port 0xB2A0 r) { daddr = usb_daddr_ef };
          ep0_tx_ptr = null;
          ep0_tx_remaining = 0;
          ep0_tx_need_zlp = false;
          ep0_req_len = 0;
        };
      }

  -- `if (epr & USB_EP_CTR_RX)` and the test on USB_EP_SETUP below it.
  unfoldable pub serve_rx : Bool → Bool → Device F → Device F
  serve_rx true true v = handle_setup v
  serve_rx true false v = handle_ep0_out v
  serve_rx false setup v = v

  -- `if (epr & USB_EP_CTR_TX)`
  unfoldable pub serve_tx : Bool → Device F → Device F
  serve_tx true v = record v { ep0 = handle_ep0_in port (flash_if.byte v.flash) v.ep0 }
  serve_tx false v = v

  -- The branch of usb_poll for a completed transfer on endpoint 0, with the register value read.
  unfoldable pub serve_ep0 : ℕ → Device F → Device F
  unfolding serve_rx serve_tx
  serve_ep0 epr v =
      serve_tx (has_bits epr usb_ep_ctr_tx)
        (serve_rx (has_bits epr usb_ep_ctr_rx) (has_bits epr usb_ep_setup) v)

  -- USB_ISTR = ~USB_ISTR_RESET; usb_reset()
  unfoldable pub poll_reset : Device F → Device F
  unfolding usb_reset
  poll_reset v =
      let istr = port.istr_write v.ep0.usb.istr 0xFBFF in
      usb_reset (record v { ep0 = record v.ep0 { usb = record v.ep0.usb { istr = istr } } })

  -- usb_poll, with its three tests.
  unfoldable pub poll_by : Bool → Bool → Bool → Device F → Device F
  poll_by true ctr on_ep0 v = poll_reset v
  poll_by false true true v = serve_ep0 v.ep0.usb.ep0r v
  poll_by false true false v = v
  poll_by false false on_ep0 v = v

  unfoldable pub usb_poll : Device F → Device F
  unfolding poll_by
  usb_poll v =
      let istr = v.ep0.usb.istr in
      poll_by (has_bits istr usb_istr_reset) (has_bits istr usb_istr_ctr)
        (bit_and istr usb_istr_ep_id == 0) v
