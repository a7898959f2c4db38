-- ===== src/Usb/Ep0.antt =====
-- The control endpoint of src/usb_dfu.c: endpoint status, the in-flight IN transfer, zero-length
-- packets and stalls.
pub mod Status
pub mod Chunk
pub mod DataStage
use nova_voyager_bootloader.Base.{
  ℕ, zero, suc, ◌+◌, ◌-◌, ◌*◌, ◌%◌, Bool, true, false, ◌&&◌, List, [], ◌∷◌, get_or, tabulate,
  bit_and, bit_or, bit_xor, ltb, ◌==◌, if◌then◌else◌, u32, update,
}
use nova_voyager_bootloader.Usb.Regs.{
  UsbRegs, UsbPort, usb_ep_kept, usb_ep_stat_tx, usb_ep_stat_rx, usb_ep_rx_valid, usb_ep_tx_valid,
  usb_ep_tx_stall, usb_daddr_ef,
}
use nova_voyager_bootloader.Usb.Pma.{pma_write, pma_put}
use nova_voyager_bootloader.Usb.Descriptors.{ep0_max_size}

abbrev pub btable_offset : ℕ
btable_offset = 0x00

abbrev pub ep0_tx_offset : ℕ
ep0_tx_offset = 0x40

abbrev pub ep0_rx_offset : ℕ
ep0_rx_offset = 0x80

-- `const uint8_t *`: null, a place in a constant array, a place in `ep0_reply`, or an address.
pub data Ptr : Type 0 where
  null : Ptr
  rodata : List ℕ → ℕ → Ptr
  scratch : ℕ → Ptr
  memory : ℕ → Ptr

pub record Ep0 : Type 0 where
  pub usb : UsbRegs
  pub ep0_tx_ptr : Ptr
  pub ep0_tx_remaining : ℕ  -- uint16_t
  pub ep0_req_len : ℕ  -- uint16_t
  pub ep0_tx_need_zlp : Bool
  pub ep0_reply : List ℕ  -- uint8_t[8]
  pub pending_address : ℕ  -- uint8_t

abbrev pub advance : Ptr → ℕ → Ptr
advance null n = null
advance (rodata bytes at) n = rodata bytes (at + n)
advance (scratch at) n = scratch (at + n)
advance (memory addr) n = memory (u32 (addr + n))

-- `p[i]`; `mem` is the memory-mapped flash. Reading past an array gives 0 here.
abbrev pub deref : (ℕ → ℕ) → List ℕ → Ptr → ℕ → ℕ
deref mem reply null i = 0
deref mem reply (rodata bytes at) i = get_or bytes (at + i) 0
deref mem reply (scratch at) i = get_or reply (at + i) 0
deref mem reply (memory addr) i = mem (u32 (addr + i))

module _ (port : UsbPort) where
  -- USB_EP0R = v
  pub write_ep0r : ℕ → UsbRegs → UsbRegs
  write_ep0r v r = record r { ep0r = port.ep_write r.ep0r v }

  -- The code only names endpoint 0.
  pub ep_set_tx_status : ℕ → UsbRegs → UsbRegs
  unfolding write_ep0r
  ep_set_tx_status status r =
      let val = r.ep0r in
      write_ep0r (bit_or (bit_and val usb_ep_kept) (bit_and (bit_xor val status) usb_ep_stat_tx)) r

  pub ep_set_rx_status : ℕ → UsbRegs → UsbRegs
  unfolding write_ep0r
  ep_set_rx_status status r =
      let val = r.ep0r in
      write_ep0r (bit_or (bit_and val usb_ep_kept) (bit_and (bit_xor val status) usb_ep_stat_rx)) r

  -- PMA_WRITE(BTABLE_OFFSET + 2, count)
  abbrev pub put_count_tx : ℕ → UsbRegs → UsbRegs
  put_count_tx count r = record r { pma = pma_put (btable_offset + 2) count r.pma }

  module _ (mem : ℕ → ℕ) where
    unfoldable pub ep0_tx_chunk : Ep0 → Ep0
    unfolding ep_set_tx_status
    ep0_tx_chunk s =
        let chunk =
          if ltb ep0_max_size s.ep0_tx_remaining then ep0_max_size else s.ep0_tx_remaining in
        let bytes = tabulate chunk (deref mem s.ep0_reply s.ep0_tx_ptr) in
        let r = record s.usb { pma = pma_write ep0_tx_offset bytes s.usb.pma } in
        let r' = put_count_tx chunk r in
        record s {
          usb = ep_set_tx_status usb_ep_tx_valid r';
          ep0_tx_ptr = advance s.ep0_tx_ptr chunk;
          ep0_tx_remaining = s.ep0_tx_remaining - chunk;
        }

    unfoldable pub ep0_send : Ptr → ℕ → Ep0 → Ep0
    unfolding ep_set_rx_status
    ep0_send ptr len s =
        let len' = if ltb s.ep0_req_len len then s.ep0_req_len else len in
        let s' = record s {
          ep0_tx_ptr = ptr;
          ep0_tx_remaining = len';
          ep0_tx_need_zlp = ltb 0 len' && (ltb len' s.ep0_req_len && ((len' % ep0_max_size) == 0));
        } in
        let s'' = ep0_tx_chunk s' in record s'' { usb = ep_set_rx_status usb_ep_rx_valid s''.usb }

    -- handle_ep0_in
    unfoldable pub handle_ep0_in : Ep0 → Ep0
    unfolding write_ep0r ep_set_tx_status
    handle_ep0_in s0 =
        let s = record s0 { usb = write_ep0r 0x8200 s0.usb } in
        if ltb 0 s.ep0_tx_remaining
        then ep0_tx_chunk s
        else if s.ep0_tx_need_zlp
        then record s {
          ep0_tx_need_zlp = false;
          usb = ep_set_tx_status usb_ep_tx_valid (put_count_tx 0 s.usb);
        }
        else if ltb 0 s.pending_address
        then record s {
          usb = record s.usb { daddr = bit_or usb_daddr_ef s.pending_address };
          pending_address = 0;
        }
        else s

  unfoldable pub ep0_send_zlp : Ep0 → Ep0
  unfolding ep_set_tx_status ep_set_rx_status
  ep0_send_zlp s = record s {
    ep0_tx_ptr = null;
    ep0_tx_remaining = 0;
    ep0_tx_need_zlp = false;
    usb =
        ep_set_rx_status usb_ep_rx_valid (ep_set_tx_status usb_ep_tx_valid (put_count_tx 0 s.usb));
  }

  unfoldable pub ep0_stall : Ep0 → Ep0
  unfolding ep_set_tx_status ep_set_rx_status
  ep0_stall s = record s {
    ep0_tx_ptr = null;
    ep0_tx_remaining = 0;
    ep0_tx_need_zlp = false;
    usb = ep_set_rx_status usb_ep_rx_valid (ep_set_tx_status usb_ep_tx_stall s.usb);
  }
