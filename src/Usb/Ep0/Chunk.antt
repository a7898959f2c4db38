-- ===== src/Usb/Ep0/Chunk.antt =====
-- What ep0_tx_chunk and ep0_send arm for the host, and what they leave to be sent.
use nova_voyager_bootloader.Base.{
  AllBytes, AllBytes-take, ℕ, ◌+◌, ◌-◌, ◌%◌, ◌≤◌, min, ◌≡◌, refl, ap, ◌∙◌, Bool, ◌&&◌, List, length,
  get_or, tabulate, length-tabulate, ltb, bit_and, ◌==◌, if◌then◌else◌, u16, arith,
}
use mathlib.Core.Path.{fun_ext}
use nova_voyager_bootloader.Usb.Regs.{
  UsbRegs, UsbPort, IsEndpointRegister, usb_ep_rx_valid, usb_ep_tx_valid, usb_ep_stat_tx,
}
use nova_voyager_bootloader.Usb.Pma.{pma_write, pma_read, pma_get}
use nova_voyager_bootloader.Usb.Pma.RoundTrip.{pma_read-pma_write, read_halfwords-update}
use nova_voyager_bootloader.Usb.Descriptors.{ep0_max_size}
use nova_voyager_bootloader.Usb.Ep0.Status.{ep_set_tx_status_lem, ep_set_rx_status_lem}
use nova_voyager_bootloader.Usb.Ep0.{
  Ptr, null, rodata, scratch, memory, Ep0, advance, deref, btable_offset, ep0_tx_offset,
  ep_set_rx_status, put_count_tx, ep0_tx_chunk, ep0_send,
}

-- COUNT_TX bytes at the transmit buffer.
unfoldable pub queued : UsbRegs → List ℕ
queued r = pma_read ep0_tx_offset (pma_get (btable_offset + 2) r.pma) r.pma

-- The transmit status is VALID.
abbrev pub IsArmed : UsbRegs → Type 0
IsArmed r = bit_and r.ep0r usb_ep_stat_tx ≡ usb_ep_tx_valid

-- What the device owes at the end, given what the host still expects.
abbrev pub owes : ℕ → ℕ → Bool
owes r want = ltb 0 r && (ltb r want && ((r % ep0_max_size) == 0))

module _ (port : UsbPort) (doc : IsEndpointRegister port) (mem : ℕ → ℕ) where
  -- The bytes of the transfer that are still to be armed.
  abbrev pub pending : Ep0 → ℕ → ℕ
  pending s = deref mem s.ep0_reply s.ep0_tx_ptr

  -- Of the `r` bytes `f`, the first packet is armed, and the rest are pending.
  pub record IsSent (t : Ep0) (r : ℕ) (f : ℕ → ℕ) (z : Bool) : Type 0 where
    pub valid : IsArmed t.usb
    pub packet : queued t.usb ≡ tabulate (min r 64) f
    pub remaining : t.ep0_tx_remaining ≡ r - min r 64
    pub left : (i : ℕ) → pending t i ≡ f (min r 64 + i)
    pub need_zlp : t.ep0_tx_need_zlp ≡ z

  queued_lem :
      (bytes : List ℕ) (n : ℕ) (r : UsbRegs)
      → AllBytes bytes
      → length bytes ≡ n
      → n ≤ 64
      → queued (put_count_tx port n (record r { pma = pma_write ep0_tx_offset bytes r.pma }))
        ≡ bytes
  unfolding queued pma_read
  queued_lem bytes n r h e short =
      read_halfwords-update 128 (u16 n) (pma_write ep0_tx_offset bytes r.pma) 4 (u16 n)
        (omega arith)
      ∙ ap (λ k. pma_read ep0_tx_offset k (pma_write ep0_tx_offset bytes r.pma)) fits
      ∙ pma_read-pma_write ep0_tx_offset bytes r.pma h
    where
      fits : u16 n ≡ length bytes
      fits = omega arith

  deref-advance :
      (reply : List ℕ) (p : Ptr) (n i : ℕ)
      → deref mem reply (advance p n) i ≡ deref mem reply p (n + i)
  deref-advance reply null n i = refl
  deref-advance reply (rodata bytes at) n i = ap (λ k. get_or bytes k 0) (omega arith)
  deref-advance reply (scratch at) n i = ap (λ k. get_or reply k 0) (omega arith)
  deref-advance reply (memory addr) n i = ap mem (omega arith)

  pub ep0_tx_chunk-IsSent :
      (s : Ep0) (r : ℕ) (f : ℕ → ℕ) {z : Bool}
      → s.ep0_tx_remaining ≡ r
      → ((i : ℕ) → pending s i ≡ f i)
      → s.ep0_tx_need_zlp ≡ z
      → AllBytes (tabulate (min r 64) f)
      → IsSent (ep0_tx_chunk port mem s) r f z
  unfolding ep0_tx_chunk queued
  ep0_tx_chunk-IsSent s r f e p z h = record {
    valid = (ep_set_tx_status_lem port doc s.usb usb_ep_tx_valid).0;
    packet = rw chunk (rw (fun_ext p) sent);
    remaining = rw chunk (omega arith);
    left = λ i. rw chunk (deref-advance s.ep0_reply s.ep0_tx_ptr (min r 64) i ∙ p (min r 64 + i));
    need_zlp = z;
  }
    where
      chunk :
          (if ltb ep0_max_size s.ep0_tx_remaining then ep0_max_size else s.ep0_tx_remaining)
          ≡ min r 64
      chunk = ground arith

      sent :
          queued (
            put_count_tx port
              (min r 64)
              (record s.usb { pma = pma_write ep0_tx_offset (tabulate (min r 64) f) s.usb.pma }))
          ≡ tabulate (min r 64) f
      sent =
          queued_lem (tabulate (min r 64) f) (min r 64) s.usb h (length-tabulate (min r 64) f)
            (omega arith)

  -- The receive status is no part of what is sent.
  IsSent-rx :
      {t : Ep0} {r : ℕ} {f : ℕ → ℕ} {z : Bool} (status : ℕ)
      → IsSent t r f z
      → IsSent (record t { usb = ep_set_rx_status port status t.usb }) r f z
  unfolding queued ep_set_rx_status
  IsSent-rx {t = t} status h = record {
    valid = (ep_set_rx_status_lem port doc t.usb status).1 ∙ h.valid;
    packet = h.packet;
    remaining = h.remaining;
    left = h.left;
    need_zlp = h.need_zlp;
  }

  pub ep0_send-IsSent :
      (ptr : Ptr) (len : ℕ) (s : Ep0)
      → AllBytes (tabulate (min len s.ep0_req_len) (deref mem s.ep0_reply ptr))
      → IsSent
          (ep0_send port mem ptr len s)
          (min len s.ep0_req_len)
          (deref mem s.ep0_reply ptr)
          (owes (min len s.ep0_req_len) s.ep0_req_len)
  unfolding ep0_send
  ep0_send-IsSent ptr len s b = IsSent-rx usb_ep_rx_valid (
      ep0_tx_chunk-IsSent _ count (deref mem s.ep0_reply ptr) clamp (λ i. refl)
        (ap (λ k. owes k s.ep0_req_len) clamp)
        (AllBytes-take (min count 64) count _ (omega arith) b))
    where
      count : ℕ
      count = min len s.ep0_req_len

      clamp : (if ltb s.ep0_req_len len then s.ep0_req_len else len) ≡ min len s.ep0_req_len
      clamp = ground arith
