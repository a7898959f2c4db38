-- ===== src/Usb/Ep0/Status.antt =====
-- ep_set_tx_status and ep_set_rx_status against the documented endpoint register.
use nova_voyager_bootloader.Base.{
  ℕ, ◌≡◌, refl, ◌∙◌, bit_and, bit_or, bit_xor, mask_laws, bit_xor_cancel, bit_and_narrow,
  bit_xor-zero,
}
use nova_voyager_bootloader.Usb.Regs.{UsbRegs, UsbPort, IsEndpointRegister, usb_ep_kept}
use nova_voyager_bootloader.Usb.Ep0.{write_ep0r, ep_set_tx_status, ep_set_rx_status}

-- The value that the code writes to move the field under `field` to `status`.
abbrev toggle_word : ℕ → ℕ → ℕ → ℕ
toggle_word e status field = bit_or (bit_and e usb_ep_kept) (bit_and (bit_xor e status) field)

module _ (port : UsbPort) (doc : IsEndpointRegister port) (e status field : ℕ) where
  toggled :
      (m : ℕ) (v : ℕ)
      → bit_and 0x7070 m ≡ m
      → bit_and (port.ep_write e v) m ≡ bit_and (bit_xor e v) m
  toggled m v h = bit_and_narrow (port.ep_write e v) (bit_xor e v) 0x7070 m (doc.toggled_bits e v) h

  -- The field itself, where the code's word is the difference.
  toggled_self :
      bit_and 0x7070 field ≡ field
      → bit_and usb_ep_kept field ≡ 0
      → bit_and field field ≡ field
      → bit_and (port.ep_write e (toggle_word e status field)) field ≡ bit_and status field
  toggled_self h k f =
      toggled field (toggle_word e status field) h
      ∙ simp (mask_laws, k, f) (bit_xor_cancel (bit_and e field) (bit_and status field))

  -- A toggle that the word leaves at 0.
  toggled_other :
      (m : ℕ)
      → bit_and 0x7070 m ≡ m
      → bit_and usb_ep_kept m ≡ 0
      → bit_and field m ≡ 0
      → bit_and (port.ep_write e (toggle_word e status field)) m ≡ bit_and e m
  toggled_other m h k f =
      toggled m (toggle_word e status field) h ∙ simp (mask_laws, k, f) (bit_xor-zero _)

  ctr_kept :
      bit_and field 0x8080 ≡ 0
      → bit_and (port.ep_write e (toggle_word e status field)) 0x8080 ≡ bit_and e 0x8080
  ctr_kept f = doc.ctr_bits e (toggle_word e status field) ∙ simp (mask_laws, f)

  stored_kept :
      bit_and field 0x070F ≡ 0
      → bit_and (port.ep_write e (toggle_word e status field)) 0x070F ≡ bit_and e 0x070F
  stored_kept f = doc.stored_bits e (toggle_word e status field) ∙ simp (mask_laws, f)

module _ (port : UsbPort) (doc : IsEndpointRegister port) (r : UsbRegs) (status : ℕ) where
  -- On a documented endpoint register, setting the transmit status, which the code can only toggle,
  -- leaves STAT_TX at the status asked for; STAT_RX, both data toggles, both CTR flags, SETUP, and
  -- the type, kind and address fields stay as they were.
  pub ep_set_tx_status_lem :
      let e = (ep_set_tx_status port status r).ep0r in
      (bit_and e 0x0030 ≡ bit_and status 0x0030)
      × (bit_and e 0x3000 ≡ bit_and r.ep0r 0x3000)
      × (bit_and e 0x4040 ≡ bit_and r.ep0r 0x4040)
      × (bit_and e 0x8080 ≡ bit_and r.ep0r 0x8080)
      × (bit_and e 0x0800 ≡ bit_and r.ep0r 0x0800)
      × (bit_and e 0x070F ≡ bit_and r.ep0r 0x070F)
  unfolding ep_set_tx_status write_ep0r
  ep_set_tx_status_lem = (
    toggled_self port doc r.ep0r status 0x0030 refl refl refl,
    toggled_other port doc r.ep0r status 0x0030 0x3000 refl refl refl,
    toggled_other port doc r.ep0r status 0x0030 0x4040 refl refl refl,
    ctr_kept port doc r.ep0r status 0x0030 refl,
    doc.setup_bit _ _,
    stored_kept port doc r.ep0r status 0x0030 refl,
  )

  -- On a documented endpoint register, setting the receive status leaves STAT_RX at the status
  -- asked for; STAT_TX, both data toggles, both CTR flags, SETUP, and the type, kind and address
  -- fields stay as they were.
  pub ep_set_rx_status_lem :
      let e = (ep_set_rx_status port status r).ep0r in
      (bit_and e 0x3000 ≡ bit_and status 0x3000)
      × (bit_and e 0x0030 ≡ bit_and r.ep0r 0x0030)
      × (bit_and e 0x4040 ≡ bit_and r.ep0r 0x4040)
      × (bit_and e 0x8080 ≡ bit_and r.ep0r 0x8080)
      × (bit_and e 0x0800 ≡ bit_and r.ep0r 0x0800)
      × (bit_and e 0x070F ≡ bit_and r.ep0r 0x070F)
  unfolding ep_set_rx_status write_ep0r
  ep_set_rx_status_lem = (
    toggled_self port doc r.ep0r status 0x3000 refl refl refl,
    toggled_other port doc r.ep0r status 0x3000 0x0030 refl refl refl,
    toggled_other port doc r.ep0r status 0x3000 0x4040 refl refl refl,
    ctr_kept port doc r.ep0r status 0x3000 refl,
    doc.setup_bit _ _,
    stored_kept port doc r.ep0r status 0x3000 refl,
  )
