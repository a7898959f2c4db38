-- ===== src/Dfu/Preservation.antt =====
-- Rules for usb_poll, for properties that do not look at endpoint 0: a poll takes what has P to
-- what has Q, if a class request, a received packet and a bus reset do so, and an invariant is
-- kept.
use nova_voyager_bootloader.Base.{AllBytes, ℕ, Bool, true, false, List, Option-cases, inl, inr}
use nova_voyager_bootloader.Usb.Regs.{UsbPort}
use nova_voyager_bootloader.Usb.Pma.{pma_read}
use nova_voyager_bootloader.Usb.Pma.RoundTrip.{read_halfwords-AllBytes}
use nova_voyager_bootloader.Usb.Descriptors.{find_descriptor}
use nova_voyager_bootloader.Usb.Ep0.{Ep0, ep0_rx_offset}
use nova_voyager_bootloader.Flash.Interface.{FlashIf}
use nova_voyager_bootloader.Dfu.State.{Device}
use nova_voyager_bootloader.Dfu.Dispatch.{
  SetupPacket, to_setup, RequestType, standard, class, reserved, to_type, StandardRequest,
  get_descriptor, to_standard, DfuRequest, to_dfu, take_packet, reset_dfu, handle_get_descriptor,
  standard_request, class_request, typed_request, handle_request, handle_setup, receive,
  handle_ep0_out, serve_rx, serve_tx, serve_ep0, poll_reset, poll_by, usb_poll,
}

received-AllBytes : (offset len : ℕ) (pma : ℕ → ℕ) → AllBytes (pma_read offset len pma)
unfolding pma_read
received-AllBytes offset len pma = read_halfwords-AllBytes _ len pma

module _ {F : Type 0} (flash_if : FlashIf F) (port : UsbPort) (P Q : Device F → Type 0)
    (free : (v : Device F) (s : Ep0) → P v → P (record v { ep0 = s }))
    (freed : (v : Device F) (s : Ep0) → Q v → Q (record v { ep0 = s }))
    (nothing : (v : Device F) → P v → Q v)
    (on_class : (r : DfuRequest) (p : SetupPacket) (v : Device F)
      → P v
      → Q (class_request flash_if port r p v))
    (on_packet : (packet : List ℕ) (v : Device F)
      → AllBytes packet
      → P v
      → Q (record v { dfu = (take_packet packet v.dfu).0 }))
    (on_reset : (v : Device F) → P v → Q (record v { dfu = reset_dfu v.dfu })) where
  descriptor_leads :
      (value len : ℕ) (v : Device F) → P v → Q (handle_get_descriptor flash_if port value len v)
  unfolding handle_get_descriptor
  descriptor_leads value len v h = elim (Option-cases (find_descriptor value)) [
    | inl e ↦ rw (e, handle_get_descriptor) (nothing _ (free v _ h))
    | inr (desc, e) ↦ rw (e, handle_get_descriptor) (nothing _ (free v _ h))
  ]

  standard_leads :
      (r : StandardRequest) (p : SetupPacket) (v : Device F)
      → P v
      → Q (standard_request flash_if port r p v)
  unfolding standard_request
  standard_leads get_descriptor p v h = descriptor_leads p.w_value p.w_length v h
  standard_leads _ p v h = nothing _ (free v _ h)

  typed_leads :
      (t : RequestType) (p : SetupPacket) (v : Device F)
      → P v
      → Q (typed_request flash_if port t p v)
  unfolding typed_request
  typed_leads standard p v h = standard_leads (to_standard p.b_request) p v h
  typed_leads class p v h = on_class (to_dfu p.b_request) p v h
  typed_leads reserved p v h = nothing _ (free v _ h)

  setup_leads : (v : Device F) → P v → Q (handle_setup flash_if port v)
  unfolding handle_setup handle_request
  setup_leads v h =
      let p = to_setup (pma_read ep0_rx_offset 8 v.ep0.usb.pma) in
      typed_leads (to_type p.bm_request_type) p _ (free v _ h)

  receive_leads :
      (b : Bool) (packet : List ℕ) (v : Device F)
      → AllBytes packet
      → P v
      → Q (receive flash_if port b packet v)
  unfolding receive
  receive_leads true packet v bytes h = freed _ _ (on_packet packet v bytes h)
  receive_leads false packet v bytes h = nothing v h

  out_leads : (v : Device F) → P v → Q (handle_ep0_out flash_if port v)
  unfolding handle_ep0_out
  out_leads v h =
      freed (receive flash_if port _ _ v) _
        (receive_leads _ _ v (received-AllBytes ep0_rx_offset _ v.ep0.usb.pma) h)

  rx_leads : (b setup : Bool) (v : Device F) → P v → Q (serve_rx flash_if port b setup v)
  unfolding serve_rx
  rx_leads true true v h = setup_leads v h
  rx_leads true false v h = out_leads v h
  rx_leads false setup v h = nothing v h

  tx_leads : (b : Bool) (v : Device F) → Q v → Q (serve_tx flash_if port b v)
  unfolding serve_tx
  tx_leads true v h = freed v _ h
  tx_leads false v h = h

  poll_leads : (b c e : Bool) (v : Device F) → P v → Q (poll_by flash_if port b c e v)
  unfolding poll_by poll_reset serve_ep0
  poll_leads true c e v h = freed _ _ (on_reset v h)
  poll_leads false true true v h = tx_leads _ _ (rx_leads _ _ v h)
  poll_leads false true false v h = nothing v h
  poll_leads false false e v h = nothing v h

  pub usb_poll_leads : (v : Device F) → P v → Q (usb_poll flash_if port v)
  unfolding usb_poll
  usb_poll_leads v h = poll_leads _ _ _ v h

-- An invariant of usb_poll.
module _ {F : Type 0} (flash_if : FlashIf F) (port : UsbPort) (P : Device F → Type 0)
    (ep0_free : (v : Device F) (s : Ep0) → P v → P (record v { ep0 = s }))
    (on_class : (r : DfuRequest) (p : SetupPacket) (v : Device F)
      → P v
      → P (class_request flash_if port r p v))
    (on_packet : (packet : List ℕ) (v : Device F)
      → AllBytes packet
      → P v
      → P (record v { dfu = (take_packet packet v.dfu).0 }))
    (on_reset : (v : Device F) → P v → P (record v { dfu = reset_dfu v.dfu })) where
  pub usb_poll_keeps : (v : Device F) → P v → P (usb_poll flash_if port v)
  usb_poll_keeps =
      usb_poll_leads flash_if port P P ep0_free ep0_free (λ v h. h) on_class on_packet on_reset
