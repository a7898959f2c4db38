-- ===== src/Dfu/Bus/Refinement.antt =====
-- usb_poll of src/usb_dfu.c refines the machine of events.
use nova_voyager_bootloader.Base.{
  ℕ, zero, suc, ◌+◌, ◌*◌, ◌≡◌, refl, sym, ap, ◌∙◌, Bool, true, false, ◌&&◌, List, [], ◌∷◌, ◌++◌,
  length, ltb, has_bits, bit_and, ◌==◌, if◌then◌else◌, arith, Bool-cases, inl, inr,
}
use mathlib.Core.Bool.{false≢true}
use nova_voyager_bootloader.Usb.Regs.{
  UsbRegs, UsbPort, usb_ep_ctr_rx, usb_ep_ctr_tx, usb_ep_setup, usb_istr_ctr, usb_istr_reset,
  usb_istr_ep_id,
}
use nova_voyager_bootloader.Usb.Pma.{pma_read, pma_get, read_halfwords}
use nova_voyager_bootloader.Usb.Ep0.{btable_offset, ep0_rx_offset}
use nova_voyager_bootloader.Flash.Interface.{FlashIf}
use nova_voyager_bootloader.Dfu.State.{dnload_sync, in_state, Dfu, Device}
use nova_voyager_bootloader.Dfu.Status.{handle_dfu_getstatus}
use nova_voyager_bootloader.Dfu.Requests.{
  handle_dfu_getstate, handle_dfu_dnload, handle_dfu_upload, handle_dfu_clrstatus, handle_dfu_abort,
}
use nova_voyager_bootloader.Dfu.Dispatch.{
  SetupPacket, to_setup, RequestType, standard, class, reserved, to_type, StandardRequest,
  get_descriptor, set_address, set_configuration, get_configuration, get_status, other, to_standard,
  DfuRequest, getstatus, getstate, dnload, upload, clrstatus, abort, unknown, to_dfu,
  handle_get_descriptor, standard_request, class_request, typed_request, handle_request,
  handle_setup, receive, handle_ep0_out, usb_reset, serve_rx, serve_tx, serve_ep0, poll_reset,
  poll_by, usb_poll,
}
use nova_voyager_bootloader.Dfu.Bus.{
  Event, bus_reset, setup, out, packet, heard, all_heard, offered, asked, cleared, aborted, given,
  stepped, requested, requested_by, serve, serve_all, matters, matters_by, telling,
}

length-read_halfwords : (src len : ℕ) (pma : ℕ → ℕ) → length (read_halfwords src len pma) ≡ len
unfolding read_halfwords
length-read_halfwords src zero pma = refl
length-read_halfwords src (suc zero) pma = refl
length-read_halfwords src (suc (suc len)) pma =
    ap (λ n. suc (suc n)) (length-read_halfwords (src + 4) len pma)

length-pma_read : (offset len : ℕ) (pma : ℕ → ℕ) → length (pma_read offset len pma) ≡ len
unfolding pma_read
length-pma_read offset len pma = length-read_halfwords (offset * 2) len pma

module _ {F : Type 0} (flash_if : FlashIf F) where
  pub serve_all-append :
      (es more : List Event) (d : Dfu) (f : F)
      → serve_all flash_if (es ++ more) d f
        ≡ (let (d', f') = serve_all flash_if es d f in serve_all flash_if more d' f')
  unfolding serve_all
  serve_all-append [] more d f = refl
  serve_all-append (e ∷ es) more d f =
      let (d', f') = serve flash_if e d f in serve_all-append es more d' f'

  -- What does not matter leaves everything as it is.
  quiet-requested :
      (q : DfuRequest) (value len : ℕ) (d : Dfu) (f : F)
      → matters_by class q ≡ false
      → requested flash_if q value len d f ≡ (d, f)
  unfolding requested
  quiet-requested getstatus value len d f h = absurd (false≢true (sym h))
  quiet-requested getstate value len d f h = refl
  quiet-requested dnload value len d f h = absurd (false≢true (sym h))
  quiet-requested upload value len d f h = absurd (false≢true (sym h))
  quiet-requested clrstatus value len d f h = absurd (false≢true (sym h))
  quiet-requested abort value len d f h = absurd (false≢true (sym h))
  quiet-requested unknown value len d f h = refl

  quiet-requested_by :
      (t : RequestType) (p : SetupPacket) (d : Dfu) (f : F)
      → matters_by t (to_dfu p.b_request) ≡ false
      → requested_by flash_if t p d f ≡ (d, f)
  unfolding requested_by
  quiet-requested_by standard p d f h = refl
  quiet-requested_by class p d f h = quiet-requested (to_dfu p.b_request) p.w_value p.w_length d f h
  quiet-requested_by reserved p d f h = refl

  quiet-serve : (e : Event) (d : Dfu) (f : F) → matters e ≡ false → serve flash_if e d f ≡ (d, f)
  unfolding serve given
  quiet-serve bus_reset d f h = absurd (false≢true (sym h))
  quiet-serve (setup p) d f h = quiet-requested_by (to_type p.bm_request_type) p d f h
  quiet-serve (out []) d f h = ground arith
  quiet-serve (out (b ∷ bs)) d f h = absurd (false≢true (sym h))

  pub serve_all-telling :
      (es : List Event) (d : Dfu) (f : F)
      → serve_all flash_if es d f ≡ serve_all flash_if (telling es) d f
  unfolding serve_all
  serve_all-telling [] d f = refl
  serve_all-telling (e ∷ es) d f = elim (Bool-cases (matters e)) [
    | inl b ↦
        rw (b, serve_all) (serve_all-telling es (serve flash_if e d f).0 (serve flash_if e d f).1)
    | inr b ↦ rw b (
        ap (λ (k : Dfu × F). serve_all flash_if es k.0 k.1) (quiet-serve e d f b)
        ∙ serve_all-telling es d f)
  ]

module _ {F : Type 0} (flash_if : FlashIf F) (port : UsbPort) where
  -- The device without endpoint 0.
  abbrev pub view : Device F → Dfu × F
  view v = (v.dfu, v.flash)

  -- The rounds of the loop, with what the bus has made of the peripheral before each.
  unfoldable pub polls : List UsbRegs → Device F → Device F
  polls [] v = v
  polls (r ∷ rs) v = polls rs (usb_poll flash_if port (record v { ep0 = record v.ep0 { usb = r } }))

  requested-class_request :
      (q : DfuRequest) (p : SetupPacket) (v : Device F)
      → view (class_request flash_if port q p v)
        ≡ requested flash_if q p.w_value p.w_length v.dfu v.flash
  unfolding class_request requested stepped offered asked cleared aborted handle_dfu_getstatus
      handle_dfu_getstate handle_dfu_dnload handle_dfu_upload handle_dfu_clrstatus handle_dfu_abort
  requested-class_request getstatus p v = refl
  requested-class_request getstate p v = refl
  requested-class_request dnload p v = ground arith
  requested-class_request upload p v = ground arith
  requested-class_request clrstatus p v = ground arith
  requested-class_request abort p v = refl
  requested-class_request unknown p v = refl

  standard-same :
      (q : StandardRequest) (p : SetupPacket) (v : Device F)
      → view (standard_request flash_if port q p v) ≡ view v
  unfolding standard_request handle_get_descriptor
  standard-same get_descriptor p v = ground arith
  standard-same set_address p v = refl
  standard-same set_configuration p v = refl
  standard-same get_configuration p v = refl
  standard-same get_status p v = refl
  standard-same other p v = refl

  requested-typed_request :
      (t : RequestType) (p : SetupPacket) (v : Device F)
      → view (typed_request flash_if port t p v) ≡ requested_by flash_if t p v.dfu v.flash
  unfolding typed_request requested_by
  requested-typed_request standard p v = standard-same (to_standard p.b_request) p v
  requested-typed_request class p v = requested-class_request (to_dfu p.b_request) p v
  requested-typed_request reserved p v = refl

  given-receive :
      (packet : List ℕ) (count : ℕ) (v : Device F)
      → length packet ≡ count
      → view
          (receive flash_if port (in_state v.dfu.context.state dnload_sync && ltb 0 count) packet v)
        ≡ (given packet v.dfu, v.flash)
  unfolding receive given
  given-receive packet count v n = rw n (ground arith)

  refines-setup :
      (v : Device F)
      → view (handle_setup flash_if port v)
        ≡ serve flash_if (setup (to_setup (pma_read ep0_rx_offset 8 v.ep0.usb.pma))) v.dfu v.flash
  unfolding handle_setup handle_request serve
  refines-setup v =
      let p = to_setup (pma_read ep0_rx_offset 8 v.ep0.usb.pma) in
      requested-typed_request (to_type p.bm_request_type) p _

  refines-out :
      (v : Device F)
      → let count = bit_and (pma_get (btable_offset + 6) v.ep0.usb.pma) 0x3FF in
        view (handle_ep0_out flash_if port v)
        ≡ serve flash_if (out (pma_read ep0_rx_offset count v.ep0.usb.pma)) v.dfu v.flash
  unfolding handle_ep0_out serve
  refines-out v =
      let count = bit_and (pma_get (btable_offset + 6) v.ep0.usb.pma) 0x3FF in
      given-receive (pma_read ep0_rx_offset count v.ep0.usb.pma) count v
        (length-pma_read ep0_rx_offset count v.ep0.usb.pma)

  tx-same : (b : Bool) (v : Device F) → view (serve_tx flash_if port b v) ≡ view v
  unfolding serve_tx
  tx-same true v = refl
  tx-same false v = refl

  -- The branches of serve_ep0, and of usb_poll, with their tests.
  refines-ep0 :
      (rx is_setup tx : Bool) (v : Device F)
      → view (serve_tx flash_if port tx (serve_rx flash_if port rx is_setup v))
        ≡ serve_all flash_if (if rx then packet is_setup v.ep0.usb ∷ [] else []) v.dfu v.flash
  unfolding serve_rx serve_all
  refines-ep0 true true tx v = tx-same tx (handle_setup flash_if port v) ∙ refines-setup v
  refines-ep0 true false tx v = tx-same tx (handle_ep0_out flash_if port v) ∙ refines-out v
  refines-ep0 false is_setup tx v = tx-same tx v

  refines-poll :
      (reset ctr on_ep0 : Bool) (v : Device F)
      → let r = v.ep0.usb in
        view (poll_by flash_if port reset ctr on_ep0 v)
        ≡ serve_all flash_if
            (if reset
              then bus_reset ∷ []
              else if ctr && (on_ep0 && has_bits r.ep0r usb_ep_ctr_rx)
              then packet (has_bits r.ep0r usb_ep_setup) r ∷ []
              else [])
            v.dfu
            v.flash
  unfolding poll_by serve_ep0 serve_all serve poll_reset usb_reset
  refines-poll true ctr on_ep0 v = refl
  refines-poll false true true v =
      let r = v.ep0.usb.ep0r in
      refines-ep0 (has_bits r usb_ep_ctr_rx) (has_bits r usb_ep_setup) (has_bits r usb_ep_ctr_tx) v
  refines-poll false true false v = refl
  refines-poll false false on_ep0 v = refl

  pub usb_poll-serve_all :
      (v : Device F)
      → view (usb_poll flash_if port v) ≡ serve_all flash_if (heard v.ep0.usb) v.dfu v.flash
  unfolding usb_poll
  usb_poll-serve_all v =
      let r = v.ep0.usb in
      refines-poll (has_bits r.istr usb_istr_reset) (has_bits r.istr usb_istr_ctr)
        (bit_and r.istr usb_istr_ep_id == 0) v

  -- Any number of rounds, whatever the bus makes of the peripheral before each, and whatever state
  -- endpoint 0 is in: the DFU variables and the flash after them are those of the machine of events
  -- after the packets and the bus resets that the rounds hear. Packets sent, the device address,
  -- the reply buffer and the registers make no difference to them.
  pub polls-serve_all :
      (rs : List UsbRegs) (v : Device F)
      → view (polls rs v) ≡ serve_all flash_if (all_heard rs) v.dfu v.flash
  unfolding polls serve_all
  polls-serve_all [] v = refl
  polls-serve_all (r ∷ rs) v =
      let w = usb_poll flash_if port (record v { ep0 = record v.ep0 { usb = r } }) in
      polls-serve_all rs w
      ∙ ap (λ (k : Dfu × F). serve_all flash_if (all_heard rs) k.0 k.1)
          (usb_poll-serve_all (record v { ep0 = record v.ep0 { usb = r } }))
      ∙ sym (serve_all-append flash_if (heard r) (all_heard rs) v.dfu v.flash)

  -- Of the events, only those that matter.
  pub polls-telling :
      (rs : List UsbRegs) (v : Device F) (es : List Event)
      → telling (all_heard rs) ≡ es
      → view (polls rs v) ≡ serve_all flash_if es v.dfu v.flash
  polls-telling rs v es h =
      polls-serve_all rs v
      ∙ serve_all-telling flash_if (all_heard rs) v.dfu v.flash
      ∙ ap (λ l. serve_all flash_if l v.dfu v.flash) h

  -- A round in which nothing matters.
  pub round-quiet :
      (r : UsbRegs) (v : Device F)
      → telling (heard r) ≡ []
      → view (usb_poll flash_if port (record v { ep0 = record v.ep0 { usb = r } })) ≡ view v
  unfolding serve_all
  round-quiet r v h =
      usb_poll-serve_all (record v { ep0 = record v.ep0 { usb = r } })
      ∙ serve_all-telling flash_if (heard r) v.dfu v.flash
      ∙ ap (λ l. serve_all flash_if l v.dfu v.flash) h
