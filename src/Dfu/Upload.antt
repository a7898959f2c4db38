-- ===== src/Dfu/Upload.antt =====
-- UPLOAD, from its request to the bytes that the host reads.
use nova_voyager_bootloader.Base.{
  ℕ, zero, suc, ◌+◌, ◌-◌, ◌/◌, ◌≤◌, ◌<◌, min, ◌≡◌, ◌⊎◌, refl, sym, ap, ap₂, ◌∙◌, some, ◌∷◌,
  tabulate, AllBytes, u32, arith,
}
use nova_voyager_bootloader.Usb.Regs.{UsbPort, IsEndpointRegister}
use nova_voyager_bootloader.Usb.Ep0.{Ep0, memory, ep0_send}
use nova_voyager_bootloader.Usb.Ep0.DataStage.{host_read, ep0_send-host_read}
use nova_voyager_bootloader.Flash.Region.{InApp, app_flash_end}
use nova_voyager_bootloader.Flash.Interface.{FlashIf}
use nova_voyager_bootloader.Dfu.State.{idle, upload_idle, Device, enter}
use nova_voyager_bootloader.Dfu.Requests.{block_address, handle_dfu_upload}
use nova_voyager_bootloader.Dfu.Dispatch.{
  SetupPacket, begin_setup, class_request, typed_request, handle_request,
}

-- The SETUP packet of an UPLOAD.
abbrev pub upload_packet : ℕ → ℕ → SetupPacket
upload_packet block len = record {
  bm_request_type = 0xA1;
  b_request = 0x02;
  w_value = block;
  w_index = 0;
  w_length = len;
}

pub tabulate-eq :
    (n : ℕ) (f g : ℕ → ℕ) → ((i : ℕ) → i < n → f i ≡ g i) → tabulate n f ≡ tabulate n g
tabulate-eq zero f g h = refl
tabulate-eq (suc n) f g h =
    ap₂ ◌∷◌ (h 0 (omega arith))
      (tabulate-eq n (λ i. f (suc i)) (λ i. g (suc i)) (λ i k. h (suc i) (omega arith)))

tabulate-AllBytes : (n : ℕ) (f : ℕ → ℕ) → ((i : ℕ) → f i < 256) → AllBytes (tabulate n f)
tabulate-AllBytes zero f h = tt
tabulate-AllBytes (suc n) f h = (h 0, tabulate-AllBytes n (λ i. f (suc i)) (λ i. h (suc i)))

module _ {F : Type 0} (flash_if : FlashIf F) (port : UsbPort) (doc : IsEndpointRegister port) where
  -- The accepted request.
  uploaded :
      (v : Device F) (block len : ℕ)
      → (v.dfu.context.state ≡ idle) ⊎ (v.dfu.context.state ≡ upload_idle)
      → 2 ≤ block
      → len < 65536
      → InApp (block_address v.dfu block)
      → let addr = block_address v.dfu block in
        let w = handle_request flash_if port (upload_packet block len) v in
        (w.dfu ≡ enter upload_idle v.dfu)
        × (w.flash ≡ v.flash)
        × (w.ep0
            ≡ ep0_send port
                (flash_if.byte v.flash)
                (memory addr)
                (min len (app_flash_end - addr + 1))
                (begin_setup flash_if port (upload_packet block len) v.ep0))
  unfolding handle_request typed_request class_request handle_dfu_upload
  uploaded v block len s b short inside = ground arith

  -- On a documented endpoint register, an UPLOAD of at most 65535 bytes from an idle or upload-idle
  -- device, of a block numbered 2 or more whose address lies in the application region. The device
  -- goes to dfuUPLOAD-IDLE, its flash and its address pointer stay, and the host, which fetches the
  -- packets that are armed until the data stage ends, reads exactly the flash from that address on:
  -- the bytes it asked for, or those up to the end of the region if they are fewer.
  pub upload_block :
      (v : Device F) (block len : ℕ)
      → (v.dfu.context.state ≡ idle) ⊎ (v.dfu.context.state ≡ upload_idle)
      → 2 ≤ block
      → len < 65536
      → InApp (block_address v.dfu block)
      → ((a : ℕ) → flash_if.byte v.flash a < 256)
      → let addr = block_address v.dfu block in
        let n = min len (app_flash_end - addr + 1) in
        let w = handle_request flash_if port (upload_packet block len) v in
        (w.dfu.context.state ≡ upload_idle)
        × (w.dfu.dfuse_address_ptr ≡ v.dfu.dfuse_address_ptr)
        × (w.flash ≡ v.flash)
        × ((u : Ep0) × (host_read port (flash_if.byte v.flash) (n / 64 + 1) len w.ep0
              ≡ some (tabulate n (λ i. flash_if.byte v.flash (addr + i)), u))
            × (u.ep0_tx_remaining ≡ 0))
  unfolding begin_setup
  upload_block v block len s b short inside bytes =
      let q = uploaded v block len s b short inside in
      let addr = block_address v.dfu block in
      let mem = flash_if.byte v.flash in
      let s' = begin_setup flash_if port (upload_packet block len) v.ep0 in
      let n = min len (app_flash_end - addr + 1) in
      let (u, h, r, z) =
        ep0_send-host_read port doc mem (memory addr) n s'
          (tabulate-AllBytes (min n len) _ (λ i. bytes (u32 (addr + i)))) in
      let e : min n len ≡ n = omega arith in
      let same : tabulate n (λ i. mem (u32 (addr + i))) ≡ tabulate n (λ i. mem (addr + i)) =
        tabulate-eq n _ _ (λ i k. ap mem (omega arith)) in
      (
        ap (λ d. d.context.state) q.0,
        ap (λ d. d.dfuse_address_ptr) q.0,
        q.1,
        (
          u,
          rw q.2 (
              ap (λ k. host_read port mem (k / 64 + 1) len (ep0_send port mem (memory addr) n s'))
                (sym e)
              ∙ h
              ∙ ap (λ k. some (tabulate k (λ i. mem (u32 (addr + i))), u)) e
              ∙ ap (λ t. some (t, u)) same),
          r,
        ),
      )
