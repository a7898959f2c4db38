-- ===== src/Dfu/Host/Readback.antt =====
-- A host that reads back what it has programmed: a session, an ABORT, and an UPLOAD.
use nova_voyager_bootloader.Base.{
  ℕ, ◌+◌, ◌-◌, ◌*◌, ◌/◌, ◌≤◌, ◌<◌, min, ◌≡◌, inl, refl, sym, ap, ◌∙◌, some, List, [], ◌∷◌, ◌++◌,
  tabulate, u32, arith,
}
use mathlib.Core.Path.{subst}
use nova_voyager_bootloader.Usb.Regs.{UsbRegs, UsbPort, IsEndpointRegister}
use nova_voyager_bootloader.Usb.Ep0.{Ep0}
use nova_voyager_bootloader.Usb.Ep0.DataStage.{host_read}
use nova_voyager_bootloader.Flash.Region.{InApp, app_flash_end}
use nova_voyager_bootloader.Flash.Port.{FlashPort}
use nova_voyager_bootloader.Flash.Controller.{IsController}
use nova_voyager_bootloader.Flash.Confined.{flash_of}
use nova_voyager_bootloader.Flash.Working.{IsWorking}
use nova_voyager_bootloader.Dfu.State.{idle, Dfu, Device, app_start_address}
use nova_voyager_bootloader.Dfu.Requests.{block_address}
use nova_voyager_bootloader.Dfu.Dispatch.{handle_request}
use nova_voyager_bootloader.Dfu.Image.{place}
use nova_voyager_bootloader.Dfu.Upload.{upload_packet, tabulate-eq, upload_block}
use nova_voyager_bootloader.Dfu.Bus.{
  setup, all_heard, telling, aborted, requested, requested_by, serve, serve_all,
}
use nova_voyager_bootloader.Dfu.Bus.Refinement.{view, polls, polls-telling, serve_all-append}
use nova_voyager_bootloader.Dfu.Host.{Op, session, Target, effects, Meets, AllFit}
use nova_voyager_bootloader.Dfu.Host.Memory.{session-Meets}
use nova_voyager_bootloader.Dfu.Host.{abort_packet}

module _ {D : Type 0} (flash : FlashPort D) {doc : IsController flash} (w : IsWorking flash doc)
    (port : UsbPort) (ep : IsEndpointRegister port) where
  -- After the ABORT the device is idle, with the address pointer at the start of the region.
  abbrev Aborts : (ℕ → ℕ) → Dfu × D → Type 0
  Aborts m (d, f) =
      (d.context.state ≡ idle)
      × (d.dfuse_address_ptr ≡ app_start_address)
      × ((x : ℕ) → flash.byte f x ≡ m x)

  session-Aborts :
      (os : List Op) (t : Target) (d : Dfu) (f : D)
      → Meets flash t d f
      → AllFit os t
      → Aborts
          (effects os t).memory
          (serve_all (flash_of flash) (session os ++ (setup abort_packet ∷ [])) d f)
  unfolding serve_all serve requested_by requested aborted
  session-Aborts os t d f m fit =
      rw (serve_all-append (flash_of flash) (session os) (setup abort_packet ∷ []) d f)
        (refl, refl, (session-Meets flash w os t d f m fit).0.same)

  -- On a documented endpoint register, a host that has programmed the flash by a session, between
  -- whose events empty packets, requests other than the DFU ones and GETSTATE may lie, sends an
  -- ABORT, asks for a block in the application region by an UPLOAD, and fetches the packets that
  -- are armed until the data stage ends. It reads exactly what its own memory holds there after the
  -- session: the bytes it asked for, or those up to the end of the region if they are fewer.
  pub handle_request-reads_back :
      (os : List Op) (t : Target) (rs : List UsbRegs) (v : Device D) (block len : ℕ)
      → telling (all_heard rs) ≡ session os ++ (setup abort_packet ∷ [])
      → Meets flash t v.dfu v.flash
      → AllFit os t
      → ((x : ℕ) → (effects os t).memory x < 256)
      → 2 ≤ block
      → len < 65536
      → InApp (place block)
      → let end = polls (flash_of flash) port rs v in
        let n = min len (app_flash_end - place block + 1) in
        let asked = handle_request (flash_of flash) port (upload_packet block len) end in
        (u : Ep0) × (host_read port (flash.byte end.flash) (n / 64 + 1) len asked.ep0
          ≡ some (tabulate n (λ i. (effects os t).memory (place block + i)), u))
        × (asked.flash ≡ end.flash)
  handle_request-reads_back os t rs v block len heard m fit low b short inside =
      let end = polls (flash_of flash) port rs v in
      let memory = (effects os t).memory in
      let a : Aborts memory (view (flash_of flash) port end) =
        subst (Aborts memory)
          (sym (
            polls-telling (flash_of flash) port rs v (session os ++ (setup abort_packet ∷ []))
              heard))
          (session-Aborts os t v.dfu v.flash m fit) in
      let at : block_address end.dfu block ≡ place block =
        ap (λ p. u32 (p + (block - 2) * 1024)) a.1 ∙ omega (arith, inside) in
      let (x, y, z, (u, h, r)) =
        upload_block (flash_of flash) port ep end block len (inl a.0) b short (rw at inside)
          (λ k. rw (a.2 k) (low k)) in
      let n = min len (app_flash_end - place block + 1) in
      let asked = handle_request (flash_of flash) port (upload_packet block len) end in
      (
        u,
        subst
              (λ p.
                let k = min len (app_flash_end - p + 1) in
                host_read port (flash.byte end.flash) (k / 64 + 1) len asked.ep0
                ≡ some (tabulate k (λ i. flash.byte end.flash (p + i)), u))
              at h
            ∙ ap (λ l. some (l, u)) (tabulate-eq n _ _ (λ i k. a.2 (place block + i))),
        z,
      )
