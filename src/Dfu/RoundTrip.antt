-- ===== src/Dfu/RoundTrip.antt =====
-- What is downloaded is what an upload reads back, on a working flash controller.
use nova_voyager_bootloader.Base.{
  ℕ, ◌+◌, ◌-◌, ◌*◌, ◌/◌, ◌≤◌, ◌<◌, min, ◌≡◌, inl, refl, ap, ◌∙◌, some, List, [], ◌∷◌, length,
  get_or, tabulate, AllBytes, arith,
}
use mathlib.Core.Path.{subst}
use nova_voyager_bootloader.Usb.Regs.{UsbRegs, UsbPort, IsEndpointRegister}
use nova_voyager_bootloader.Usb.Ep0.{Ep0}
use nova_voyager_bootloader.Usb.Ep0.DataStage.{host_read}
use nova_voyager_bootloader.Flash.Region.{app_flash_end}
use nova_voyager_bootloader.Flash.Port.{FlashPort}
use nova_voyager_bootloader.Flash.Controller.{IsController}
use nova_voyager_bootloader.Flash.Confined.{flash_of}
use nova_voyager_bootloader.Flash.Working.{IsWorking, IsRested}
use nova_voyager_bootloader.Flash.Program.{padded, stored, IsErased}
use nova_voyager_bootloader.Dfu.State.{idle, dnload_idle, Device, app_start_address}
use nova_voyager_bootloader.Dfu.Requests.{handle_dfu_abort, block_address}
use nova_voyager_bootloader.Dfu.Dispatch.{handle_request}
use nova_voyager_bootloader.Dfu.Invariant.{get_or_byte}
use nova_voyager_bootloader.Dfu.Download.{concat}
use nova_voyager_bootloader.Dfu.Transfer.{AllDelivered, payloads}
use nova_voyager_bootloader.Dfu.Image.{downloaded, downloaded-stored}
use nova_voyager_bootloader.Dfu.Upload.{upload_packet, upload_block, tabulate-eq}

tabulate-get_or : (bytes : List ℕ) → tabulate (length bytes) (λ i. get_or bytes i 0) ≡ bytes
tabulate-get_or [] = refl
tabulate-get_or (b ∷ bs) = ap (◌∷◌ b) (tabulate-get_or bs)

-- The stored bytes, read back.
tabulate-stored :
    (m : ℕ → ℕ) (a : ℕ) (bytes : List ℕ)
    → tabulate (length bytes) (λ i. stored m a bytes (a + i)) ≡ bytes
tabulate-stored m a bytes =
    tabulate-eq (length bytes) _ _
      (λ i h. within i h ∙ ap (λ k. get_or bytes k 0) {x = a + i - a} {y = i} (omega arith))
    ∙ tabulate-get_or bytes
  where
    within : (i : ℕ) → i < length bytes → stored m a bytes (a + i) ≡ get_or bytes (a + i - a) 0
    within i h = ground arith

stored_byte :
    (m : ℕ → ℕ) (a : ℕ) (bytes : List ℕ) (x : ℕ)
    → AllBytes bytes
    → m x < 256
    → stored m a bytes x < 256
stored_byte m a bytes x b h = ground (arith, get_or_byte bytes (x - a) b)

module _ {D : Type 0} (flash : FlashPort D) {doc : IsController flash} (w : IsWorking flash doc)
    (port : UsbPort) (ep : IsEndpointRegister port) where
  -- An upload from an idle device whose flash holds `bytes`.
  read_back :
      (v : Device D) (block : ℕ) (bytes : List ℕ) (m : ℕ → ℕ)
      → v.dfu.context.state ≡ idle
      → v.dfu.dfuse_address_ptr ≡ app_start_address
      → 2 ≤ block
      → 0 < length bytes
      → length bytes ≤ 1024
      → app_start_address + (block - 2) * 1024 + length bytes ≤ app_flash_end + 1
      → AllBytes bytes
      → ((a : ℕ) → m a < 256)
      → ((x : ℕ) → flash.byte v.flash x ≡ stored m (app_start_address + (block - 2) * 1024) bytes x)
      → (u : Ep0) × (host_read port
            (flash.byte v.flash)
            (length bytes / 64 + 1)
            (length bytes)
            (handle_request (flash_of flash) port (upload_packet block (length bytes)) v).ep0
          ≡ some (bytes, u))
  read_back v block bytes m s p b lo hi fits ok low same =
      let addr = app_start_address + (block - 2) * 1024 in
      let a : block_address v.dfu block ≡ addr = omega arith in
      let (st, q, f, (u, h, r)) =
        upload_block (flash_of flash) port ep v block (length bytes) (inl s) b (omega arith)
          (omega arith, omega arith) (λ x. rw (same x) (stored_byte m addr bytes x ok (low x))) in
      let n : min (length bytes) (app_flash_end - block_address v.dfu block + 1) ≡ length bytes =
        omega arith in
      let there : tabulate (length bytes) (λ i. flash.byte v.flash (block_address v.dfu block + i))
          ≡ bytes =
        tabulate-eq (length bytes) _ _
          (λ i k. ap (λ c. flash.byte v.flash (c + i)) a ∙ same (addr + i))
        ∙ tabulate-stored m addr bytes in
      (
        u,
        subst
              (λ k.
                host_read port (flash.byte v.flash) (k / 64 + 1) (length bytes)
                  (handle_request (flash_of flash) port (upload_packet block (length bytes)) v).ep0
                ≡ some (tabulate k (λ i. flash.byte v.flash (block_address v.dfu block + i)), u))
              n h
            ∙ ap (λ l. some (l, u)) there,
      )

  -- A documented endpoint register, a working flash controller at rest, and an idle device with no
  -- command pending and the address pointer at the start of the application region. The host
  -- downloads a block of 1 to 1024 bytes, numbered 2 or more, to erased flash inside the region,
  -- and asks for the status twice: the device is then in dfuDNLOAD-IDLE. It sends ABORT, and
  -- uploads the block: it reads exactly the bytes that it has sent, from packets that are armed. No
  -- other byte of the flash is changed.
  pub download_upload :
      (v : Device D) (block : ℕ) (ps : List (List ℕ × UsbRegs))
      → AllDelivered ps
      → length v.dfu.dfu_buffer ≡ 1024
      → v.dfu.context.state ≡ idle
      → v.dfu.dfuse_cmd_pending ≡ 0
      → v.dfu.dfuse_address_ptr ≡ app_start_address
      → 2 ≤ block
      → 0 < length (concat (payloads ps))
      → length (concat (payloads ps)) ≤ 1024
      → app_start_address + (block - 2) * 1024 + length (concat (payloads ps)) ≤ app_flash_end + 1
      → AllBytes (concat (payloads ps))
      → IsRested flash v.flash
      → ((a : ℕ) → flash.byte v.flash a < 256)
      → IsErased
          (flash.byte v.flash)
          (app_start_address + (block - 2) * 1024)
          (app_start_address + (block - 2) * 1024 + padded (length (concat (payloads ps))))
      → let bytes = concat (payloads ps) in
        let addr = app_start_address + (block - 2) * 1024 in
        let end = downloaded flash port block ps v in
        let aborted = handle_dfu_abort (flash_of flash) port end in
        let asked =
          handle_request (flash_of flash) port (upload_packet block (length bytes)) aborted in
        (end.dfu.context.state ≡ dnload_idle)
        × ((u : Ep0) × (host_read port
                (flash.byte end.flash)
                (length bytes / 64 + 1)
                (length bytes)
                asked.ep0
              ≡ some (bytes, u)))
        × ((x : ℕ) → flash.byte end.flash x ≡ stored (flash.byte v.flash) addr bytes x)
  unfolding handle_dfu_abort
  download_upload v block ps h size s p t b lo hi fits ok rest low erased =
      let end = downloaded flash port block ps v in
      let (ready, m, rested) =
        downloaded-stored flash w port v block ps (inl s, t, p, size) h b lo hi fits ok rest
          erased in
      (
        ready.0,
        read_back (handle_dfu_abort (flash_of flash) port end) block (concat (payloads ps))
            (flash.byte v.flash) refl refl b lo hi fits ok low m,
        m,
      )
