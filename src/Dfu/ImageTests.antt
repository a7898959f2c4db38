-- ===== src/Dfu/ImageTests.antt =====
-- Uploads, and whole downloads on a working controller, on concrete inputs.
use nova_voyager_bootloader.Base.{ℕ, List, ◌≡◌, inl, refl, [], ◌∷◌, arith}
use nova_voyager_bootloader.Usb.Regs.{UsbRegs}
use nova_voyager_bootloader.Usb.Pma.{pma_read, read_halfwords}
use nova_voyager_bootloader.Usb.Sim.{silicon, silicon-IsEndpointRegister}
use nova_voyager_bootloader.Flash.Sim.{sim, sim-IsWorking}
use nova_voyager_bootloader.Dfu.Upload.{upload_packet, upload_block}
use nova_voyager_bootloader.Dfu.RoundTrip.{download_upload}
use nova_voyager_bootloader.Dfu.Image.{downloaded}
use nova_voyager_bootloader.Dfu.Dispatch.{handle_request}
use nova_voyager_bootloader.Dfu.Requests.{handle_dfu_abort}
use nova_voyager_bootloader.Flash.Program.{stored}
use nova_voyager_bootloader.Usb.Ep0.{Ep0}
use nova_voyager_bootloader.Usb.Ep0.DataStage.{host_read}
use nova_voyager_bootloader.Base.{tabulate, some}
use nova_voyager_bootloader.Dfu.State.{upload_idle, dnload_idle}
use nova_voyager_bootloader.Dfu.TestData.{flash, received, ready}

-- 100 bytes of block 2, from erased flash.
upload_block_example :
    let w = handle_request flash silicon (upload_packet 2 100) ready in
    (w.dfu.context.state ≡ upload_idle)
    × (w.dfu.dfuse_address_ptr ≡ 0x08003000)
    × (w.flash ≡ ready.flash)
    × ((u : Ep0) × (host_read silicon (λ a. 0xFF) 2 100 w.ep0 ≡ some (tabulate 100 (λ i. 0xFF), u))
        × (u.ep0_tx_remaining ≡ 0))
upload_block_example =
    upload_block flash silicon silicon-IsEndpointRegister ready 2 100 (inl refl) (omega arith)
      (omega arith) (omega arith, omega arith) (λ a. omega arith)

abbrev four : List (List ℕ × UsbRegs)
four = (1 ∷ 2 ∷ 3 ∷ 4 ∷ [], received 0xB220 4 0x0201 0x0403 0 0) ∷ []

-- Four bytes for block 3, and back.
download_upload_example :
    let end = downloaded sim silicon 3 four ready in
    let asked =
      handle_request flash silicon (upload_packet 3 4) (handle_dfu_abort flash silicon end) in
    (end.dfu.context.state ≡ dnload_idle)
    × ((u : Ep0) × (host_read silicon (sim.byte end.flash) 1 4 asked.ep0
          ≡ some (1 ∷ 2 ∷ 3 ∷ 4 ∷ [], u)))
    × ((x : ℕ) → sim.byte end.flash x ≡ stored (λ a. 0xFF) 0x08003400 (1 ∷ 2 ∷ 3 ∷ 4 ∷ []) x)
unfolding pma_read read_halfwords
download_upload_example =
    download_upload sim sim-IsWorking silicon silicon-IsEndpointRegister ready 3 four
      ((refl, refl), omega arith, tt) refl refl refl refl (omega arith) (omega arith) (omega arith)
      (omega arith) (omega arith, (omega arith, (omega arith, (omega arith, tt))))
      (record { no_mer = refl; no_pg = refl; no_per = refl }) (λ a. omega arith) (λ x l h. refl)
