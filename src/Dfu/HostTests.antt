-- ===== src/Dfu/HostTests.antt =====
-- Sessions of host operations on a concrete device.
use nova_voyager_bootloader.Base.{ℕ, ◌<◌, ◌≡◌, inl, refl, List, [], ◌∷◌, arith}
use nova_voyager_bootloader.Usb.Regs.{UsbRegs}
use nova_voyager_bootloader.Usb.Pma.{pma_read, read_halfwords}
use nova_voyager_bootloader.Usb.Sim.{silicon, silicon-IsEndpointRegister}
use nova_voyager_bootloader.Flash.Sim.{sim, sim-IsWorking}
use nova_voyager_bootloader.Dfu.State.{dnload_idle}
use nova_voyager_bootloader.Dfu.Bus.{setup, serve_all}
use nova_voyager_bootloader.Dfu.Bus.Refinement.{view, polls, polls-serve_all}
use nova_voyager_bootloader.Dfu.Host.{
  Op, erase_page, write_block, Target, effects, Meets, dnload_packet,
}
use nova_voyager_bootloader.Dfu.Host.Memory.{polls-Meets}
use nova_voyager_bootloader.Base.{some}
use nova_voyager_bootloader.Dfu.Dispatch.{handle_request}
use nova_voyager_bootloader.Dfu.State.{error, err_erase}
use nova_voyager_bootloader.Dfu.Host.Refusal.{polls-refuses}
use nova_voyager_bootloader.Base.{◌++◌}
use nova_voyager_bootloader.Usb.Ep0.{Ep0}
use nova_voyager_bootloader.Usb.Ep0.DataStage.{host_read}
use nova_voyager_bootloader.Dfu.Upload.{upload_packet}
use nova_voyager_bootloader.Dfu.Host.Readback.{handle_request-reads_back}
use nova_voyager_bootloader.Dfu.Host.{AllFit}
use nova_voyager_bootloader.Dfu.TestData.{flash, received, ready}

-- The SETUP packets of a DNLOAD and of a GETSTATUS, and the packet of a command.
abbrev dnload : ℕ → ℕ → UsbRegs
dnload block len = received 0xBA20 0 0x0121 block 0 len

abbrev getstatus : UsbRegs
getstatus = received 0xBA20 0 0x03A1 0 0 6

-- The empty packet that ends a control read.
abbrev ended : UsbRegs
ended = received 0xB220 0 0 0 0 0

-- 0x41 for the page at 0x08003000, and four bytes for block 3.
abbrev rounds : List UsbRegs
rounds =
    dnload 0 5
    ∷ received 0xB220 5 0x0041 0x0030 0x0008 0
    ∷ getstatus
    ∷ ended
    ∷ getstatus
    ∷ ended
    ∷ dnload 3 4
    ∷ received 0xB220 4 0x0201 0x0403 0 0
    ∷ received 0x3220 0 0 0 0 0
    ∷ getstatus
    ∷ ended
    ∷ getstatus
    ∷ ended
    ∷ []

abbrev ops : List Op
ops = erase_page 0x08003000 ∷ write_block 3 ((1 ∷ 2 ∷ 3 ∷ 4 ∷ []) ∷ []) ∷ []

abbrev target : Target
target = record { pointer = 0x08003000; memory = λ x. 0xFF }

polls-serve_all_example :
    view flash silicon (polls flash silicon (dnload 3 4 ∷ []) ready)
    ≡ serve_all flash (setup (dnload_packet 3 4) ∷ []) ready.dfu ready.flash
unfolding pma_read read_halfwords
polls-serve_all_example = polls-serve_all flash silicon (dnload 3 4 ∷ []) ready

ready-Meets : Meets sim target ready.dfu ready.flash
ready-Meets = record {
  free = record { state = inl refl; status = refl; pointer = refl; pending = refl; size = refl };
  rested = record { no_mer = refl; no_pg = refl; no_per = refl };
  same = λ x. refl;
}

ops-AllFit : AllFit ops target
ops-AllFit = (
  (omega arith, omega arith),
  (
    record {
      packets = (omega arith, tt);
      bytes = (omega arith, (omega arith, (omega arith, (omega arith, tt))));
      block_lo = omega arith;
      some = omega arith;
      most = omega arith;
      even = refl;
      lo = omega arith;
      hi = omega arith;
      erased = λ x l k. ground arith;
    },
    tt,
  ),
)

polls-Meets_example :
    let w = polls flash silicon rounds ready in
    Meets sim (effects ops target) w.dfu w.flash × (◌<◌ 0 2 → w.dfu.context.state ≡ dnload_idle)
unfolding pma_read read_halfwords
polls-Meets_example =
    polls-Meets sim sim-IsWorking silicon ops target rounds ready refl ready-Meets ops-AllFit

-- An erase of the settings page, at 0x0803F800.
polls-refuses_example :
    let w =
      polls flash silicon
        (dnload 0 5
          ∷ received 0xB220 5 0x0041 0x03F8 0x0008 0
          ∷ getstatus
          ∷ ended
          ∷ getstatus
          ∷ ended
          ∷ [])
        ready in
    let u = polls flash silicon (received 0xBA20 0 0x0421 0 0 0 ∷ []) w in
    (w.dfu.context.state ≡ error)
    × (w.dfu.context.status ≡ err_erase)
    × (w.flash ≡ ready.flash)
    × Meets sim target u.dfu u.flash
unfolding pma_read read_halfwords
polls-refuses_example =
    polls-refuses sim silicon (erase_page 0x0803F800) target
      (dnload 0 5
        ∷ received 0xB220 5 0x0041 0x03F8 0x0008 0
        ∷ getstatus
        ∷ ended
        ∷ getstatus
        ∷ ended
        ∷ [])
      (received 0xBA20 0 0x0421 0 0 0 ∷ []) ready ready-Meets (omega arith, λ h. omega arith) refl
      refl

-- The four bytes of block 3 are read back.
memory_byte : (x : ℕ) → (effects ops target).memory x < 256
memory_byte x = ground arith

handle_request-reads_back_example :
    let end = polls flash silicon (rounds ++ (received 0xBA20 0 0x0621 0 0 0 ∷ [])) ready in
    let asked = handle_request flash silicon (upload_packet 3 4) end in
    (u : Ep0) × (host_read silicon (sim.byte end.flash) 1 4 asked.ep0
      ≡ some (1 ∷ 2 ∷ 3 ∷ 4 ∷ [], u))
    × (asked.flash ≡ end.flash)
unfolding pma_read read_halfwords
handle_request-reads_back_example =
    handle_request-reads_back sim sim-IsWorking silicon silicon-IsEndpointRegister ops target
      (rounds ++ (received 0xBA20 0 0x0621 0 0 0 ∷ [])) ready 3 4 refl ready-Meets ops-AllFit
      memory_byte (omega arith) (omega arith) (omega arith, omega arith)
