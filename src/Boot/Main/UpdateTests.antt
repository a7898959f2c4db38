-- ===== src/Boot/Main/UpdateTests.antt =====
-- A whole firmware update on concrete inputs.
use nova_voyager_bootloader.Base.{
  ℕ, zero, suc, ◌≡◌, refl, true, List, [], ◌∷◌, ◌++◌, replicate, arith,
}
use nova_voyager_bootloader.Usb.Regs.{UsbRegs}
use nova_voyager_bootloader.Usb.Pma.{pma_read, read_halfwords}
use nova_voyager_bootloader.Usb.Sim.{silicon}
use nova_voyager_bootloader.Flash.Options.{all_clear, wrp_is_clear}
use nova_voyager_bootloader.Flash.Sim.{Sim, sim, sim-IsWorking}
use nova_voyager_bootloader.Dfu.TestData.{received, blank}
use nova_voyager_bootloader.Dfu.Bus.{bus_reset, setup}
use nova_voyager_bootloader.Dfu.Host.{getstatus_packet}
use nova_voyager_bootloader.Boot.App.{app_valid}
use nova_voyager_bootloader.Boot.Entry.{Machine, enters_dfu, decide, gpio_init}
use nova_voyager_bootloader.Boot.Manifest.{AllQuiet}
use nova_voyager_bootloader.Boot.Update.{IsUpdate, updated}
use nova_voyager_bootloader.Boot.Main.{System, resets, jumps, machine_of, boot_main}
use nova_voyager_bootloader.Boot.Main.Update.{system_of, start_of, boot_main-updates}
use nova_voyager_bootloader.Boot.Main.Tests.{live, production, estack, clock_alive, released}

-- Stack pointer 0x2000C000, reset vector 0x08003101.
abbrev blocks : List (List (List ℕ))
blocks = ((0x00 ∷ 0xC0 ∷ 0x00 ∷ 0x20 ∷ 0x01 ∷ 0x31 ∷ 0x00 ∷ 0x08 ∷ []) ∷ []) ∷ []

abbrev dnload : ℕ → ℕ → UsbRegs
dnload block len = received 0xBA20 0 0x0121 block 0 len

abbrev getstatus : UsbRegs
getstatus = received 0xBA20 0 0x03A1 0 0 6

abbrev quiet : UsbRegs
quiet = record (received 0x3220 0 0 0 0 0) { istr = 0 }

-- The empty packet that ends a control read.
abbrev ended : UsbRegs
ended = received 0xB220 0 0 0 0 0

abbrev reset : UsbRegs
reset = record quiet { istr = 0x0400 }

-- A bus reset, GET_DESCRIPTOR, and SET_ADDRESS; then GETSTATUS; then the session, which erases the
-- page at 0x08003000, points there, and writes block 2.
abbrev session_rounds : List UsbRegs
session_rounds =
    reset
    ∷ received 0xBA20 0 0x0680 0x0100 0 64
    ∷ ended
    ∷ received 0xBA20 0 0x0500 5 0 0
    ∷ quiet
    ∷ getstatus
    ∷ ended
    ∷ dnload 0 5
    ∷ received 0xB220 5 0x0041 0x0030 0x0008 0
    ∷ getstatus
    ∷ ended
    ∷ getstatus
    ∷ ended
    ∷ quiet
    ∷ dnload 0 5
    ∷ received 0xB220 5 0x0021 0x0030 0x0008 0
    ∷ getstatus
    ∷ ended
    ∷ getstatus
    ∷ ended
    ∷ dnload 2 8
    ∷ received 0xB220 8 0xC000 0x2000 0x3101 0x0800
    ∷ getstatus
    ∷ ended
    ∷ getstatus
    ∷ ended
    ∷ []

abbrev still : List UsbRegs
still = ended ∷ replicate 51 quiet

abbrev bus : List UsbRegs
bus = session_rounds ++ (dnload 3 0 ∷ quiet ∷ getstatus ∷ still)

quiet-AllQuiet : (n : ℕ) → AllQuiet (replicate n quiet)
quiet-AllQuiet zero = tt
quiet-AllQuiet (suc n) = (refl, quiet-AllQuiet n)

bus-IsUpdate : IsUpdate 1 blocks bus 3
unfolding pma_read read_halfwords
bus-IsUpdate = record {
  payload = (
    (omega arith, tt),
    (
      omega arith,
      (
        omega arith,
        (
          omega arith,
          (omega arith, (omega arith, (omega arith, (omega arith, (omega arith, tt))))),
        ),
      ),
    ),
    omega arith,
    omega arith,
  );
  fits = omega arith;
  room = omega arith;
  rounds = session_rounds;
  block = 3;
  finish = dnload 3 0;
  status = getstatus;
  preamble = bus_reset ∷ setup getstatus_packet ∷ [];
  between = quiet ∷ [];
  still = still;
  split = refl;
  prepared = (refl, (refl, tt));
  heard = refl;
  finished = (refl, refl, refl, refl, refl, refl);
  asked = (refl, refl, refl, refl, refl, refl);
  pause = (refl, tt);
  quiet = (refl, quiet-AllQuiet 51);
  enough = refl;
}

-- Erased flash, and F1 is down.
abbrev start : System Unit Sim
start = record {
  dfu_magic = 0;
  board = record {
    rcc_apb2enr = 0;
    rcc_apb1enr = 0;
    gpioa_crl = 0x44444444;
    gpioa_crh = 0x44444444;
    gpioa_odr = 0;
    gpioc_crh = 0x44444444;
    gpioc_odr = 0;
  };
  clock = tt;
  device = blank;
}

abbrev held : Machine → ℕ
held m = 0

asks : (decide estack held (λ x. 0xFF) (machine_of start)).0 ≡ enters_dfu
unfolding decide gpio_init app_valid
asks = refl

clear : (wrp_is_clear sim start.device.flash).0 ≡ true
unfolding wrp_is_clear all_clear
clear = refl

-- The boot after it.
abbrev next : System Unit Sim
next =
    let end = system_of (boot_main live sim silicon production estack held bus start) in
    record start { dfu_magic = end.dfu_magic; device = end.device }

boot_main-updates_example :
    let end = boot_main live sim silicon production estack held bus start in
    let new = updated (λ x. 0xFF) 1 blocks in
    (end ≡ resets (system_of end))
    × ((x : ℕ) → sim.byte (system_of end).device.flash x ≡ new x)
    × ((u : System Unit Sim) × (boot_main live sim silicon production estack released [] next
          ≡ jumps (start_of new) u))
boot_main-updates_example =
    boot_main-updates live sim sim-IsWorking silicon production estack held released 1 blocks bus []
      3 start next asks (refl, clock_alive) clear
      (record { no_mer = refl; no_pg = refl; no_per = refl }) refl bus-IsUpdate
      (omega arith, omega arith, omega arith, omega arith) refl (λ x. refl) (λ h. omega (arith, h))
