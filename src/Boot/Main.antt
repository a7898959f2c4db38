-- ===== src/Boot/Main.antt =====
-- boot_app_or_stop, jump_to_app, run_dfu_mode and main of src/main.c: one boot, from the reset to
-- the jump, the stop, the next reset, or the loop.
pub mod Sound
pub mod Reentry
pub mod Update
mod Tests
mod UpdateTests
use nova_voyager_bootloader.Base.{
  ℕ, ◌+◌, ◌≡◌, ◌≢◌, ◌⊎◌, inl, inr, refl, Bool, true, false, List, not, if◌then◌else◌, ◌==◌,
  Bool-cases, arith,
}
use nova_voyager_bootloader.Usb.Regs.{UsbRegs, UsbPort}
use nova_voyager_bootloader.Usb.Init.{Board}
use nova_voyager_bootloader.Flash.Port.{FlashPort}
use nova_voyager_bootloader.Flash.Options.{flash_disable_write_protection}
use nova_voyager_bootloader.Flash.Confined.{flash_of}
use nova_voyager_bootloader.Dfu.State.{Device}
use nova_voyager_bootloader.Dfu.Session.{dfu_init}
use nova_voyager_bootloader.Boot.App.{app_valid, app_address, word_at}
use nova_voyager_bootloader.Boot.Clock.{ClockPort, Build, clock_init}
use nova_voyager_bootloader.Boot.Entry.{
  Machine, Next, enters_dfu, starts_app, dfu_magic_value, decide,
}
use nova_voyager_bootloader.Boot.Loop.{Run, was_reset, running, dfu_loop}

-- Everything that a boot touches: the magic word in RAM, the RCC and GPIO registers, the clock
-- registers, and the device of src/usb_dfu.c with its flash.
pub record System (C D : Type 0) : Type 0 where
  pub dfu_magic : ℕ
  pub board : Board
  pub clock : C
  pub device : Device D

-- The core after the jump.
pub record Core : Type 0 where
  pub vtor : ℕ
  pub msp : ℕ
  pub pc : ℕ

-- How a boot ends: in the application, in `while (1)`, in system_reset, or still in the DFU loop,
-- with its countdown, when the rounds that are given are over.
pub data Ending (C D : Type 0) : Type 0 where
  jumps : Core → System C D → Ending C D
  stops resets : System C D → Ending C D
  loops : ℕ → System C D → Ending C D

-- The part of the state that main's first half is about.
abbrev pub machine_of : {C D : Type 0} → System C D → Machine
machine_of s = record {
  rcc_apb2enr = s.board.rcc_apb2enr;
  gpioc_crh = s.board.gpioc_crh;
  gpioc_odr = s.board.gpioc_odr;
  dfu_magic = s.dfu_magic;
}

abbrev pub with_machine : {C D : Type 0} → Machine → System C D → System C D
with_machine m s = record s {
  dfu_magic = m.dfu_magic;
  board = record s.board {
    rcc_apb2enr = m.rcc_apb2enr;
    gpioc_crh = m.gpioc_crh;
    gpioc_odr = m.gpioc_odr;
  };
}

module _ {C D : Type 0} (clocks : ClockPort C) (flash : FlashPort D) (usb : UsbPort) (build : Build)
    (estack : ℕ) where
  -- The assembly of jump_to_app.
  abbrev pub jump_to_app : System C D → Ending C D
  jump_to_app s =
      let mem = flash.byte s.device.flash in
      jumps
        (record {
          vtor = app_address;
          msp = word_at mem app_address;
          pc = word_at mem (app_address + 4);
        })
        s

  unfoldable pub boot_app_or_stop : System C D → Ending C D
  boot_app_or_stop s =
      if app_valid estack (flash.byte s.device.flash) then jump_to_app s else stops s

  abbrev pub set_clock : System C D → System C D
  set_clock s = record s { clock = (clock_init clocks build s.clock).1 }

  -- What the loop's end means for the system.
  abbrev pub ended : System C D → Run D → Ending C D
  ended s (was_reset left v) = resets (record s { device = v })
  ended s (running count v) = loops count (record s { device = v })

  -- dfu_init and the loop, which takes what the bus makes of the peripheral before each round.
  unfoldable pub enter_dfu_loop : List UsbRegs → System C D → Ending C D
  enter_dfu_loop bus s =
      let (b, v) = dfu_init (flash_of flash) usb s.board s.device in
      ended (record s { board = b }) (dfu_loop (flash_of flash) usb bus 0 v)

  -- From the write protection on.
  unfoldable pub unprotect_and_loop : List UsbRegs → System C D → Ending C D
  unprotect_and_loop bus s =
      let (reprogrammed, f) = flash_disable_write_protection flash s.device.flash in
      let s1 = record s { device = record s.device { flash = f } } in
      elim reprogrammed [
        | true ↦ resets (record s1 { dfu_magic = dfu_magic_value })
        | false ↦ enter_dfu_loop bus s1
      ]

  unfoldable pub run_dfu_mode : List UsbRegs → System C D → Ending C D
  run_dfu_mode bus s =
      let (ok, c) = clock_init clocks build s.clock in
      let s1 = record s { clock = c } in
      let refused = boot_app_or_stop s1 in
      if build.use_120mhz
      then refused
      else elim ok [ false ↦ refused | true ↦ unprotect_and_loop bus s1 ]

  -- `idr` is what GPIOC_IDR reads, given the configuration.
  unfoldable pub boot_main : (Machine → ℕ) → List UsbRegs → System C D → Ending C D
  boot_main idr bus s =
      let (next, m) = decide estack idr (flash.byte s.device.flash) (machine_of s) in
      let s1 = with_machine m s in
      elim next [ enters_dfu ↦ run_dfu_mode bus s1 | starts_app ↦ jump_to_app (set_clock s1) ]
