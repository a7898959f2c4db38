-- ===== src/Boot/Tests.antt =====
-- The boot half on concrete inputs.
use nova_voyager_bootloader.Base.{
  ◌<◌, [], ◌∷◌, ℕ, zero, suc, ◌≡◌, ◌≢◌, ◌↔◌, ◌⊎◌, ◌==◌, if◌then◌else◌, refl, true, false, replicate,
  bit_and, arith,
}
use nova_voyager_bootloader.Usb.Regs.{UsbRegs}
use nova_voyager_bootloader.Usb.Ep0.{null}
use nova_voyager_bootloader.Usb.Sim.{silicon}
use nova_voyager_bootloader.Flash.Confined.{flash_of}
use nova_voyager_bootloader.Flash.Sim.{Sim, sim}
use nova_voyager_bootloader.Dfu.State.{dnload_idle, enter, Device}
use nova_voyager_bootloader.Dfu.Session.{zero_dfu}
use nova_voyager_bootloader.Usb.Pma.{pma_read, read_halfwords}
use nova_voyager_bootloader.Boot.Manifest.{AllQuiet, Keeps, dfu_loop-manifests}
use nova_voyager_bootloader.Boot.Startup.{Symbols, IsLinked, reset_handler}
use nova_voyager_bootloader.Boot.Startup.Memory.{reset_handler_lem}
use nova_voyager_bootloader.Boot.App.{app_valid, IsApp, app_valid_iff}
use nova_voyager_bootloader.Boot.Entry.{
  Machine, enters_dfu, decide, f1_button_pin, dfu_magic_value, decide_lem,
}
use nova_voyager_bootloader.Boot.Loop.{Resets, dfu_loop}

-- The top of 48 KB of RAM.
abbrev estack : ℕ
estack = 0x2000C000

-- Stack pointer 0x2000C000, reset vector 0x08003101.
abbrev image : ℕ → ℕ
image a =
    if a == 0x08003001
    then 0xC0
    else if a == 0x08003003
    then 0x20
    else if a == 0x08003004
    then 0x01
    else if a == 0x08003005
    then 0x31
    else if a == 0x08003007
    then 0x08
    else 0

app_valid_iff_example : (app_valid estack image ≡ true) ↔ IsApp estack image
app_valid_iff_example = app_valid_iff estack image

abbrev erased : ℕ → ℕ
erased a = 0xFF

-- The magic word is set.
abbrev machine : Machine
machine = record { rcc_apb2enr = 0; gpioc_crh = 0x44444444; gpioc_odr = 0; dfu_magic = 0x424C }

-- The pull-up holds PC10 high.
abbrev released : Machine → ℕ
released m = 0x400

decide_lem_example :
    let (next, m) = decide estack released image machine in
    ((next ≡ enters_dfu) ↔ (
      (bit_and 0x400 f1_button_pin ≡ 0)
      ⊎ ((0x424C ≡ dfu_magic_value) ⊎ (app_valid estack image ≡ false))))
    × (m.dfu_magic ≢ dfu_magic_value)
decide_lem_example = decide_lem estack released image machine

abbrev quiet : UsbRegs
quiet = record { ep0r = 0x3220; cntr = 0xBF00; istr = 0; daddr = 0x80; btable = 0; pma = λ a. 0 }

abbrev device : Device Sim
device = record {
  dfu = zero_dfu;
  ep0 = record {
    usb = quiet;
    ep0_tx_ptr = null;
    ep0_tx_remaining = 0;
    ep0_req_len = 0;
    ep0_tx_need_zlp = false;
    ep0_reply = replicate 8 0;
    pending_address = 0;
  };
  flash = record { control = 0x80; page = 0; bytes = λ x. 0xFF };
}

-- A SETUP packet in the receive buffer, given as four half-words.
abbrev setup : ℕ → ℕ → ℕ → ℕ → UsbRegs
setup a b c d = record {
  ep0r = 0xBA20;
  cntr = 0xBF00;
  istr = 0x8000;
  daddr = 0x80;
  btable = 0;
  pma = λ x.
      if x == 256
      then a
      else if x == 260
      then b
      else if x == 264
      then c
      else if x == 268
      then d
      else 0;
}

abbrev programmed : Device Sim
programmed = record device { dfu = enter dnload_idle zero_dfu }

quiet-AllQuiet : (n : ℕ) → AllQuiet (replicate n quiet)
quiet-AllQuiet zero = tt
quiet-AllQuiet (suc n) = (refl, quiet-AllQuiet n)

dfu_loop-manifests_example :
    let end =
      dfu_loop
        (flash_of sim)
        silicon
        (setup 0x0121 3 0 0 ∷ quiet ∷ setup 0x03A1 0 0 6 ∷ replicate 52 quiet)
        0
        programmed in
    Resets (flash_of sim) silicon 3 end × Keeps (flash_of sim) silicon programmed.flash end
unfolding pma_read read_halfwords
dfu_loop-manifests_example =
    dfu_loop-manifests (flash_of sim) silicon 3 (setup 0x0121 3 0 0) (quiet ∷ [])
      (setup 0x03A1 0 0 6) (replicate 52 quiet) programmed refl (refl, refl, refl, refl, refl, refl)
      (refl, tt) (refl, refl, refl, refl, refl, refl) (quiet-AllQuiet 52) (omega arith)

-- 16 bytes of .data and 2 KB of .bss.
abbrev symbols : Symbols
symbols = record {
  sidata = 0x08002800;
  sdata = 0x20000000;
  edata = 0x20000010;
  sbss = 0x20000010;
  ebss = 0x20000810;
}

symbols-IsLinked : IsLinked symbols
symbols-IsLinked = record {
  data_aligned = refl;
  bss_aligned = refl;
  in_ram = omega arith;
  data_order = omega arith;
  bss_after = omega arith;
  bss_order = omega arith;
  below_magic = omega arith;
  image_in_flash = omega arith;
}

image_byte : (y : ℕ) → image y < 256
image_byte y = ground arith

reset_handler_lem_example : reset_handler 512 symbols image 0x20000004 ≡ image 0x08002804
reset_handler_lem_example =
    reset_handler_lem 512 symbols image 0x20000004 symbols-IsLinked (omega arith) (omega arith)
      image_byte
