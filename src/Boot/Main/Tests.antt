-- ===== src/Boot/Main/Tests.antt =====
-- Whole boots on concrete inputs.
use nova_voyager_bootloader.Base.{
  ℕ, ◌≡◌, ◌≢◌, inl, inr, refl, true, false, [], replicate, Bool-cases, ◌==◌, if◌then◌else◌, arith,
}
use mathlib.Core.Bool.{false≢true}
use nova_voyager_bootloader.Usb.Ep0.{null}
use nova_voyager_bootloader.Usb.Sim.{silicon}
use nova_voyager_bootloader.Flash.Port.{FlashPort, Reg, ob_wrp0, ob_wrp1, ob_wrp2, ob_wrp3}
use nova_voyager_bootloader.Flash.Ops.{
  wait_loop, flash_wait, flash_unlock, flash_lock, cr_set, cr_clear,
}
use nova_voyager_bootloader.Flash.Options.{
  all_clear, wrp_is_clear, restore_rdp, rewrite_options, flash_disable_write_protection,
}
use nova_voyager_bootloader.Dfu.Session.{zero_dfu}
use nova_voyager_bootloader.Boot.App.{app_valid}
use nova_voyager_bootloader.Boot.Clock.{
  ClockPort, ClockReg, Build, rcc_cr, rcc_cfgr, flash_acr, clock_init,
}
use nova_voyager_bootloader.Boot.Clock.Poll.{clock_init_iff, reads}
use nova_voyager_bootloader.Boot.Entry.{Machine, enters_dfu, dfu_magic_value, decide, gpio_init}
use nova_voyager_bootloader.Boot.Main.{
  System, resets, machine_of, with_machine, set_clock, jump_to_app, enter_dfu_loop, boot_main,
}
use nova_voyager_bootloader.Boot.Main.Sound.{IsSound, boot_main-IsSound, boot_main-jump_to_app}
use nova_voyager_bootloader.Boot.Main.Reentry.{boot_main-reenters}

-- A controller that is never busy, whose write-protection bytes all read `wrp`, and stand for what
-- is stored in the last of them.
record Pages : Type 0 where
  wrp : ℕ
  bytes : ℕ → ℕ

abbrev value : Reg → Pages → ℕ
value ob_wrp0 d = d.wrp
value ob_wrp1 d = d.wrp
value ob_wrp2 d = d.wrp
value ob_wrp3 d = d.wrp
value _ d = 0

abbrev write : Reg → ℕ → Pages → Pages
write ob_wrp3 v d = record d { wrp = v }
write _ v d = d

abbrev pages : FlashPort Pages
pages = record {
  value = value;
  after = λ r d. d;
  write = write;
  program = λ a h d. d;
  byte = λ d. d.bytes;
  busy_for = λ d. 0;
  busy_falls = λ d h. absurd (false≢true h);
}

-- Clocks whose flags are always set, and clocks whose flags never are.
abbrev pub at_once : ClockReg → ℕ
at_once rcc_cr = 0x2020000
at_once rcc_cfgr = 0x08
at_once flash_acr = 0

abbrev pub live : ClockPort Unit
live = record { value = λ r c. at_once r; after = λ r c. c; write = λ r v c. c }

abbrev dead : ClockPort Unit
dead = record { value = λ r c. 0; after = λ r c. c; write = λ r v c. c }

abbrev pub production : Build
production = record { use_120mhz = false; hse_fail_test = false }

-- The top of 48 KB of RAM.
abbrev pub estack : ℕ
estack = 0x2000C000

-- Stack pointer 0x2000C000, reset vector 0x08003101.
abbrev image : ℕ → ℕ
image a =
    if a == 0x08003001
    then 0xC0
    else if a == 0x08003003
    then 0x20
    else if a == 0x08003004
    then 0x01
    else if a == 0x08003005
    then 0x31
    else if a == 0x08003007
    then 0x08
    else 0

-- The magic word is set and every page is write-protected.
abbrev protected : System Unit Pages
protected = record {
  dfu_magic = 0x424C;
  board = record {
    rcc_apb2enr = 0;
    rcc_apb1enr = 0;
    gpioa_crl = 0x44444444;
    gpioa_crh = 0x44444444;
    gpioa_odr = 0;
    gpioc_crh = 0x44444444;
    gpioc_odr = 0;
  };
  clock = tt;
  device = record {
    dfu = zero_dfu;
    ep0 = record {
      usb = record { ep0r = 0; cntr = 3; istr = 0; daddr = 0; btable = 0; pma = λ a. 0 };
      ep0_tx_ptr = null;
      ep0_tx_remaining = 0;
      ep0_req_len = 0;
      ep0_tx_need_zlp = false;
      ep0_reply = replicate 8 0;
      pending_address = 0;
    };
    flash = record { wrp = 0; bytes = image };
  };
}

-- The pull-up holds PC10 high.
abbrev pub released : Machine → ℕ
released m = 0x400

boot_main-IsSound_example :
    IsSound dead pages silicon production estack protected
      (boot_main dead pages silicon production estack released [] protected)
boot_main-IsSound_example =
    boot_main-IsSound dead pages silicon production estack released [] protected

clock_dead : (clock_init dead production tt).0 ≡ false
clock_dead = elim (Bool-cases (clock_init dead production tt).0) [
  | inr e ↦ e
  | inl e ↦ let (k, l, q) = ((clock_init_iff dead production tt).0 e).0 in absurd (omega (arith, q))
]

pub clock_alive : (clock_init live production tt).0 ≡ true
unfolding reads
clock_alive =
    (clock_init_iff live production tt).1
      ((0, omega arith, refl), (0, omega arith, refl), (0, omega arith, refl))

-- The magic word is set, but no crystal runs: the application starts.
boot_main-jump_to_app_example :
    boot_main dead pages silicon production estack released [] protected
    ≡ jump_to_app dead pages silicon production estack (
        set_clock dead pages silicon production estack
          (with_machine (decide estack released image (machine_of protected)).1 protected))
boot_main-jump_to_app_example =
    boot_main-jump_to_app dead pages silicon production estack released [] protected
      (omega arith, omega arith, omega arith, omega arith) (inr (inr clock_dead))

unprotects-pages : (flash_disable_write_protection pages protected.device.flash).0 ≡ true
unfolding flash_disable_write_protection wrp_is_clear all_clear rewrite_options restore_rdp
    flash_wait wait_loop flash_unlock flash_lock cr_set cr_clear
unprotects-pages = refl

-- The next boot.
abbrev again : System Unit Pages
again = record protected {
  device = record protected.device {
    flash = (flash_disable_write_protection pages protected.device.flash).1;
  };
}

asked : (decide estack released image (machine_of protected)).0 ≡ enters_dfu
unfolding decide gpio_init app_valid
asked = refl

boot_main-reenters_example :
    ((u : System Unit Pages) × (boot_main live pages silicon production estack released [] protected
        ≡ resets u)
      × (u.dfu_magic ≡ 0x424C)
      × (u.device.flash ≡ again.device.flash))
    × ((w : System Unit Pages) × (boot_main live pages silicon production estack released [] again
          ≡ enter_dfu_loop live pages silicon production estack [] w)
        × (w.dfu_magic ≢ dfu_magic_value))
boot_main-reenters_example =
    boot_main-reenters live pages silicon production estack released [] protected again
      (λ r s d h. refl) asked (refl, clock_alive) unprotects-pages (refl, clock_alive) refl
      (λ r h. refl)
