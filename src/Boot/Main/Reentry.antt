-- ===== src/Boot/Main/Reentry.antt =====
-- The reset after the option bytes are reprogrammed: the boot that follows it.
use nova_voyager_bootloader.Base.{ℕ, ◌≡◌, ◌≢◌, inl, inr, refl, sym, ◌∙◌, Bool, true, false, List}
use nova_voyager_bootloader.Usb.Regs.{UsbRegs, UsbPort}
use nova_voyager_bootloader.Flash.Port.{FlashPort}
use nova_voyager_bootloader.Flash.Options.{flash_disable_write_protection}
use nova_voyager_bootloader.Flash.Settled.{
  ReadsKeep, Agrees, flash_disable_write_protection_settles,
}
use nova_voyager_bootloader.Boot.Clock.{ClockPort, Build}
use nova_voyager_bootloader.Boot.Entry.{Machine, enters_dfu, dfu_magic_value, decide, decide_lem}
use nova_voyager_bootloader.Boot.Main.{
  System, resets, machine_of, with_machine, set_clock, enter_dfu_loop, unprotect_and_loop,
  boot_main,
}
use nova_voyager_bootloader.Boot.Main.Sound.{CanDfu, proceeds}

module _ {C D : Type 0} (clocks : ClockPort C) (flash : FlashPort D) (usb : UsbPort) (build : Build)
    (estack : ℕ) where
  abbrev pub unprotects : System C D → Bool
  unprotects s = (flash_disable_write_protection flash s.device.flash).0

  -- A boot that enters DFU mode.
  pub enters :
      (idr : Machine → ℕ) (bus : List UsbRegs) (s : System C D)
      → (decide estack idr (flash.byte s.device.flash) (machine_of s)).0 ≡ enters_dfu
      → CanDfu clocks flash usb build estack s
      → let m = (decide estack idr (flash.byte s.device.flash) (machine_of s)).1 in
        boot_main clocks flash usb build estack idr bus s
        ≡ unprotect_and_loop clocks flash usb build estack bus
            (set_clock clocks flash usb build estack (with_machine m s))
  unfolding boot_main
  enters idr bus s d h =
      rw (d, boot_main) (proceeds clocks flash usb build estack bus (with_machine _ s) h)

  reprograms :
      (bus : List UsbRegs) (s : System C D)
      → unprotects s ≡ true
      → (u : System C D) × (unprotect_and_loop clocks flash usb build estack bus s ≡ resets u)
        × (u.dfu_magic ≡ dfu_magic_value)
        × (u.device.flash ≡ (flash_disable_write_protection flash s.device.flash).1)
  unfolding unprotect_and_loop
  reprograms bus s e = rw (e, unprotect_and_loop) (_, refl, refl, refl)

  leaves_alone :
      (bus : List UsbRegs) (s : System C D)
      → unprotects s ≡ false
      → (u : System C D) × (unprotect_and_loop clocks flash usb build estack bus s
          ≡ enter_dfu_loop clocks flash usb build estack bus u)
        × (u.dfu_magic ≡ s.dfu_magic)
  unfolding unprotect_and_loop
  leaves_alone bus s e = rw (e, unprotect_and_loop) (_, refl, refl)

  -- A boot of the 72 MHz build enters DFU mode with its clock running, and lifts the write
  -- protection: it ends in a reset, with the magic word set, in `u`. Let `t` be a boot after it,
  -- with the magic word and the write-protection bytes as `u` has them, and with its clock
  -- running; reading a register changes no write-protection byte. Then `t` goes into the DFU loop,
  -- whatever F1 and the application's vectors read, it does not reset for the write protection
  -- again, and the magic word is gone.
  pub boot_main-reenters :
      (idr : Machine → ℕ) (bus : List UsbRegs) (s t : System C D)
      → ReadsKeep flash
      → (decide estack idr (flash.byte s.device.flash) (machine_of s)).0 ≡ enters_dfu
      → CanDfu clocks flash usb build estack s
      → unprotects s ≡ true
      → CanDfu clocks flash usb build estack t
      → t.dfu_magic ≡ dfu_magic_value
      → Agrees flash (flash_disable_write_protection flash s.device.flash).1 t.device.flash
      → ((u : System C D) × (boot_main clocks flash usb build estack idr bus s ≡ resets u)
          × (u.dfu_magic ≡ t.dfu_magic)
          × (u.device.flash ≡ (flash_disable_write_protection flash s.device.flash).1))
        × ((w : System C D) × (boot_main clocks flash usb build estack idr bus t
              ≡ enter_dfu_loop clocks flash usb build estack bus w)
            × (w.dfu_magic ≢ dfu_magic_value))
  boot_main-reenters idr bus s t keep d h e k magic same =
      let m = (decide estack idr (flash.byte s.device.flash) (machine_of s)).1 in
      let (u, q, a, f) =
        reprograms bus (set_clock clocks flash usb build estack (with_machine m s)) e in
      let (chosen, gone) = decide_lem estack idr (flash.byte t.device.flash) (machine_of t) in
      let n = (decide estack idr (flash.byte t.device.flash) (machine_of t)).1 in
      let (w, l, z) =
        leaves_alone bus (set_clock clocks flash usb build estack (with_machine n t)) (
          flash_disable_write_protection_settles flash keep s.device.flash t.device.flash e same) in
      (
        (u, enters idr bus s d h ∙ q, a ∙ sym magic, f),
        (w, enters idr bus t (chosen.1 (inr (inl magic))) k ∙ l, λ y. gone (sym z ∙ y)),
      )
