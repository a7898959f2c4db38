-- ===== src/Boot/Main/Sound.antt =====
-- Where main of src/main.c may end, and that it starts a valid application whenever it should.
use nova_voyager_bootloader.Base.{
  ℕ, ◌+◌, ◌≡◌, ◌≢◌, ◌⊎◌, inl, inr, refl, sym, ap, ◌∙◌, Bool, true, false, List, bit_and, Bool-cases,
  arith,
}
use mathlib.Core.Bool.{false≢true}
use nova_voyager_bootloader.Usb.Regs.{UsbRegs, UsbPort}
use nova_voyager_bootloader.Flash.Port.{FlashPort}
use nova_voyager_bootloader.Flash.Options.{flash_disable_write_protection}
use nova_voyager_bootloader.Flash.Confined.{flash_of}
use nova_voyager_bootloader.Dfu.Session.{dfu_init}
use nova_voyager_bootloader.Boot.App.{app_valid, app_valid_iff, IsApp, app_address, word_at}
use nova_voyager_bootloader.Boot.Clock.{ClockPort, Build, clock_init}
use nova_voyager_bootloader.Boot.Entry.{
  Machine, Next, enters_dfu, starts_app, dfu_magic_value, decide, decide_lem, gpio_init,
  f1_button_pin,
}
use nova_voyager_bootloader.Boot.Loop.{Run, was_reset, running, dfu_loop}
use nova_voyager_bootloader.Boot.Main.{
  System, Ending, jumps, stops, resets, loops, machine_of, with_machine, jump_to_app,
  boot_app_or_stop, set_clock, ended, enter_dfu_loop, unprotect_and_loop, run_dfu_mode, boot_main,
}

pub Next-cases : (n : Next) → (n ≡ enters_dfu) ⊎ (n ≡ starts_app)
Next-cases enters_dfu = inl refl
Next-cases starts_app = inr refl

app_valid-starts :
    (estack : ℕ) (idr : Machine → ℕ) (mem : ℕ → ℕ) (m : Machine)
    → (decide estack idr mem m).0 ≡ starts_app
    → app_valid estack mem ≡ true
unfolding decide
app_valid-starts estack idr mem m h = ground arith

module _ {C D : Type 0} (clocks : ClockPort C) (flash : FlashPort D) (usb : UsbPort) (build : Build)
    (estack : ℕ) where
  abbrev pub clock_runs : System C D → Bool
  clock_runs s = (clock_init clocks build s.clock).0

  -- The USB half can run: this is the 72 MHz build, and the clock came up.
  abbrev pub CanDfu : System C D → Type 0
  CanDfu s = (build.use_120mhz ≡ false) × (clock_runs s ≡ true)

  -- An end that is right for a boot from `s` on: the core takes its vectors from a valid
  -- application and the device is as it was found; or there is none, and DFU is out of reach; or
  -- DFU mode was reached.
  abbrev pub IsSound : System C D → Ending C D → Type 0
  IsSound s (jumps core s') =
      IsApp estack (flash.byte s.device.flash)
      × (core.vtor ≡ app_address)
      × (core.msp ≡ word_at (flash.byte s.device.flash) app_address)
      × (core.pc ≡ word_at (flash.byte s.device.flash) (app_address + 4))
      × (s'.device ≡ s.device)
      × (s'.dfu_magic ≢ dfu_magic_value)
  IsSound s (stops s') =
      (app_valid estack (flash.byte s.device.flash) ≡ false)
      × ((build.use_120mhz ≡ true) ⊎ (clock_runs s ≡ false))
      × (s'.device ≡ s.device)
  IsSound s (resets s') = CanDfu s
  IsSound s (loops n s') = CanDfu s

  boot_app_or_stop-IsSound :
      (s t : System C D)
      → t.device ≡ s.device
      → t.dfu_magic ≢ dfu_magic_value
      → (build.use_120mhz ≡ true) ⊎ (clock_runs s ≡ false)
      → IsSound s (boot_app_or_stop clocks flash usb build estack t)
  unfolding boot_app_or_stop
  boot_app_or_stop-IsSound s t same n h =
      let mem = flash.byte s.device.flash in
      let q : flash.byte t.device.flash ≡ mem = ap (λ v. flash.byte v.flash) same in
      elim (Bool-cases (app_valid estack mem)) [
        | inl v ↦ rw (ap (app_valid estack) q ∙ v) (
          (app_valid_iff estack mem).0 v,
          refl,
          ap (λ k. word_at k app_address) q,
          ap (λ k. word_at k (app_address + 4)) q,
          same,
          n,
        )
        | inr v ↦ rw (ap (app_valid estack) q ∙ v) (v, h, same)
      ]

  ended-IsSound :
      (s t : System C D) (r : Run D)
      → CanDfu s
      → IsSound s (ended clocks flash usb build estack t r)
  ended-IsSound s t (was_reset left v) h = h
  ended-IsSound s t (running n v) h = h

  enter_dfu_loop-IsSound :
      (s t : System C D) (bus : List UsbRegs)
      → CanDfu s
      → IsSound s (enter_dfu_loop clocks flash usb build estack bus t)
  unfolding enter_dfu_loop
  enter_dfu_loop-IsSound s t bus h =
      let (b, v) = dfu_init (flash_of flash) usb t.board t.device in
      ended-IsSound s (record t { board = b }) (dfu_loop (flash_of flash) usb bus 0 v) h

  unprotect-IsSound :
      (s t : System C D) (bus : List UsbRegs)
      → CanDfu s
      → IsSound s (unprotect_and_loop clocks flash usb build estack bus t)
  unfolding unprotect_and_loop
  unprotect-IsSound s t bus h =
      elim (Bool-cases (flash_disable_write_protection flash t.device.flash).0) [
        | inl e ↦ rw (e, unprotect_and_loop) h
        | inr e ↦
            rw (e, unprotect_and_loop)
              (enter_dfu_loop-IsSound s
                (record t {
                  device = record t.device {
                    flash = (flash_disable_write_protection flash t.device.flash).1;
                  };
                })
                bus h)
      ]

  -- run_dfu_mode without USB, and with it.
  refuses :
      (bus : List UsbRegs) (s : System C D)
      → (build.use_120mhz ≡ true) ⊎ (clock_runs s ≡ false)
      → run_dfu_mode clocks flash usb build estack bus s
        ≡ boot_app_or_stop clocks flash usb build estack (set_clock clocks flash usb build estack s)
  unfolding run_dfu_mode
  refuses bus s (inl b) = simp b
  refuses bus s (inr k) = elim (Bool-cases build.use_120mhz) [
    | inl b ↦ simp b
    | inr b ↦ simp (b, k)
  ]

  pub proceeds :
      (bus : List UsbRegs) (s : System C D)
      → CanDfu s
      → run_dfu_mode clocks flash usb build estack bus s
        ≡ unprotect_and_loop clocks flash usb build estack bus
            (set_clock clocks flash usb build estack s)
  unfolding run_dfu_mode
  proceeds bus s (b, k) = simp (b, k)

  can_dfu : (s : System C D) → ((build.use_120mhz ≡ true) ⊎ (clock_runs s ≡ false)) ⊎ CanDfu s
  can_dfu s = ground arith

  run_dfu_mode-IsSound :
      (s : System C D) (m : Machine) (bus : List UsbRegs)
      → m.dfu_magic ≢ dfu_magic_value
      → IsSound s (run_dfu_mode clocks flash usb build estack bus (with_machine m s))
  run_dfu_mode-IsSound s m bus n = elim (can_dfu s) [
    | inl h ↦ rw (refuses bus (with_machine m s) h) (
        boot_app_or_stop-IsSound s (set_clock clocks flash usb build estack (with_machine m s)) refl
          n h)
    | inr h ↦
        rw (proceeds bus (with_machine m s) h)
          (unprotect-IsSound s (set_clock clocks flash usb build estack (with_machine m s)) bus h)
  ]

  -- However a boot ends, in either build, it ends right. If main jumps, then to the application,
  -- which is valid, with the vector table, the stack pointer and the entry that are the
  -- application's, the USB half and the flash as they were found, and no magic word left. If it
  -- stops, there is no valid application, the USB half and the flash are as they were found, and
  -- the clock had failed or the build cannot do USB. If it resets or reaches the DFU loop, this is
  -- the 72 MHz build, and the clock runs.
  pub boot_main-IsSound :
      (idr : Machine → ℕ) (bus : List UsbRegs) (s : System C D)
      → IsSound s (boot_main clocks flash usb build estack idr bus s)
  unfolding boot_main
  boot_main-IsSound idr bus s =
      let mem = flash.byte s.device.flash in
      let (e, n) = decide_lem estack idr mem (machine_of s) in
      elim (Next-cases (decide estack idr mem (machine_of s)).0) [
        | inl d ↦ rw (d, boot_main) (run_dfu_mode-IsSound s _ bus n)
        | inr a ↦
            rw (a, boot_main)
              (
                (app_valid_iff estack mem).0 (app_valid-starts estack idr mem (machine_of s) a),
                refl,
                refl,
                refl,
                refl,
                n,
              )
      ]

  -- If the application is valid, and F1 is up and the magic word is not set, or this is the 120
  -- MHz build, or the clock fails, then main jumps to the application, in the state that the entry
  -- decision and the clock set-up leave.
  pub boot_main-jump_to_app :
      (idr : Machine → ℕ) (bus : List UsbRegs) (s : System C D)
      → IsApp estack (flash.byte s.device.flash)
      → ((bit_and (idr (gpio_init (machine_of s))) f1_button_pin ≢ 0)
          × (s.dfu_magic ≢ dfu_magic_value))
        ⊎ ((build.use_120mhz ≡ true) ⊎ (clock_runs s ≡ false))
      → let m = (decide estack idr (flash.byte s.device.flash) (machine_of s)).1 in
        boot_main clocks flash usb build estack idr bus s
        ≡ jump_to_app clocks flash usb build estack
            (set_clock clocks flash usb build estack (with_machine m s))
  unfolding boot_main boot_app_or_stop
  boot_main-jump_to_app idr bus s app h =
      let mem = flash.byte s.device.flash in
      let v = (app_valid_iff estack mem).1 app in
      let m = (decide estack idr mem (machine_of s)).1 in
      elim (Next-cases (decide estack idr mem (machine_of s)).0) [
        | inr a ↦ rw (a, boot_main) refl
        | inl d ↦
            rw (d, boot_main)
              (refuses bus (with_machine m s) (out_of_reach v d) ∙ rw (v, boot_app_or_stop) refl)
      ]
    where
      out_of_reach :
          app_valid estack (flash.byte s.device.flash) ≡ true
          → (decide estack idr (flash.byte s.device.flash) (machine_of s)).0 ≡ enters_dfu
          → (build.use_120mhz ≡ true) ⊎ (clock_runs s ≡ false)
      out_of_reach v d =
          let asked = (decide_lem estack idr (flash.byte s.device.flash) (machine_of s)).0.0 d in
          elim h [
            | inr o ↦ o
            | inl (up, unset) ↦ elim asked [
              | inl z ↦ absurd (up z)
              | inr (inl z) ↦ absurd (unset z)
              | inr (inr z) ↦ absurd (false≢true (sym z ∙ v))
            ]
          ]
