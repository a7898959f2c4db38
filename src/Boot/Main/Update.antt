-- ===== src/Boot/Main/Update.antt =====
-- A firmware update from one boot to the next: main of src/main.c in DFU mode, the reset at the end
-- of the download, and the boot into the new application.
use nova_voyager_bootloader.Base.{
  ℕ, ◌+◌, ◌≡◌, ◌≢◌, inl, refl, sym, ap, ◌∙◌, true, false, List, length, bit_and,
}
use nova_voyager_bootloader.Usb.Regs.{UsbRegs, UsbPort}
use nova_voyager_bootloader.Flash.Port.{FlashPort}
use nova_voyager_bootloader.Flash.Controller.{IsController}
use nova_voyager_bootloader.Flash.Options.{wrp_is_clear, flash_disable_write_protection}
use nova_voyager_bootloader.Flash.Confined.{flash_of}
use nova_voyager_bootloader.Flash.Working.{IsWorking, IsRested}
use nova_voyager_bootloader.Flash.Unprotected.{Rests, flash_disable_write_protection-Rests}
use nova_voyager_bootloader.Dfu.State.{app_start_address}
use nova_voyager_bootloader.Dfu.Session.{init_dfu, dfu_init}
use nova_voyager_bootloader.Dfu.Host.{Target, Meets}
use nova_voyager_bootloader.Boot.App.{IsApp, app_address, word_at}
use nova_voyager_bootloader.Boot.Clock.{ClockPort, Build}
use nova_voyager_bootloader.Boot.Entry.{
  Machine, enters_dfu, decide, decide_lem, gpio_init, f1_button_pin,
}
use nova_voyager_bootloader.Boot.Loop.{Run, was_reset, running, dfu_loop}
use nova_voyager_bootloader.Boot.Update.{IsUpdate, updated, ResetsWith, dfu_loop-ResetsWith}
use nova_voyager_bootloader.Boot.Main.{
  System, Core, Ending, jumps, stops, resets, loops, machine_of, with_machine, set_clock, ended,
  enter_dfu_loop, unprotect_and_loop, boot_main,
}
use nova_voyager_bootloader.Boot.Main.Sound.{CanDfu, boot_main-jump_to_app}
use nova_voyager_bootloader.Boot.Main.Reentry.{enters}

-- The state in which a boot ends.
abbrev pub system_of : {C D : Type 0} → Ending C D → System C D
system_of (jumps core s) = s
system_of (stops s) = s
system_of (resets s) = s
system_of (loops count s) = s

-- The core at the start of the application in the memory `m`.
abbrev pub start_of : (ℕ → ℕ) → Core
start_of m = record {
  vtor = app_address;
  msp = word_at m app_address;
  pc = word_at m (app_address + 4);
}

word_at-cong : (m m' : ℕ → ℕ) (a : ℕ) → ((x : ℕ) → m x ≡ m' x) → word_at m a ≡ word_at m' a
word_at-cong m m' a h = rw (h a, h (a + 1), h (a + 2), h (a + 3)) refl

module _ {C D : Type 0} (clocks : ClockPort C) (flash : FlashPort D) {doc : IsController flash}
    (w : IsWorking flash doc) (usb : UsbPort) (build : Build) (estack : ℕ) where
  -- The run of the loop ends in a reset, with the bytes `m`.
  ended-resets :
      (s : System C D) (left : ℕ) (m : ℕ → ℕ) (run : Run D)
      → ResetsWith flash w usb left m run
      → let end = ended clocks flash usb build estack s run in
        (end ≡ resets (system_of end))
        × ((x : ℕ) → flash.byte (system_of end).device.flash x ≡ m x)
        × ((system_of end).dfu_magic ≡ s.dfu_magic)
  ended-resets s left m (was_reset rs v) h = (refl, h.1, refl)
  ended-resets s left m (running count v) h = absurd h

  -- dfu_init makes the device ready for an update.
  enter_dfu_loop-updates :
      (s : System C D) (n : ℕ) (blocks : List (List (List ℕ))) (bus : List UsbRegs) (left : ℕ)
      (m : ℕ → ℕ)
      → IsUpdate n blocks bus left
      → Rests flash w m s.device.flash
      → length s.device.dfu.dfu_buffer ≡ 1024
      → let end = enter_dfu_loop clocks flash usb build estack bus s in
        (end ≡ resets (system_of end))
        × ((x : ℕ) → flash.byte (system_of end).device.flash x ≡ updated m n blocks x)
        × ((system_of end).dfu_magic ≡ s.dfu_magic)
  unfolding enter_dfu_loop dfu_init init_dfu
  enter_dfu_loop-updates s n blocks bus left m u r size =
      let (b, v) = dfu_init (flash_of flash) usb s.board s.device in
      let t : Target = record { pointer = app_start_address; memory = m } in
      let ready : Meets flash t v.dfu v.flash = record {
        free = record {
          state = inl refl;
          status = refl;
          pointer = refl;
          pending = refl;
          size = size;
        };
        rested = r.rested;
        same = r.same;
      } in
      ended-resets (record s { board = b }) left (updated m n blocks)
        (dfu_loop (flash_of flash) usb bus 0 v)
        (dfu_loop-ResetsWith flash w usb n blocks bus left t v u refl ready)

  unprotected :
      (bus : List UsbRegs) (s : System C D)
      → (flash_disable_write_protection flash s.device.flash).0 ≡ false
      → unprotect_and_loop clocks flash usb build estack bus s
        ≡ enter_dfu_loop clocks flash usb build estack bus (record s {
          device = record s.device {
            flash = (flash_disable_write_protection flash s.device.flash).1;
          };
        })
  unfolding unprotect_and_loop
  unprotected bus s e = rw (e, unprotect_and_loop) refl

  -- A firmware update. On a working flash controller at rest, without write protection, a boot in
  -- the 72 MHz build enters DFU mode and its clock comes up. The bus then brings an update: after
  -- any bus resets and GETSTATUS, CLRSTATUS and ABORT requests, the host erases the first `n` pages
  -- of the application region, sets the address pointer to its start, writes a firmware that fits
  -- there in blocks, each operation with its two status requests, sends a DNLOAD of no bytes and a
  -- GETSTATUS, and then no DFU request for 49 rounds. Between all these the bus may bring what does
  -- not matter to the DFU half: the requests of the enumeration, the empty packets that end control
  -- reads, packets sent, GETSTATE, or nothing. The firmware begins with the vectors of an
  -- application. Then this boot ends in a reset, with the firmware in the flash, the rest of the
  -- `n` pages erased, and every other byte as it was. In the next boot, with that flash and that
  -- magic word, and with F1 up, main jumps into the firmware: it takes the stack pointer and the
  -- entry from the firmware's first two words.
  pub boot_main-updates :
      (idr idr' : Machine → ℕ) (n : ℕ) (blocks : List (List (List ℕ))) (bus bus' : List UsbRegs)
      (left : ℕ) (s t : System C D)
      → (decide estack idr (flash.byte s.device.flash) (machine_of s)).0 ≡ enters_dfu
      → CanDfu clocks flash usb build estack s
      → (wrp_is_clear flash s.device.flash).0 ≡ true
      → IsRested flash s.device.flash
      → length s.device.dfu.dfu_buffer ≡ 1024
      → IsUpdate n blocks bus left
      → IsApp estack (updated (flash.byte s.device.flash) n blocks)
      → let end = boot_main clocks flash usb build estack idr bus s in
        t.dfu_magic ≡ (system_of end).dfu_magic
        → ((x : ℕ) → flash.byte t.device.flash x ≡ flash.byte (system_of end).device.flash x)
        → bit_and (idr' (gpio_init (machine_of t))) f1_button_pin ≢ 0
        → let new = updated (flash.byte s.device.flash) n blocks in
          (end ≡ resets (system_of end))
          × ((x : ℕ) → flash.byte (system_of end).device.flash x ≡ new x)
          × ((u : System C D) × (boot_main clocks flash usb build estack idr' bus' t
                ≡ jumps (start_of new) u))
  boot_main-updates idr idr' n blocks bus bus' left s t d can clear rested size u app magic same
        up =
      let m = flash.byte s.device.flash in
      let new = updated m n blocks in
      let k = (decide estack idr m (machine_of s)).1 in
      let s1 = set_clock clocks flash usb build estack (with_machine k s) in
      let (off, rests) = flash_disable_write_protection-Rests flash w s.device.flash rested clear in
      let e = enters clocks flash usb build estack idr bus s d can ∙ unprotected bus s1 off in
      let r = enter_dfu_loop-updates _ n blocks bus left m u rests size in
      let q = λ (x : ℕ). same x ∙ ap (λ z. flash.byte (system_of z).device.flash x) e ∙ r.1 x in
      let old : t.dfu_magic ≡ k.dfu_magic = magic ∙ ap (λ z. (system_of z).dfu_magic) e ∙ r.2 in
      let gone = (decide_lem estack idr m (machine_of s)).1 in
      let sp = word_at-cong (flash.byte t.device.flash) new app_address q in
      let pc = word_at-cong (flash.byte t.device.flash) new (app_address + 4) q in
      let app' : IsApp estack (flash.byte t.device.flash) = rw (sp, pc) app in
      let j =
        boot_main-jump_to_app clocks flash usb build estack idr' bus' t app'
          (inl (up, λ y. gone (sym old ∙ y))) in
      let t' =
        set_clock clocks flash usb build estack
          (with_machine (decide estack idr' (flash.byte t.device.flash) (machine_of t)).1 t) in
      (
        rw e r.0,
        λ x. ap (λ z. flash.byte (system_of z).device.flash x) e ∙ r.1 x,
        (t', j ∙ rw (sp, pc) refl),
      )
