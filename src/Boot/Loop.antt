-- ===== src/Boot/Loop.antt =====
-- The loop of run_dfu_mode in src/main.c, with dfu_get_state of src/usb_dfu.c.
use nova_voyager_bootloader.Base.{
  ℕ, ◌+◌, ◌-◌, ◌≤◌, ◌≡◌, refl, Bool, true, false, List, [], ◌∷◌, length, ◌==◌, if◌then◌else◌, arith,
}
use mathlib.Core.Path.{subst}
use native.Mathlib.Decide.{ℕ_discrete}
use nova_voyager_bootloader.Usb.Regs.{UsbRegs, UsbPort}
use nova_voyager_bootloader.Flash.Interface.{FlashIf}
use nova_voyager_bootloader.Dfu.State.{manifest_wait_reset, in_state, Device}
use nova_voyager_bootloader.Dfu.Dispatch.{usb_poll}

-- The test after a poll: the next `reset_countdown`, and whether system_reset is called.
unfoldable pub count_down : Bool → ℕ → ℕ × Bool
count_down waiting count =
    if waiting
    then (if count == 0 then (50, false) else (count - 1, count - 1 == 1))
    else (count, false)

-- Where the loop stands after some rounds: a reset with the rounds that are left, or a device with
-- its countdown.
pub data Run (F : Type 0) : Type 0 where
  was_reset : List UsbRegs → Device F → Run F
  running : ℕ → Device F → Run F

module _ {F : Type 0} (flash_if : FlashIf F) (port : UsbPort) where
  abbrev pub round : UsbRegs → Device F → Device F
  round r v = usb_poll flash_if port (record v { ep0 = record v.ep0 { usb = r } })

  abbrev pub is_waiting : Device F → Bool
  is_waiting v = in_state v.dfu.context.state manifest_wait_reset

  -- The loop, with what the bus has made of the peripheral before each round.
  unfoldable pub dfu_loop : List UsbRegs → ℕ → Device F → Run F
  dfu_loop [] count v = running count v
  dfu_loop (r ∷ rs) count v =
      let w = round r v in
      let (count', reset) = count_down (is_waiting w) count in
      let rest = dfu_loop rs count' w in if reset then was_reset rs w else rest

  -- Every round ends in dfuMANIFEST-WAIT-RESET.
  abbrev pub StaysWaiting : List UsbRegs → Device F → Type 0
  StaysWaiting [] v = Unit
  StaysWaiting (r ∷ rs) v = (is_waiting (round r v) ≡ true) × StaysWaiting rs (round r v)

  abbrev pub Resets : ℕ → Run F → Type 0
  Resets left (was_reset rs v) = length rs ≡ left
  Resets left (running count v) = ⊥

  counting : (count : ℕ) → 3 ≤ count → count_down true count ≡ (count - 1, false)
  unfolding count_down
  counting count h = ground arith

  -- From a countdown already started.
  counted :
      (rs : List UsbRegs) (count : ℕ) (v : Device F)
      → 2 ≤ count
      → count ≤ length rs + 1
      → StaysWaiting rs v
      → Resets (length rs + 1 - count) (dfu_loop rs count v)
  unfolding dfu_loop count_down
  counted [] count v lo hi s = absurd (omega arith)
  counted (r ∷ rs) count v lo hi s = elim (ℕ_discrete count 2) [
    | yes e ↦ rw (s.0, e) (omega arith)
    | no n ↦
        rw (s.0, counting count (omega arith))
          (subst (λ k. Resets k (dfu_loop rs (count - 1) (round r v)))
            {x = length rs + 1 - (count - 1)} (omega arith)
            (counted rs (count - 1) (round r v) (omega arith) (omega arith) s.1))
  ]

  -- A device of which each of 50 or more rounds ends in dfuMANIFEST-WAIT-RESET is reset in the 50th
  -- of them, no sooner and no later.
  pub dfu_loop-Resets :
      (rs : List UsbRegs) (v : Device F)
      → 50 ≤ length rs
      → StaysWaiting rs v
      → Resets (length rs - 50) (dfu_loop rs 0 v)
  unfolding dfu_loop count_down
  dfu_loop-Resets [] v n s = absurd (omega arith)
  dfu_loop-Resets (r ∷ rs) v n s = rw s.0 (
      subst (λ k. Resets k (dfu_loop rs 50 (round r v))) {x = length rs + 1 - 50} (omega arith)
        (counted rs 50 (round r v) (omega arith) (omega arith) s.1))

  -- No round ends in dfuMANIFEST-WAIT-RESET.
  abbrev pub NeverWaiting : List UsbRegs → Device F → Type 0
  NeverWaiting [] v = Unit
  NeverWaiting (r ∷ rs) v = (is_waiting (round r v) ≡ false) × NeverWaiting rs (round r v)

  -- However many rounds run, the loop does not reset the device if none of them ends in
  -- dfuMANIFEST-WAIT-RESET, and the countdown stays.
  pub dfu_loop_stays :
      (rs : List UsbRegs) (count : ℕ) (v : Device F)
      → NeverWaiting rs v
      → (w : Device F) × (dfu_loop rs count v ≡ running count w)
  unfolding dfu_loop count_down
  dfu_loop_stays [] count v h = (v, refl)
  dfu_loop_stays (r ∷ rs) count v h = rw h.0 (dfu_loop_stays rs count (round r v) h.1)
