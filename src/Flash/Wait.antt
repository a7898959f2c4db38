-- ===== src/Flash/Wait.antt =====
-- The loop of flash_wait in src/flash_if.c ends by its test.
use nova_voyager_bootloader.Base.{
  ℕ, zero, suc, ◌<◌, ◌≡◌, inl, inr, refl, false, has_bits, arith, Bool-cases,
}
use nova_voyager_bootloader.Flash.Port.{FlashPort, sr, flash_sr_bsy}
use nova_voyager_bootloader.Flash.Ops.{wait_loop, flash_wait}

module _ {D : Type 0} (port : FlashPort D) where
  -- The last read of FLASH_SR found BSY clear, and gave the state `d'`.
  abbrev pub EndsIdle : D → Type 0
  EndsIdle d' = (e : D) × (has_bits (port.value sr e) flash_sr_bsy ≡ false) × (d' ≡ port.after sr e)

  wait_loop-EndsIdle : (n : ℕ) (d : D) → port.busy_for d < n → EndsIdle (wait_loop port n d)
  unfolding wait_loop
  wait_loop-EndsIdle zero d h = absurd (omega arith)
  wait_loop-EndsIdle (suc n) d h = elim (Bool-cases (has_bits (port.value sr d) flash_sr_bsy)) [
    | inl b ↦
        rw (b, wait_loop)
          (wait_loop-EndsIdle n (port.after sr d) (omega (arith, port.busy_falls d b)))
    | inr b ↦ rw (b, wait_loop) (d, b, refl)
  ]

  wait_loop_enough :
      (n m : ℕ) (d : D)
      → port.busy_for d < n
      → port.busy_for d < m
      → wait_loop port n d ≡ wait_loop port m d
  unfolding wait_loop
  wait_loop_enough zero m d h k = absurd (omega arith)
  wait_loop_enough (suc n) zero d h k = absurd (omega arith)
  wait_loop_enough (suc n) (suc m) d h k =
      elim (Bool-cases (has_bits (port.value sr d) flash_sr_bsy)) [
        | inl b ↦
            let less = port.busy_falls d b in
            rw (b, wait_loop)
              (wait_loop_enough n m (port.after sr d) (omega (arith, less)) (omega (arith, less)))
        | inr b ↦ rw (b, wait_loop) refl
      ]

  -- On a controller that stays busy for a bounded number of reads of FLASH_SR, flash_wait ends with
  -- a read that finds BSY clear, and any fuel above that bound gives the same state.
  pub flash_wait-EndsIdle :
      (d : D) (n : ℕ)
      → port.busy_for d < n
      → EndsIdle (flash_wait port d) × (wait_loop port n d ≡ flash_wait port d)
  unfolding flash_wait
  flash_wait-EndsIdle d n h = (
    wait_loop-EndsIdle (suc (port.busy_for d)) d (omega arith),
    wait_loop_enough n (suc (port.busy_for d)) d h (omega arith),
  )
