-- ===== src/Flash/Ops.antt =====
-- The operations of src/flash_if.c on the controller.
use nova_voyager_bootloader.Base.{
  ℕ, zero, suc, ◌+◌, ◌-◌, ◌*◌, ◌%◌, true, false, Option, none, some, not, List, [], ◌∷◌, length,
  bit_and, bit_or, has_bits, ◌==◌, if◌then◌else◌, u8, u32,
}
use nova_voyager_bootloader.Flash.Region.{flash_is_address_valid, page_base}
use nova_voyager_bootloader.Flash.Interface.{Outcome, done, failed}
use nova_voyager_bootloader.Flash.Port.{
  FlashPort, keyr, sr, cr, ar, flash_sr_bsy, flash_sr_errors, flash_sr_clear, flash_cr_pg,
  flash_cr_per, flash_cr_strt, flash_cr_lock, flash_key1, flash_key2,
}

-- `~mask` for a 32-bit register
abbrev pub but : ℕ → ℕ
but mask = 0xFFFFFFFF - mask

module _ {D : Type 0} (port : FlashPort D) where
  open port use {value, after, write, program, busy_for, busy_falls}

  -- `while (FLASH_SR & FLASH_SR_BSY);` on fuel.
  unfoldable pub wait_loop : ℕ → D → D
  wait_loop zero d = d
  wait_loop (suc n) d = elim (has_bits (value sr d) flash_sr_bsy) [
    | true ↦ wait_loop n (after sr d)
    | false ↦ after sr d
  ]

  -- The fuel is one more than the reads for which the controller can stay busy.
  unfoldable pub flash_wait : D → D
  flash_wait d = wait_loop (suc (busy_for d)) d

  -- FLASH_CR |= mask and FLASH_CR &= ~mask
  unfoldable pub cr_set : ℕ → D → D
  cr_set mask d = write cr (bit_or (value cr d) mask) (after cr d)

  unfoldable pub cr_clear : ℕ → D → D
  cr_clear mask d = write cr (bit_and (value cr d) (but mask)) (after cr d)

  unfoldable pub flash_unlock : D → D
  flash_unlock d =
      let d' = after cr d in
      if has_bits (value cr d) flash_cr_lock
      then write keyr flash_key2 (write keyr flash_key1 d')
      else d'

  unfoldable pub flash_lock : D → D
  unfolding cr_set
  flash_lock d = cr_set flash_cr_lock d

  -- From the check of the address on; `address` is aligned.
  unfoldable pub erase_aligned : ℕ → D → Outcome × D
  erase_aligned address d0 =
      let d1 = flash_wait (flash_unlock d0) in
      let d2 = cr_set flash_cr_per (write sr flash_sr_clear d1) in
      let d3 = cr_set flash_cr_strt (write ar address d2) in
      let d4 = flash_lock (cr_clear flash_cr_per (flash_wait d3)) in
      (if has_bits (value sr d4) flash_sr_errors then failed else done, after sr d4)

  unfoldable pub flash_erase_page : ℕ → D → Outcome × D
  unfolding erase_aligned
  flash_erase_page address d =
      if not (flash_is_address_valid address)
      then (failed, d)
      else erase_aligned (page_base address) d

  -- The end of flash_write, which returns; `none` is a call that does not.
  unfoldable pub finish : Outcome → D → Option Outcome × D
  finish r d = (some r, flash_lock (cr_clear flash_cr_pg d))

  -- One round of the loop of flash_write, with `rest` for the rounds after it. A half-word store to
  -- an odd address is a bus fault: the program goes to Default_Handler and stays there.
  unfoldable pub program_halfword : ℕ → ℕ → ℕ → (D → Option Outcome × D) → D → Option Outcome × D
  program_halfword dst lo hi rest d =
      let stored = program dst (u8 lo + u8 hi * 256) d in
      let d' = flash_wait stored in
      if dst % 2 == 1 then (none, stored) else elim (has_bits (value sr d') flash_sr_errors) [
        | true ↦ finish failed (after sr d')
        | false ↦ rest (after sr d')
      ]

  -- The loop over the bytes that are left; an odd tail is padded with the erased value.
  unfoldable pub program_loop : ℕ → List ℕ → D → Option Outcome × D
  program_loop dst [] d = finish done d
  program_loop dst (lo ∷ []) d = program_halfword dst lo 0xFF (finish done) d
  program_loop dst (lo ∷ hi ∷ rest) d =
      program_halfword dst lo hi (program_loop (u32 (dst + 2)) rest) d

  -- `flash_write(address, data, len)`, with the bytes `data[0..len)` for the last two.
  unfoldable pub flash_write : ℕ → List ℕ → D → Option Outcome × D
  flash_write address bytes d =
      if length bytes == 0
      then (some done, d)
      else if not (flash_is_address_valid address)
      then (some failed, d)
      else if not (flash_is_address_valid (u32 (address + length bytes - 1)))
      then (some failed, d)
      else let d1 = flash_wait (flash_unlock d) in
        let d2 = cr_set flash_cr_pg (write sr flash_sr_clear d1) in program_loop address bytes d2
