-- ===== src/Flash/Unaligned.antt =====
-- When flash_write of src/flash_if.c does not return: the store of a half-word to an odd address.
use nova_voyager_bootloader.Base.{
  ℕ, ◌+◌, ◌-◌, ◌*◌, ◌%◌, ◌<◌, ◌≡◌, ◌↔◌, inl, inr, refl, sym, ◌∙◌, true, false, Bool-cases, Option,
  none, some, List, [], ◌∷◌, length, ◌==◌, has_bits, u8, u32, arith,
}
use mathlib.Core.Option.{none-ne-some}
use native.Mathlib.Decide.{dec_lt}
use nova_voyager_bootloader.Flash.Region.{InApp, flash_is_address_valid, flash_is_address_valid_iff}
use nova_voyager_bootloader.Flash.Interface.{Outcome, done, failed}
use nova_voyager_bootloader.Flash.Port.{FlashPort, sr, flash_sr_errors}
use nova_voyager_bootloader.Flash.Ops.{
  flash_wait, finish, program_halfword, program_loop, flash_write,
}

module _ {D : Type 0} (port : FlashPort D) where
  abbrev Returns : Option Outcome × D → Type 0
  Returns x = (r : Outcome) × (x.0 ≡ some r)

  halfword-Returns :
      (dst lo hi : ℕ) (rest : D → Option Outcome × D) (d : D)
      → dst % 2 ≡ 0
      → ((c : D) → Returns (rest c))
      → Returns (program_halfword port dst lo hi rest d)
  unfolding program_halfword finish
  halfword-Returns dst lo hi rest d even k =
      let c = flash_wait port (port.program dst (u8 lo + u8 hi * 256) d) in
      let aligned : (dst % 2 == 1) ≡ false = ground (arith, even) in
      elim (Bool-cases (has_bits (port.value sr c) flash_sr_errors)) [
        | inl e ↦ rw (aligned, e, program_halfword) (failed, refl)
        | inr e ↦ rw (aligned, e, program_halfword) (k (port.after sr c))
      ]

  loop-Returns :
      (dst : ℕ) (bytes : List ℕ) (d : D) → dst % 2 ≡ 0 → Returns (program_loop port dst bytes d)
  unfolding program_loop finish
  loop-Returns dst [] d even = (done, refl)
  loop-Returns dst (lo ∷ []) d even =
      halfword-Returns dst lo 0xFF (finish port done) d even (λ c. (done, refl))
  loop-Returns dst (lo ∷ hi ∷ rest) d even =
      halfword-Returns dst lo hi (program_loop port (u32 (dst + 2)) rest) d even
        (λ c. loop-Returns (u32 (dst + 2)) rest c (omega arith))

  loop-hangs :
      (dst : ℕ) (bytes : List ℕ) (d : D)
      → dst % 2 ≡ 1
      → 0 < length bytes
      → (program_loop port dst bytes d).0 ≡ none
  unfolding program_loop program_halfword
  loop-hangs dst [] d odd n = absurd (omega arith)
  loop-hangs dst (lo ∷ []) d odd n =
      let e : (dst % 2 == 1) ≡ true = ground (arith, odd) in rw (e, program_halfword) refl
  loop-hangs dst (lo ∷ hi ∷ rest) d odd n =
      let e : (dst % 2 == 1) ≡ true = ground (arith, odd) in rw (e, program_halfword) refl

  no_return : (x : Option Outcome × D) {A : Type 0} → Returns x → x.0 ≡ none → A
  no_return x h q = absurd (none-ne-some h.0 (sym q ∙ h.1))

  hangs_if :
      (address : ℕ) (bytes : List ℕ) (d : D)
      → (flash_write port address bytes d).0 ≡ none
      → (address % 2 ≡ 1)
        × (0 < length bytes)
        × InApp address
        × InApp (u32 (address + length bytes - 1))
  unfolding flash_write
  hangs_if address bytes d q =
      let x = flash_write port address bytes d in
      let last = u32 (address + length bytes - 1) in
      elim (Bool-cases (length bytes == 0)) [
        | inl e ↦ no_return x (rw e (done, refl)) q
        | inr e ↦ elim (Bool-cases (flash_is_address_valid address)) [
          | inr b ↦ no_return x (rw (e, b, flash_write) (failed, refl)) q
          | inl b ↦ elim (Bool-cases (flash_is_address_valid last)) [
            | inr c ↦ no_return x (rw (e, b, c, flash_write) (failed, refl)) q
            | inl c ↦ elim (dec_lt (address % 2) 1) [
              | yes even ↦
                  no_return x
                    (rw (e, b, c, flash_write) (loop-Returns address bytes _ (omega arith))) q
              | no odd ↦ (
                omega arith,
                ground (arith, e),
                (flash_is_address_valid_iff address).0 b,
                (flash_is_address_valid_iff last).0 c,
              )
            ]
          ]
        ]
      ]

  -- flash_write, on any controller, does not return exactly if the address is odd, there is
  -- something to write, and the checks of its first and last byte pass: the first half-word store
  -- is a bus fault then. In every other case it returns.
  pub flash_write_hangs_iff :
      (address : ℕ) (bytes : List ℕ) (d : D)
      → ((flash_write port address bytes d).0 ≡ none) ↔ (
          (address % 2 ≡ 1)
          × (0 < length bytes)
          × InApp address
          × InApp (u32 (address + length bytes - 1)))
  unfolding flash_write
  flash_write_hangs_iff address bytes d = (
    hangs_if address bytes d,
    λ h.
        let e : (length bytes == 0) ≡ false = ground (arith, h.1) in
        rw
          (
            e,
            (flash_is_address_valid_iff address).1 h.2,
            (flash_is_address_valid_iff (u32 (address + length bytes - 1))).1 h.3,
            flash_write,
          )
          (loop-hangs address bytes _ h.0 h.1),
  )
