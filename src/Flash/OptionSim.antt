-- ===== src/Flash/OptionSim.antt =====
-- A concrete controller with option bytes, for the tests: it is never busy, a write of FLASH_CR
-- with OPTER and STRT erases the option bytes, and a store to one is kept.
use nova_voyager_bootloader.Base.{
  ℕ, ◌≡◌, ◌∙◌, ap, refl, true, false, ◌&&◌, bit_and, bit_or, has_bits, if◌then◌else◌, set_bit,
  bit_or-zero, arith, mask_laws, bit_or_absorb,
}
use mathlib.Core.Bool.{false≢true}
use nova_voyager_bootloader.Flash.Port.{FlashPort, Reg, keyr, optkeyr, sr, cr, ar, flash_cr_strt}
use nova_voyager_bootloader.Flash.Controller.{is_cr}
use nova_voyager_bootloader.Flash.Options.{flash_cr_opter, ob_value}
use nova_voyager_bootloader.Flash.OptionLog.{is_option}
use nova_voyager_bootloader.Flash.OptionBytes.{
  is_optkeyr, same_reg, flash_cr_optwre, option_bits, IsOptions,
}
use nova_voyager_bootloader.Flash.Working.{is_keyr}

pub record Chip : Type 0 where
  pub control : ℕ
  pub option : Reg → ℕ

abbrev value : Reg → Chip → ℕ
value cr d = d.control
value sr d = 0
value r d = d.option r

abbrev write : Reg → ℕ → Chip → Chip
write cr v d = record {
  control = v;
  option = if has_bits v flash_cr_opter && has_bits v flash_cr_strt then (λ r. 0xFF) else d.option;
}
write keyr v d = record d { control = bit_and d.control 0xFFFFFF7F }
write optkeyr v d = record d { control = bit_or d.control flash_cr_optwre }
write sr v d = d
write ar v d = d
write s v d = record d { option = λ r. if same_reg r s then v else d.option r }

abbrev pub chip : FlashPort Chip
chip = record {
  value = value;
  after = λ r d. d;
  write = write;
  program = λ a h d. d;
  byte = λ d a. 0xFF;
  busy_for = λ d. 0;
  busy_falls = λ d h. absurd (false≢true h);
}

value_option : (r : Reg) (d : Chip) → is_option r ≡ true → value r d ≡ d.option r
value_option r d i = ground arith

write_option :
    (s r : Reg) (v : ℕ) (d : Chip)
    → is_option s ≡ true
    → (write s v d).option r ≡ (if same_reg r s then v else d.option r)
write_option s r v d i = ground arith

ob_cr-chip :
    (r : Reg) (v : ℕ) (d : Chip)
    → is_option r ≡ true
    → bit_and v flash_cr_opter ≡ 0
    → ob_value chip r (write cr v d) ≡ ob_value chip r d
ob_cr-chip r v d i z = rw (value_option r (write cr v d) i, value_option r d i, z) refl

ob_erase-chip :
    (r : Reg) (v : ℕ) (d : Chip)
    → is_option r ≡ true
    → bit_and v flash_cr_opter ≡ flash_cr_opter
    → bit_and v flash_cr_strt ≡ flash_cr_strt
    → ob_value chip r (write cr v d) ≡ 0xFF
ob_erase-chip r v d i p q = rw (value_option r (write cr v d) i, p, q) refl

ob_write-chip :
    (r s : Reg) (v : ℕ) (d : Chip)
    → is_option r ≡ true
    → is_option s ≡ true
    → ob_value chip r (write s v d) ≡ bit_and (if same_reg r s then v else value r d) 0xFF
ob_write-chip r s v d i j =
    rw (value_option r (write s v d) i, write_option s r v d j, value_option r d i) refl

is_option-same : (r s : Reg) → is_option r ≡ true → same_reg r s ≡ true → is_option s ≡ true
is_option-same r s i e = ground arith

opt_other-chip :
    (r : Reg) (v : ℕ) (d : Chip)
    → is_cr r ≡ false
    → is_keyr r ≡ false
    → is_optkeyr r ≡ false
    → (write r v d).control ≡ d.control
opt_other-chip r v d a b c = ground arith

-- Its option bytes work.
pub chip-IsOptions : IsOptions chip
chip-IsOptions = record {
  ob_after = λ r s d i. refl;
  ob_cr = ob_cr-chip;
  ob_erase = λ r v d i p q k l. ob_erase-chip r v d i p q;
  ob_other = λ r s v d i j e. ob_write-chip r s v d i j ∙ rw e refl;
  ob_stored = λ r s v d i e k l m n. ob_write-chip r s v d i (is_option-same r s i e) ∙ rw e refl;
  opt_after = λ r d. refl;
  opt_other = λ r v d a b c. ap (λ n. bit_and n option_bits) (opt_other-chip r v d a b c);
  opt_stored = λ v d a b c e. refl;
  opt_unlocked = λ d. simp mask_laws;
  opt_keyr = λ v d. simp mask_laws;
  opt_opened = λ d h.
      set_bit (bit_or d.control flash_cr_optwre) flash_cr_optwre flash_cr_optwre
        (set_bit d.control flash_cr_optwre flash_cr_optwre refl)
      ∙ ap (λ n. bit_or n flash_cr_optwre) (bit_or_absorb d.control flash_cr_optwre);
  opt_optkeyr = λ v d. set_bit d.control flash_cr_optwre 0xB0 refl ∙ bit_or-zero _;
}
