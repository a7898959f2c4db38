-- ===== src/Flash/OptionBytes.antt =====
-- The option bytes that flash_disable_write_protection of src/flash_if.c leaves, on a controller
-- whose option bytes work as documented.
pub mod Stores
pub mod Result
use nova_voyager_bootloader.Base.{
  ℕ, ◌≡◌, refl, sym, ap, ◌∙◌, Bool, true, false, List, [], ◌∷◌, bit_and, bit_or, has_bits,
  bit_and_narrow, bit_and_assoc, bit_and_comm, bit_and-bit_or, bit_or_absorb, ap₂, set_bit,
  clear_bits, ◌==◌, if◌then◌else◌, Bool-cases, inl, inr, arith,
}
use mathlib.Core.Bool.{false≢true}
use nova_voyager_bootloader.Flash.Port.{
  FlashPort, Reg, keyr, optkeyr, sr, cr, ar, ob_rdp, ob_user, ob_data0, ob_data1, ob_wrp0, ob_wrp1,
  ob_wrp2, ob_wrp3, flash_sr_clear, flash_cr_strt, flash_cr_lock, flash_key1, flash_key2,
}
use nova_voyager_bootloader.Flash.Ops.{but, flash_wait, flash_unlock, flash_lock, cr_set, cr_clear}
use nova_voyager_bootloader.Flash.Controller.{is_cr}
use nova_voyager_bootloader.Flash.Options.{
  flash_cr_optpg, flash_cr_opter, ob_rdp_unlock, ob_wrp_none, ob_value, all_clear, wrp_is_clear,
  ob_store, restore_rdp, rewrite_options, flash_disable_write_protection,
}
use nova_voyager_bootloader.Flash.OptionLog.{is_option}
use nova_voyager_bootloader.Flash.Working.{cr_bit, is_keyr, flash_wait_keeps}

abbrev pub reg_code : Reg → ℕ
reg_code keyr = 0
reg_code optkeyr = 1
reg_code sr = 2
reg_code cr = 3
reg_code ar = 4
reg_code ob_rdp = 5
reg_code ob_user = 6
reg_code ob_data0 = 7
reg_code ob_data1 = 8
reg_code ob_wrp0 = 9
reg_code ob_wrp1 = 10
reg_code ob_wrp2 = 11
reg_code ob_wrp3 = 12

abbrev pub same_reg : Reg → Reg → Bool
same_reg r s = reg_code r == reg_code s

abbrev pub is_optkeyr : Reg → Bool
is_optkeyr optkeyr = true
is_optkeyr _ = false

-- FLASH_CR_OPTWRE, which the two keys set in FLASH_OPTKEYR.
abbrev pub flash_cr_optwre : ℕ
flash_cr_optwre = 0x200

-- OPTWRE, LOCK, OPTER and OPTPG.
abbrev pub option_bits : ℕ
option_bits = 0x2B0

-- The option bytes `f` with `v` stored in `ob`.
abbrev pub put : Reg → ℕ → (Reg → ℕ) → Reg → ℕ
put ob v f r = if same_reg r ob then bit_and v 0xFF else f r

-- Some of the bits of a word, from more of them.
pub part : (x k m b : ℕ) → bit_and k m ≡ m → bit_and x k ≡ b → bit_and x m ≡ bit_and b m
part x k m b e h = ap (bit_and x) (sym e) ∙ sym (bit_and_assoc x k m) ∙ ap (λ n. bit_and n m) h

pub unchanged :
    (b : Bool) → ◌≡◌ {A = ℕ} 0xFF (if b then (if false then ob_rdp_unlock else 0xFF) else 0xFF)
unchanged true = refl
unchanged false = refl

pub option-other :
    (s : Reg)
    → is_option s ≡ true
    → (is_cr s ≡ false) × (is_keyr s ≡ false) × (is_optkeyr s ≡ false)
option-other s h = ground arith

pub joined :
    (x a b : ℕ) {p q : ℕ} → bit_and x a ≡ p → bit_and x b ≡ q → bit_and x (bit_or a b) ≡ bit_or p q
joined x a b h k =
    bit_and_comm x (bit_or a b)
    ∙ bit_and-bit_or a b x
    ∙ ap₂ bit_or (bit_and_comm a x ∙ h) (bit_and_comm b x ∙ k)

-- The option bytes after the erase and the store to RDP, and at the end.
abbrev pub restored : ℕ → Reg → ℕ
restored rdp r =
    if same_reg r ob_rdp then (if rdp == ob_rdp_unlock then ob_rdp_unlock else 0xFF) else 0xFF

abbrev pub rewritten : ℕ → ℕ → ℕ → ℕ → Reg → ℕ
rewritten rdp user data0 data1 = put ob_wrp3 0xFF (
    put ob_wrp2 0xFF (
      put ob_wrp1 0xFF (
        put ob_wrp0 0xFF
          (put ob_data1 data1 (put ob_data0 data0 (put ob_user user (restored rdp)))))))

-- What is to become of the option bytes `f`: no page is protected, the level of read protection and
-- the user's bytes stay.
abbrev pub reprogrammed : (Reg → ℕ) → Reg → ℕ
reprogrammed f ob_rdp = if f ob_rdp == 0xA5 then 0xA5 else 0xFF
reprogrammed f ob_wrp0 = 0xFF
reprogrammed f ob_wrp1 = 0xFF
reprogrammed f ob_wrp2 = 0xFF
reprogrammed f ob_wrp3 = 0xFF
reprogrammed f r = f r

pub rewritten-reprogrammed :
    (f : Reg → ℕ) (r : Reg)
    → is_option r ≡ true
    → ((s : Reg) → bit_and (f s) 0xFF ≡ f s)
    → rewritten (f ob_rdp) (f ob_user) (f ob_data0) (f ob_data1) r ≡ reprogrammed f r
rewritten-reprogrammed f ob_rdp i h = refl
rewritten-reprogrammed f ob_user i h = h ob_user
rewritten-reprogrammed f ob_data0 i h = h ob_data0
rewritten-reprogrammed f ob_data1 i h = h ob_data1
rewritten-reprogrammed f ob_wrp0 i h = refl
rewritten-reprogrammed f ob_wrp1 i h = refl
rewritten-reprogrammed f ob_wrp2 i h = refl
rewritten-reprogrammed f ob_wrp3 i h = refl
rewritten-reprogrammed f keyr i h = absurd (false≢true i)
rewritten-reprogrammed f optkeyr i h = absurd (false≢true i)
rewritten-reprogrammed f sr i h = absurd (false≢true i)
rewritten-reprogrammed f cr i h = absurd (false≢true i)
rewritten-reprogrammed f ar i h = absurd (false≢true i)

pub rewritten-same :
    (a b c e : ℕ) (f : Reg → ℕ) (r : Reg)
    → a ≡ f ob_rdp
    → b ≡ f ob_user
    → c ≡ f ob_data0
    → e ≡ f ob_data1
    → rewritten a b c e r ≡ rewritten (f ob_rdp) (f ob_user) (f ob_data0) (f ob_data1) r
rewritten-same a b c e f r p q s t = rw (p, q, s, t) refl

module _ {D : Type 0} (port : FlashPort D) where
  -- The documented behaviour of the option bytes. Time and the other registers leave them alone. A
  -- write of FLASH_CR with OPTER and STRT, while OPTWRE is set and LOCK is clear, erases all of
  -- them, and without OPTER it touches none. A store changes no other option byte, and is kept if
  -- OPTWRE and OPTPG are set, LOCK is clear and the byte is erased. While LOCK is clear and stays
  -- so, FLASH_CR stores OPTER and OPTPG, and OPTWRE, once set, stays as long as it is written as
  -- set. The keys clear LOCK and set OPTWRE, and leave the other bits.
  pub record IsOptions : Type 0 where
    pub ob_after :
        (r s : Reg) (d : D)
        → is_option r ≡ true
        → ob_value port r (port.after s d) ≡ ob_value port r d
    pub ob_cr :
        (r : Reg) (v : ℕ) (d : D)
        → is_option r ≡ true
        → bit_and v flash_cr_opter ≡ 0
        → ob_value port r (port.write cr v d) ≡ ob_value port r d
    pub ob_erase :
        (r : Reg) (v : ℕ) (d : D)
        → is_option r ≡ true
        → bit_and v flash_cr_opter ≡ flash_cr_opter
        → bit_and v flash_cr_strt ≡ flash_cr_strt
        → cr_bit port flash_cr_optwre d ≡ flash_cr_optwre
        → cr_bit port flash_cr_lock d ≡ 0
        → ob_value port r (port.write cr v d) ≡ 0xFF
    pub ob_other :
        (r s : Reg) (v : ℕ) (d : D)
        → is_option r ≡ true
        → is_option s ≡ true
        → same_reg r s ≡ false
        → ob_value port r (port.write s v d) ≡ ob_value port r d
    pub ob_stored :
        (r s : Reg) (v : ℕ) (d : D)
        → is_option r ≡ true
        → same_reg r s ≡ true
        → cr_bit port flash_cr_optwre d ≡ flash_cr_optwre
        → cr_bit port flash_cr_optpg d ≡ flash_cr_optpg
        → cr_bit port flash_cr_lock d ≡ 0
        → ob_value port s d ≡ 0xFF
        → ob_value port r (port.write s v d) ≡ bit_and v 0xFF
    pub opt_after :
        (r : Reg) (d : D) → cr_bit port option_bits (port.after r d) ≡ cr_bit port option_bits d
    pub opt_other :
        (r : Reg) (v : ℕ) (d : D)
        → is_cr r ≡ false
        → is_keyr r ≡ false
        → is_optkeyr r ≡ false
        → cr_bit port option_bits (port.write r v d) ≡ cr_bit port option_bits d
    pub opt_stored :
        (v : ℕ) (d : D)
        → cr_bit port flash_cr_lock d ≡ 0
        → cr_bit port flash_cr_optwre d ≡ flash_cr_optwre
        → bit_and v flash_cr_optwre ≡ flash_cr_optwre
        → bit_and v flash_cr_lock ≡ 0
        → cr_bit port option_bits (port.write cr v d) ≡ bit_and v option_bits
    pub opt_unlocked :
        (d : D)
        → cr_bit port flash_cr_lock (port.write keyr flash_key2 (port.write keyr flash_key1 d)) ≡ 0
    pub opt_keyr : (v : ℕ) (d : D) → cr_bit port 0x30 (port.write keyr v d) ≡ cr_bit port 0x30 d
    pub opt_opened :
        (d : D)
        → cr_bit port flash_cr_lock d ≡ 0
        → cr_bit port flash_cr_optwre
            (port.write optkeyr flash_key2 (port.write optkeyr flash_key1 d))
          ≡ flash_cr_optwre
    pub opt_optkeyr :
        (v : ℕ) (d : D) → cr_bit port 0xB0 (port.write optkeyr v d) ≡ cr_bit port 0xB0 d
