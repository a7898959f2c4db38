-- ===== src/Flash/OptionBytes/Stores.antt =====
-- What each step of rewrite_options of src/flash_if.c does to the option bytes.
use nova_voyager_bootloader.Base.{
  ℕ, ◌≡◌, refl, ◌∙◌, true, bit_and, bit_or, has_bits, bit_and_narrow, bit_or_absorb, set_bit,
  clear_bits, ◌==◌, Bool-cases, inl, inr, arith,
}
use nova_voyager_bootloader.Flash.Port.{
  FlashPort, Reg, optkeyr, sr, cr, ob_rdp, ob_user, ob_data0, ob_data1, ob_wrp0, ob_wrp1, ob_wrp2,
  ob_wrp3, flash_sr_clear, flash_cr_strt, flash_cr_lock, flash_key1, flash_key2,
}
use nova_voyager_bootloader.Flash.Ops.{but, flash_wait, flash_unlock, flash_lock, cr_set, cr_clear}
use nova_voyager_bootloader.Flash.Options.{
  flash_cr_optpg, flash_cr_opter, ob_rdp_unlock, ob_value, ob_store, restore_rdp, rewrite_options,
}
use nova_voyager_bootloader.Flash.OptionLog.{is_option}
use nova_voyager_bootloader.Flash.Working.{cr_bit, flash_wait_keeps}
use nova_voyager_bootloader.Flash.OptionBytes.{
  same_reg, flash_cr_optwre, option_bits, put, part, joined, option-other, unchanged, restored,
  rewritten, IsOptions,
}

module _ {D : Type 0} (port : FlashPort D) where
  -- FLASH_CR has the bits `b`, and the option bytes are `f`.
  pub record Opts (b : ℕ) (f : Reg → ℕ) (d : D) : Type 0 where
    pub bits : cr_bit port option_bits d ≡ b
    pub same : (r : Reg) → is_option r ≡ true → ob_value port r d ≡ f r

  -- What FLASH_CR must have for a write of it: LOCK clear and OPTWRE set.
  abbrev pub Open : ℕ → Type 0
  Open b = (bit_and b flash_cr_lock ≡ 0) × (bit_and b flash_cr_optwre ≡ flash_cr_optwre)

  Opts-ext : {b : ℕ} {f f' : Reg → ℕ} {d : D} → ((r : Reg) → f r ≡ f' r) → Opts b f d → Opts b f' d
  Opts-ext e h = record { bits = h.bits; same = λ r i. h.same r i ∙ e r }

  module _ (o : IsOptions port) where
    cr-bits :
        (v b b' : ℕ) (d : D)
        → cr_bit port option_bits d ≡ b
        → Open b
        → bit_and v option_bits ≡ b'
        → Open b'
        → cr_bit port option_bits (port.write cr v d) ≡ b'
    cr-bits v b b' d h k e k' =
        o.opt_stored v d (part (port.value cr d) option_bits flash_cr_lock b refl h ∙ k.0)
          (part (port.value cr d) option_bits flash_cr_optwre b refl h ∙ k.1)
          (part v option_bits flash_cr_optwre b' refl e ∙ k'.1)
          (part v option_bits flash_cr_lock b' refl e ∙ k'.0)
        ∙ e

    set-bits :
        (mask b : ℕ) (d : D)
        → cr_bit port option_bits d ≡ b
        → Open b
        → Open (bit_or b (bit_and mask option_bits))
        → cr_bit port option_bits (cr_set port mask d) ≡ bit_or b (bit_and mask option_bits)
    unfolding cr_set
    set-bits mask b d h k k' =
        cr-bits (bit_or (port.value cr d) mask) b _ (port.after cr d) (o.opt_after cr d ∙ h) k
          (set_bit (port.value cr d) mask option_bits h) k'

    Opts-after : {b : ℕ} {f : Reg → ℕ} (s : Reg) {d : D} → Opts b f d → Opts b f (port.after s d)
    Opts-after s {d} h = record {
      bits = o.opt_after s d ∙ h.bits;
      same = λ r i. o.ob_after r s d i ∙ h.same r i;
    }

    Opts-wait : {b : ℕ} {f : Reg → ℕ} {d : D} → Opts b f d → Opts b f (flash_wait port d)
    Opts-wait {d = d} h = flash_wait_keeps port (Opts _ _) (λ d k. Opts-after sr k) d h

    -- A write of FLASH_CR that erases nothing.
    Opts-cr :
        {b : ℕ} {f : Reg → ℕ} {d : D} (v b' : ℕ)
        → Opts b f d
        → Open b
        → bit_and v option_bits ≡ b'
        → Open b'
        → bit_and b' flash_cr_opter ≡ 0
        → Opts b' f (port.write cr v d)
    Opts-cr {b} {d = d} v b' h k e k' z = record {
      bits = cr-bits v b b' d h.bits k e k';
      same = λ r i. o.ob_cr r v d i (part v option_bits flash_cr_opter b' refl e ∙ z) ∙ h.same r i;
    }

    Opts-set :
        {b : ℕ} {f : Reg → ℕ} {d : D} (mask : ℕ)
        → Opts b f d
        → Open b
        → Open (bit_or b (bit_and mask option_bits))
        → bit_and (bit_or b (bit_and mask option_bits)) flash_cr_opter ≡ 0
        → Opts (bit_or b (bit_and mask option_bits)) f (cr_set port mask d)
    unfolding cr_set
    Opts-set {d = d} mask h k k' z =
        Opts-cr (bit_or (port.value cr d) mask) _ (Opts-after cr h) k
          (set_bit (port.value cr d) mask option_bits h.bits) k' z

    Opts-clear :
        {b : ℕ} {f : Reg → ℕ} {d : D} (mask : ℕ)
        → Opts b f d
        → Open b
        → Open (bit_and b (but mask))
        → bit_and (bit_and b (but mask)) flash_cr_opter ≡ 0
        → Opts (bit_and b (but mask)) f (cr_clear port mask d)
    unfolding cr_clear
    Opts-clear {d = d} mask h k k' z =
        Opts-cr (bit_and (port.value cr d) (but mask)) _ (Opts-after cr h) k
          (clear_bits (port.value cr d) (but mask) option_bits h.bits) k' z

    -- A store to an erased option byte, with OPTPG set.
    Opts-store :
        {f : Reg → ℕ} {d : D} (s : Reg) (v : ℕ)
        → Opts 0x210 f d
        → is_option s ≡ true
        → f s ≡ 0xFF
        → Opts 0x210 (put s v f) (ob_store port s v d)
    Opts-store {f} {d} s v h i e =
        let (n, k, m) = option-other s i in
        Opts-wait (record {
          bits = o.opt_other s v d n k m ∙ h.bits;
          same = λ r j. elim (Bool-cases (same_reg r s)) [
            | inl q ↦ rw q (
                o.ob_stored r s v d j q
                  (part (port.value cr d) option_bits flash_cr_optwre 0x210 refl h.bits)
                  (part (port.value cr d) option_bits flash_cr_optpg 0x210 refl h.bits)
                  (part (port.value cr d) option_bits flash_cr_lock 0x210 refl h.bits)
                  (h.same s i ∙ e))
            | inr q ↦ rw q (o.ob_other r s v d j i q ∙ h.same r j)
          ];
        })

    -- From rest: unlocked, with the option bytes unlocked too.
    unlocked-bits :
        (d : D)
        → cr_bit port 0x30 d ≡ 0
        → (cr_bit port 0x30 (flash_unlock port d) ≡ 0)
          × (cr_bit port flash_cr_lock (flash_unlock port d) ≡ 0)
    unfolding flash_unlock
    unlocked-bits d z =
        let at : cr_bit port 0x30 (port.after cr d) ≡ 0 =
          bit_and_narrow (port.value cr (port.after cr d)) (port.value cr d) option_bits 0x30
            (o.opt_after cr d) refl
          ∙ z in
        elim (Bool-cases (has_bits (port.value cr d) flash_cr_lock)) [
          | inl b ↦ rw b (
            o.opt_keyr flash_key2 _ ∙ o.opt_keyr flash_key1 _ ∙ at,
            o.opt_unlocked (port.after cr d),
          )
          | inr b ↦ rw b (
            at,
            bit_and_narrow (port.value cr (port.after cr d)) (port.value cr d) option_bits
                  flash_cr_lock (o.opt_after cr d) refl
                ∙ ground arith,
          )
        ]

    -- The unlocking of rewrite_options.
    opened-bits :
        (d : D)
        → cr_bit port 0x30 d ≡ 0
        → cr_bit port option_bits (
            port.write optkeyr flash_key2
              (port.write optkeyr flash_key1 (flash_wait port (flash_unlock port d))))
          ≡ flash_cr_optwre
    opened-bits d z =
        let (p, l) = unlocked-bits d z in
        let u : cr_bit port 0xB0 (flash_wait port (flash_unlock port d)) ≡ 0 =
          flash_wait_keeps port (λ k. cr_bit port 0xB0 k ≡ 0)
            (λ k h.
              bit_and_narrow (port.value cr (port.after sr k)) (port.value cr k) option_bits 0xB0
                (o.opt_after sr k) refl
              ∙ h)
            (flash_unlock port d) (joined (port.value cr (flash_unlock port d)) 0x80 0x30 l p) in
        joined _ flash_cr_optwre 0xB0
          (o.opt_opened _ (part (port.value cr _) 0xB0 flash_cr_lock 0 refl u))
          (o.opt_optkeyr flash_key2 _ ∙ o.opt_optkeyr flash_key1 _ ∙ u)

    -- The erase: every option byte reads 0xFF.
    erased-Opts :
        (d : D)
        → cr_bit port option_bits d ≡ 0x220
        → Opts 0x220 (λ r. 0xFF) (cr_set port flash_cr_strt d)
    unfolding cr_set
    erased-Opts d h =
        let v = bit_or (port.value cr d) flash_cr_strt in
        let a = o.opt_after cr d ∙ h in
        let b = set_bit (port.value cr d) flash_cr_strt option_bits h in
        record {
          bits = cr-bits v 0x220 0x220 (port.after cr d) a (refl, refl) b (refl, refl);
          same = λ r i.
              o.ob_erase r v (port.after cr d) i (part v option_bits flash_cr_opter 0x220 refl b)
                (set_bit (port.value cr d) flash_cr_strt flash_cr_strt refl
                  ∙ bit_or_absorb (port.value cr d) flash_cr_strt)
                (part (port.value cr _) option_bits flash_cr_optwre 0x220 refl a)
                (part (port.value cr _) option_bits flash_cr_lock 0x220 refl a);
        }

    restored-Opts :
        (rdp : ℕ) (d : D)
        → Opts 0x210 (λ r. 0xFF) d
        → Opts 0x210 (restored rdp) (restore_rdp port rdp d)
    unfolding restore_rdp
    restored-Opts rdp d h = elim (Bool-cases (rdp == ob_rdp_unlock)) [
      | inl e ↦
          rw (e, restore_rdp)
            (Opts-ext (λ r. rw e refl) (Opts-store ob_rdp ob_rdp_unlock h refl refl))
      | inr e ↦ rw (e, restore_rdp) (Opts-ext (λ r. rw e (unchanged (same_reg r ob_rdp))) h)
    ]

    -- flash_lock leaves the option bytes.
    locked :
        {f : Reg → ℕ} {d : D}
        → Opts 0x200 f d
        → (r : Reg) → is_option r ≡ true
        → ob_value port r (flash_lock port d) ≡ f r
    unfolding flash_lock cr_set
    locked {d = d} h r i =
        let a = Opts-after cr h in
        o.ob_cr r (bit_or (port.value cr d) flash_cr_lock) (port.after cr d) i (
          set_bit (port.value cr d) flash_cr_lock flash_cr_opter
            (part (port.value cr d) option_bits flash_cr_opter 0x200 refl h.bits))
        ∙ a.same r i

    pub rewrite_options_lem :
        (rdp user data0 data1 : ℕ) (d : D)
        → cr_bit port 0x30 d ≡ 0
        → (r : Reg) → is_option r ≡ true
        → ob_value port r (rewrite_options port rdp user data0 data1 d)
          ≡ rewritten rdp user data0 data1 r
    unfolding rewrite_options
    rewrite_options_lem rdp user data0 data1 d z r i =
        let keyed = o.opt_other sr flash_sr_clear _ refl refl refl ∙ opened-bits d z in
        let opter = set-bits flash_cr_opter 0x200 _ keyed (refl, refl) (refl, refl) in
        let erased = Opts-wait (erased-Opts _ opter) in
        let closed = Opts-clear flash_cr_opter erased (refl, refl) (refl, refl) refl in
        let optpg = Opts-set flash_cr_optpg closed (refl, refl) (refl, refl) refl in
        let s0 = Opts-store ob_user user (restored-Opts rdp _ optpg) refl refl in
        let s1 = Opts-store ob_data0 data0 s0 refl refl in
        let s2 = Opts-store ob_data1 data1 s1 refl refl in
        let s3 = Opts-store ob_wrp0 0xFF s2 refl refl in
        let s4 = Opts-store ob_wrp1 0xFF s3 refl refl in
        let s5 = Opts-store ob_wrp2 0xFF s4 refl refl in
        let s6 = Opts-store ob_wrp3 0xFF s5 refl refl in
        let end = Opts-clear flash_cr_optpg s6 (refl, refl) (refl, refl) refl in locked end r i
