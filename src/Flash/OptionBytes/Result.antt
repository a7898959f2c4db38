-- ===== src/Flash/OptionBytes/Result.antt =====
-- The option bytes after flash_disable_write_protection of src/flash_if.c.
use nova_voyager_bootloader.Base.{
  ℕ, ◌≡◌, refl, ◌∙◌, true, false, List, [], ◌∷◌, bit_and, bit_and_narrow, bit_and_assoc, ◌==◌,
  Bool-cases, inl, inr,
}
use nova_voyager_bootloader.Flash.Port.{
  FlashPort, Reg, cr, ob_rdp, ob_user, ob_data0, ob_data1, ob_wrp0, ob_wrp1, ob_wrp2, ob_wrp3,
}
use nova_voyager_bootloader.Flash.Options.{
  ob_value, all_clear, wrp_is_clear, rewrite_options, flash_disable_write_protection,
}
use nova_voyager_bootloader.Flash.OptionLog.{is_option}
use nova_voyager_bootloader.Flash.Working.{cr_bit}
use nova_voyager_bootloader.Flash.OptionBytes.{
  option_bits, rewritten-same, reprogrammed, rewritten-reprogrammed, IsOptions,
}
use nova_voyager_bootloader.Flash.OptionBytes.Stores.{rewrite_options_lem}

module _ {D : Type 0} (port : FlashPort D) (o : IsOptions port) where
  -- The reading of the write-protection bytes.
  all_clear-same :
      (obs : List Reg) (d : D) (r : Reg)
      → is_option r ≡ true
      → ob_value port r (all_clear port obs d).1 ≡ ob_value port r d
  unfolding all_clear
  all_clear-same [] d r i = refl
  all_clear-same (ob ∷ obs) d r i = elim (Bool-cases (ob_value port ob d == 0xFF)) [
    | inl e ↦ rw (e, all_clear) (all_clear-same obs (port.after ob d) r i ∙ o.ob_after r ob d i)
    | inr e ↦ rw (e, all_clear) (o.ob_after r ob d i)
  ]

  all_clear-bits :
      (obs : List Reg) (d : D)
      → cr_bit port option_bits (all_clear port obs d).1 ≡ cr_bit port option_bits d
  unfolding all_clear
  all_clear-bits [] d = refl
  all_clear-bits (ob ∷ obs) d = elim (Bool-cases (ob_value port ob d == 0xFF)) [
    | inl e ↦ rw (e, all_clear) (all_clear-bits obs (port.after ob d) ∙ o.opt_after ob d)
    | inr e ↦ rw (e, all_clear) (o.opt_after ob d)
  ]

  abbrev AllErased : List Reg → D → Type 0
  AllErased [] d = Unit
  AllErased (ob ∷ obs) d = (is_option ob ≡ true) × (ob_value port ob d ≡ 0xFF) × AllErased obs d

  AllErased-after :
      (obs : List Reg) (s : Reg) (d : D) → AllErased obs d → AllErased obs (port.after s d)
  AllErased-after [] s d h = tt
  AllErased-after (ob ∷ obs) s d (i, e, h) = (i, o.ob_after ob s d i ∙ e, AllErased-after obs s d h)

  all_clear-true : (obs : List Reg) (d : D) → AllErased obs d → (all_clear port obs d).0 ≡ true
  unfolding all_clear
  all_clear-true [] d h = refl
  all_clear-true (ob ∷ obs) d (i, e, h) =
      rw (e, all_clear) (all_clear-true obs (port.after ob d) (AllErased-after obs ob d h))

  -- From the reading of the bytes that are to be kept, in the state `e`, to the rewrite.
  rewrites :
      (e : D) (f : Reg → ℕ)
      → cr_bit port 0x30 e ≡ 0
      → ((r : Reg) → is_option r ≡ true → ob_value port r e ≡ f r)
      → ((r : Reg) → bit_and (f r) 0xFF ≡ f r)
      → (r : Reg) → is_option r ≡ true
      → let e1 = port.after ob_rdp e in
        let e2 = port.after ob_user e1 in
        let e3 = port.after ob_data0 e2 in
        ob_value port r (
          rewrite_options port
            (ob_value port ob_rdp e)
            (ob_value port ob_user e1)
            (ob_value port ob_data0 e2)
            (ob_value port ob_data1 e3)
            (port.after ob_data1 e3))
        ≡ reprogrammed f r
  rewrites e f z h k r i =
      let e1 = port.after ob_rdp e in
      let e2 = port.after ob_user e1 in
      let e3 = port.after ob_data0 e2 in
      let bits =
        o.opt_after ob_data1 e3
        ∙ o.opt_after ob_data0 e2
        ∙ o.opt_after ob_user e1
        ∙ o.opt_after ob_rdp e in
      rewrite_options_lem port o _ _ _ _ (port.after ob_data1 e3)
        (bit_and_narrow (port.value cr (port.after ob_data1 e3)) (port.value cr e) option_bits 0x30
            bits refl
          ∙ z)
        r i
      ∙ rewritten-same _ _ _ _ f r (h ob_rdp refl)
          (o.ob_after ob_user ob_rdp e refl ∙ h ob_user refl)
          (o.ob_after ob_data0 ob_user e1 refl
            ∙ o.ob_after ob_data0 ob_rdp e refl
            ∙ h ob_data0 refl)
          (o.ob_after ob_data1 ob_data0 e2 refl
            ∙ o.ob_after ob_data1 ob_user e1 refl
            ∙ o.ob_after ob_data1 ob_rdp e refl
            ∙ h ob_data1 refl)
      ∙ rewritten-reprogrammed f r i k

  -- On a controller whose option bytes work, with OPTER and OPTPG clear, and some page
  -- write-protected: flash_disable_write_protection asks for a reset, and then no page is
  -- write-protected, USER, DATA0 and DATA1 are what they were, and the device is open to reading
  -- exactly if it was: RDP is 0xA5 if it was 0xA5, and 0xFF, which protects, if it was not.
  pub flash_disable_write_protection-reprogrammed :
      (d : D) (r : Reg)
      → cr_bit port 0x30 d ≡ 0
      → (wrp_is_clear port d).0 ≡ false
      → is_option r ≡ true
      → let (reset, d') = flash_disable_write_protection port d in
        (reset ≡ true) × (ob_value port r d' ≡ reprogrammed (λ s. ob_value port s d) r)
  unfolding flash_disable_write_protection wrp_is_clear
  flash_disable_write_protection-reprogrammed d r z c i =
      let wrps = ob_wrp0 ∷ ob_wrp1 ∷ ob_wrp2 ∷ ob_wrp3 ∷ [] in
      let f = λ (s : Reg). ob_value port s d in
      let e = (all_clear port wrps d).1 in
      let at_rest : cr_bit port 0x30 e ≡ 0 =
        bit_and_narrow (port.value cr e) (port.value cr d) option_bits 0x30 (all_clear-bits wrps d)
          refl
        ∙ z in
      let fin =
        rewrites e f at_rest (λ s j. all_clear-same wrps d s j)
          (λ s. bit_and_assoc (port.value s d) 0xFF 0xFF) in
      rw (c, flash_disable_write_protection)
        (
          all_clear-true wrps _ (
            refl,
            fin ob_wrp0 refl,
            (refl, fin ob_wrp1 refl, (refl, fin ob_wrp2 refl, (refl, fin ob_wrp3 refl, tt))),
          ),
          all_clear-same wrps _ r i ∙ fin r i,
        )
