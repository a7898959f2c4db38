-- ===== src/Flash/Settled.antt =====
-- flash_disable_write_protection asks for a reset at most once: what it has reprogrammed, it finds
-- clear afterwards.
use nova_voyager_bootloader.Base.{
  ◌≡◌, inl, inr, refl, sym, ap, ◌∙◌, Bool, true, false, List, [], ◌∷◌, bit_and, ◌==◌, Bool-cases,
}
use mathlib.Core.Bool.{false≢true}
use mathlib.Core.Path.{subst}
use nova_voyager_bootloader.Flash.Port.{FlashPort, Reg, ob_wrp0, ob_wrp1, ob_wrp2, ob_wrp3}
use nova_voyager_bootloader.Flash.Options.{
  ob_value, all_clear, wrp_is_clear, flash_disable_write_protection,
}

abbrev pub is_wrp : Reg → Bool
is_wrp ob_wrp0 = true
is_wrp ob_wrp1 = true
is_wrp ob_wrp2 = true
is_wrp ob_wrp3 = true
is_wrp _ = false

abbrev AllWrp : List Reg → Type 0
AllWrp [] = Unit
AllWrp (ob ∷ obs) = (is_wrp ob ≡ true) × AllWrp obs

module _ {D : Type 0} (port : FlashPort D) where
  -- No read changes a write-protection byte: the option bytes are memory.
  abbrev pub ReadsKeep : Type 0
  ReadsKeep = (r s : Reg) (d : D) → is_wrp r ≡ true → port.value r (port.after s d) ≡ port.value r d

  -- The write-protection bytes of `d'` read as those of `d`.
  abbrev pub Agrees : D → D → Type 0
  Agrees d d' = (r : Reg) → is_wrp r ≡ true → port.value r d' ≡ port.value r d

  module _ (keep : ReadsKeep) where
    all_clear-Agrees : (obs : List Reg) (d : D) → Agrees d (all_clear port obs d).1
    unfolding all_clear
    all_clear-Agrees [] d r w = refl
    all_clear-Agrees (ob ∷ obs) d r w = elim (Bool-cases (ob_value port ob d == 0xFF)) [
      | inl e ↦ rw (e, all_clear) (all_clear-Agrees obs (port.after ob d) r w ∙ keep r ob d w)
      | inr e ↦ rw (e, all_clear) (keep r ob d w)
    ]

    all_clear-again :
        (obs : List Reg) (d d' : D)
        → AllWrp obs
        → Agrees d d'
        → (all_clear port obs d').0 ≡ (all_clear port obs d).0
    unfolding all_clear
    all_clear-again [] d d' a h = refl
    all_clear-again (ob ∷ obs) d d' a h =
        let same : (ob_value port ob d' == 0xFF) ≡ (ob_value port ob d == 0xFF) =
          ap (λ n. bit_and n 0xFF == 0xFF) (h ob a.0) in
        let rest =
          all_clear-again obs (port.after ob d) (port.after ob d') a.1
            (λ r w. keep r ob d' w ∙ h r w ∙ sym (keep r ob d w)) in
        elim (Bool-cases (ob_value port ob d == 0xFF)) [
          | inl e ↦ rw (same ∙ e, e, all_clear) rest
          | inr e ↦ rw (same ∙ e, e, all_clear) refl
        ]

    wrp_is_clear-again :
        (e d' : D)
        → Agrees (wrp_is_clear port e).1 d'
        → (wrp_is_clear port d').0 ≡ (wrp_is_clear port e).0
    unfolding wrp_is_clear
    wrp_is_clear-again e d' h =
        all_clear-again _ e d' (refl, (refl, (refl, (refl, tt))))
          (λ r w. h r w ∙ all_clear-Agrees _ e r w)

    -- A reset is asked for by the last check only.
    asked_by :
        (d : D)
        → (flash_disable_write_protection port d).0 ≡ true
        → (e : D) × (flash_disable_write_protection port d ≡ wrp_is_clear port e)
    unfolding flash_disable_write_protection
    asked_by d t = elim (Bool-cases (wrp_is_clear port d).0) [
      | inl c ↦ absurd (false≢true (sym (ap (λ r. r.0) (nothing_to_do d c)) ∙ t))
      | inr c ↦ rw (c, flash_disable_write_protection) (_, refl)
    ]
      where
        nothing_to_do :
            (d : D)
            → (wrp_is_clear port d).0 ≡ true
            → flash_disable_write_protection port d ≡ (false, (wrp_is_clear port d).1)
        nothing_to_do d c = rw (c, flash_disable_write_protection) refl

    -- If flash_disable_write_protection asks for a reset, then run again on a controller whose
    -- write-protection bytes read as it left them, it asks for none. It needs that reading a
    -- register changes no write-protection byte.
    pub flash_disable_write_protection_settles :
        (d d' : D)
        → (flash_disable_write_protection port d).0 ≡ true
        → Agrees (flash_disable_write_protection port d).1 d'
        → (flash_disable_write_protection port d').0 ≡ false
    unfolding flash_disable_write_protection
    flash_disable_write_protection_settles d d' t h =
        let (e, q) = asked_by d t in
        let c : (wrp_is_clear port d').0 ≡ true =
          wrp_is_clear-again e d' (subst (λ x. Agrees x.1 d') q h) ∙ ap (λ x. x.0) (sym q) ∙ t in
        rw (c, flash_disable_write_protection) refl
