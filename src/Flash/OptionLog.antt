-- ===== src/Flash/OptionLog.antt =====
-- What flash_disable_write_protection stores in the option bytes, in order.
use nova_voyager_bootloader.Base.{
  ℕ, zero, suc, ◌≡◌, inl, inr, refl, ◌∙◌, sym, append-nil, append_assoc, Bool, true, false, List,
  [], ◌∷◌, ◌++◌, has_bits, ◌==◌, if◌then◌else◌, Bool-cases, arith,
}
use nova_voyager_bootloader.Flash.Port.{
  FlashPort, Reg, optkeyr, sr, ob_rdp, ob_user, ob_data0, ob_data1, ob_wrp0, ob_wrp1, ob_wrp2,
  ob_wrp3, keyr, cr, ar, flash_sr_bsy,
}
use nova_voyager_bootloader.Flash.Ops.{
  wait_loop, flash_wait, flash_unlock, flash_lock, cr_set, cr_clear,
}
use nova_voyager_bootloader.Flash.Options.{
  ob_value, all_clear, wrp_is_clear, flash_disable_write_protection, restore_rdp, rewrite_options,
  ob_rdp_unlock,
}

abbrev pub is_option : Reg → Bool
is_option keyr = false
is_option optkeyr = false
is_option sr = false
is_option cr = false
is_option ar = false
is_option _ = true

abbrev pub Log : Type 0
Log = List (Reg × ℕ)

module _ {D : Type 0} (port : FlashPort D) where
  -- The controller with a record of the stores to the option bytes.
  abbrev pub logged : FlashPort (D × Log)
  logged = record {
    value = λ r s. port.value r s.0;
    after = λ r s. (port.after r s.0, s.1);
    write = λ r v s. (port.write r v s.0, if is_option r then s.1 ++ ((r, v) ∷ []) else s.1);
    program = λ dst h s. (port.program dst h s.0, s.1);
    byte = λ s. port.byte s.0;
    busy_for = λ s. port.busy_for s.0;
    busy_falls = λ s h. port.busy_falls s.0 h;
  }

  wait_loop-Log : (n : ℕ) (s : D × Log) → (wait_loop logged n s).1 ≡ s.1
  unfolding wait_loop
  wait_loop-Log zero s = refl
  wait_loop-Log (suc n) s = elim (Bool-cases (has_bits (port.value sr s.0) flash_sr_bsy)) [
    | inl b ↦ rw (b, wait_loop) (wait_loop-Log n (port.after sr s.0, s.1))
    | inr b ↦ rw (b, wait_loop) refl
  ]

  flash_wait-Log : (s : D × Log) → (flash_wait logged s).1 ≡ s.1
  unfolding flash_wait
  flash_wait-Log s = wait_loop-Log _ s

  flash_unlock-Log : (s : D × Log) → (flash_unlock logged s).1 ≡ s.1
  unfolding flash_unlock
  flash_unlock-Log s = ground arith

  -- The stores of a rewrite: RDP only if it was unlocked, the user bytes as they were, and no write
  -- protection.
  abbrev pub stores : ℕ → ℕ → ℕ → ℕ → Log
  stores rdp user data0 data1 =
      (if rdp == ob_rdp_unlock then (ob_rdp, ob_rdp_unlock) ∷ [] else [])
      ++ ((ob_user, user)
          ∷ (ob_data0, data0)
          ∷ (ob_data1, data1)
          ∷ (ob_wrp0, 0xFF)
          ∷ (ob_wrp1, 0xFF)
          ∷ (ob_wrp2, 0xFF)
          ∷ (ob_wrp3, 0xFF)
          ∷ [])

  restore_rdp-Log :
      (rdp : ℕ) (s : D × Log)
      → (restore_rdp logged rdp s).1
        ≡ s.1 ++ (if rdp == ob_rdp_unlock then (ob_rdp, ob_rdp_unlock) ∷ [] else [])
  unfolding restore_rdp
  restore_rdp-Log rdp s = elim (Bool-cases (rdp == ob_rdp_unlock)) [
    | inl e ↦ rw (e, restore_rdp) (flash_wait-Log _)
    | inr e ↦ rw (e, restore_rdp) (sym (append-nil s.1))
  ]

  rewrite_options-Log :
      (rdp user data0 data1 : ℕ) (s : D × Log)
      → s.1 ≡ []
      → (rewrite_options logged rdp user data0 data1 s).1 ≡ stores rdp user data0 data1
  unfolding rewrite_options flash_lock cr_clear cr_set
  rewrite_options-Log rdp user data0 data1 s e =
      simp (flash_wait-Log, flash_unlock-Log, restore_rdp-Log, append_assoc, e) refl

  all_clear-Log : (obs : List Reg) (s : D × Log) → (all_clear logged obs s).1.1 ≡ s.1
  unfolding all_clear
  all_clear-Log [] s = refl
  all_clear-Log (ob ∷ obs) s = elim (Bool-cases (ob_value port ob s.0 == 0xFF)) [
    | inl e ↦ rw (e, all_clear) (all_clear-Log obs (port.after ob s.0, s.1))
    | inr e ↦ rw (e, all_clear) refl
  ]

  wrp_is_clear-Log : (s : D × Log) → (wrp_is_clear logged s).1.1 ≡ s.1
  unfolding wrp_is_clear
  wrp_is_clear-Log s = all_clear-Log _ s

  -- On a controller whose stores to the option bytes are recorded, with none recorded yet: if no
  -- page is write-protected, flash_disable_write_protection stores nothing and asks for no reset.
  -- Otherwise the option bytes are stored once each, in this order: RDP, and that only if it read
  -- as unlocked; USER, DATA0 and DATA1 with what they read before the erase; and the four
  -- write-protection bytes with 0xFF.
  pub flash_disable_write_protection_lem :
      (s : D × Log)
      → s.1 ≡ []
      → let (clear, e0) = wrp_is_clear logged s in
        let e1 = logged.after ob_rdp e0 in
        let e2 = logged.after ob_user e1 in
        let e3 = logged.after ob_data0 e2 in
        let (reset, s') = flash_disable_write_protection logged s in
        (clear ≡ true → (reset ≡ false) × (s'.1 ≡ []))
        × (clear ≡ false
            → s'.1
              ≡ stores
                  (ob_value logged ob_rdp e0)
                  (ob_value logged ob_user e1)
                  (ob_value logged ob_data0 e2)
                  (ob_value logged ob_data1 e3))
  unfolding flash_disable_write_protection
  flash_disable_write_protection_lem s e = (
    λ c. rw (c, flash_disable_write_protection) (refl, wrp_is_clear-Log s ∙ e),
    λ c.
        rw (c, flash_disable_write_protection)
          (wrp_is_clear-Log _ ∙ rewrite_options-Log _ _ _ _ _ (wrp_is_clear-Log s ∙ e)),
  )
