-- ===== src/Flash/Unprotected.antt =====
-- flash_disable_write_protection of src/flash_if.c where no page is protected: it only reads.
use nova_voyager_bootloader.Base.{
  ◌≡◌, inl, inr, refl, ◌∙◌, true, false, List, [], ◌∷◌, ◌==◌, Bool-cases, ℕ,
}
use nova_voyager_bootloader.Flash.Port.{FlashPort, Reg, ob_wrp0, ob_wrp1, ob_wrp2, ob_wrp3}
use nova_voyager_bootloader.Flash.Controller.{flash_cr_mer, IsController}
use nova_voyager_bootloader.Flash.Options.{
  ob_value, all_clear, wrp_is_clear, flash_disable_write_protection,
}
use nova_voyager_bootloader.Flash.Working.{IsWorking, IsRested, HasBits, HasBits-eq}

module _ {D : Type 0} (port : FlashPort D) {doc : IsController port} (w : IsWorking port doc) where
  -- At rest, with the bytes `m`.
  pub record Rests (m : ℕ → ℕ) (d : D) : Type 0 where
    pub rested : IsRested port d
    pub same : (x : ℕ) → port.byte d x ≡ m x

  Rests-after : {m : ℕ → ℕ} (r : Reg) {d : D} → Rests m d → Rests m (port.after r d)
  Rests-after r {d} h =
      let b : HasBits port 0 0 _ d = record {
        pg = h.rested.no_pg;
        per = h.rested.no_per;
        lock = refl;
      } in
      let k = HasBits-eq port (w.bits_after r d) b in
      record {
        rested = record {
          no_mer = doc.clear_after flash_cr_mer r d (inl refl) h.rested.no_mer;
          no_pg = k.pg;
          no_per = k.per;
        };
        same = λ x. doc.byte_after r d x ∙ h.same x;
      }

  all_clear-Rests :
      {m : ℕ → ℕ} (obs : List Reg) (d : D) → Rests m d → Rests m (all_clear port obs d).1
  unfolding all_clear
  all_clear-Rests [] d h = h
  all_clear-Rests (ob ∷ obs) d h = elim (Bool-cases (ob_value port ob d == 0xFF)) [
    | inl e ↦ rw (e, all_clear) (all_clear-Rests obs (port.after ob d) (Rests-after ob h))
    | inr e ↦ rw (e, all_clear) (Rests-after ob h)
  ]

  wrp_is_clear-Rests : {m : ℕ → ℕ} (d : D) → Rests m d → Rests m (wrp_is_clear port d).1
  unfolding wrp_is_clear
  wrp_is_clear-Rests d h = all_clear-Rests (ob_wrp0 ∷ ob_wrp1 ∷ ob_wrp2 ∷ ob_wrp3 ∷ []) d h

  -- Where the write-protection bytes are clear, it asks for no reset, and leaves a controller at
  -- rest with the bytes that it had.
  pub flash_disable_write_protection-Rests :
      (d : D)
      → IsRested port d
      → (wrp_is_clear port d).0 ≡ true
      → let (reprogrammed, d') = flash_disable_write_protection port d in
        (reprogrammed ≡ false) × Rests (port.byte d) d'
  unfolding flash_disable_write_protection
  flash_disable_write_protection-Rests d r c =
      rw (c, flash_disable_write_protection)
        (refl, wrp_is_clear-Rests d (record { rested = r; same = λ x. refl }))
