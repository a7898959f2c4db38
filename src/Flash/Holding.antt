-- ===== src/Flash/Holding.antt =====
-- What each primitive of src/flash_if.c does on a working controller.
use nova_voyager_bootloader.Base.{
  set_bit, ℕ, suc, ◌≡◌, inl, inr, refl, sym, ap, ◌∙◌, false, bit_and, bit_or, has_bits,
  bit_and_narrow, bit_and_assoc, bit_and-zero, ◌⊎◌, arith, Bool-cases,
}
use mathlib.Core.Path.{subst}
use nova_voyager_bootloader.Flash.Port.{
  FlashPort, Reg, keyr, sr, cr, flash_sr_clear, flash_cr_pg, flash_cr_per, flash_cr_strt,
  flash_cr_lock, flash_key1, flash_key2,
}
use nova_voyager_bootloader.Flash.Ops.{but, flash_wait, cr_set, cr_clear, flash_unlock, flash_lock}
use nova_voyager_bootloader.Flash.Controller.{
  flash_cr_mer, IsController, Calm, Calm-after, Calm-write, flash_wait_lem, has_bits_or,
  has_bits_and,
}
use nova_voyager_bootloader.Flash.Frame.{Calm-flash_unlock}
use nova_voyager_bootloader.Flash.Wait.{flash_wait-EndsIdle}
use nova_voyager_bootloader.Flash.Working.{
  cr_bit, IsWorking, HasBits, Holds, IsRested, HasBits-eq, HasBits-stored, flash_wait_keeps,
}

has_no_bits : (x m : ℕ) → has_bits x m ≡ false → bit_and x m ≡ 0
has_no_bits x m h = ground arith

-- The bit `m`, which is `g`, is 0 after `&= k`: `k` clears it, or it was 0.
abbrev pub Clears : ℕ → ℕ → ℕ → Type 0
Clears k m g = (bit_and k m ≡ 0) ⊎ ((bit_and k m ≡ m) × (g ≡ 0))

pub clear_bit : (v k m : ℕ) {g : ℕ} → bit_and v m ≡ g → Clears k m g → bit_and (bit_and v k) m ≡ 0
clear_bit v k m h (inl e) = bit_and_assoc v k m ∙ ap (bit_and v) e ∙ bit_and-zero v
clear_bit v k m h (inr (e, z)) = bit_and_assoc v k m ∙ ap (bit_and v) e ∙ h ∙ z

module _ {D : Type 0} (port : FlashPort D) {doc : IsController port} (w : IsWorking port doc) where
  -- What leaves PG, PER and LOCK alone.
  pub Holds-Calm :
      {g e l : ℕ} {f : ℕ → ℕ} {d d' : D}
      → Holds port w g e l f d
      → Calm port d d'
      → HasBits port g e l d'
      → w.IsErrorless d'
      → Holds port w g e l f d'
  Holds-Calm h c b r = record {
    bits = b;
    no_mer = c.mer h.no_mer;
    no_strt = c.strt h.no_strt;
    errorless = r;
    same = λ x. c.same x ∙ h.same x;
  }

  pub Holds-after :
      {g e l : ℕ} {f : ℕ → ℕ} (r : Reg) {d : D}
      → Holds port w g e l f d
      → Holds port w g e l f (port.after r d)
  Holds-after r {d} h =
      Holds-Calm h (Calm-after port doc r d) (HasBits-eq port (w.bits_after r d) h.bits)
        (w.errorless_after r d h.errorless)

  pub Holds-wait :
      {g e l : ℕ} {f : ℕ → ℕ} {d : D}
      → Holds port w g e l f d
      → Holds port w g e l f (flash_wait port d)
  Holds-wait {d = d} h = flash_wait_keeps port (Holds port w _ _ _ _) (λ d k. Holds-after sr k) d h

  -- A write of FLASH_CR that starts nothing.
  Holds-cr :
      {g e g' e' l' : ℕ} {f : ℕ → ℕ} {d : D} (v : ℕ)
      → Holds port w g e 0 f d
      → has_bits v flash_cr_mer ≡ false
      → has_bits v flash_cr_strt ≡ false
      → (bit_and v flash_cr_pg ≡ g')
        × (bit_and v flash_cr_per ≡ e')
        × (bit_and v flash_cr_lock ≡ l')
      → Holds port w g' e' l' f (port.write cr v d)
  Holds-cr {d = d} v h m s q = record {
    bits = HasBits-stored port v (w.bits_stored v d h.bits.lock) q;
    no_mer = doc.clear_cr flash_cr_mer v d m h.no_mer;
    no_strt = doc.clear_cr flash_cr_strt v d s h.no_strt;
    errorless = w.errorless_cr v d s h.errorless;
    same = λ x. doc.byte_cr v d x s ∙ h.same x;
  }

  -- FLASH_CR |= mask
  pub Holds-set :
      {g e : ℕ} {f : ℕ → ℕ} {d : D} (mask : ℕ)
      → bit_and mask flash_cr_mer ≡ 0
      → bit_and mask flash_cr_strt ≡ 0
      → Holds port w g e 0 f d
      → Holds port w
          (bit_or g (bit_and mask flash_cr_pg))
          (bit_or e (bit_and mask flash_cr_per))
          (bit_or 0 (bit_and mask flash_cr_lock))
          f
          (cr_set port mask d)
  unfolding cr_set
  Holds-set {d = d} mask em es h =
      Holds-cr (bit_or (port.value cr d) mask) (Holds-after cr h)
        (has_bits_or _ mask flash_cr_mer em h.no_mer)
        (has_bits_or _ mask flash_cr_strt es h.no_strt)
        (
          set_bit _ mask flash_cr_pg h.bits.pg,
          set_bit _ mask flash_cr_per h.bits.per,
          set_bit _ mask flash_cr_lock h.bits.lock,
        )

  -- FLASH_CR &= ~mask, where PG or PER is the only bit set.
  pub Holds-clear :
      {g e : ℕ} {f : ℕ → ℕ} {d : D} (mask : ℕ)
      → bit_and (but mask) flash_cr_mer ≡ flash_cr_mer
      → bit_and (but mask) flash_cr_strt ≡ flash_cr_strt
      → bit_and (but mask) flash_cr_lock ≡ flash_cr_lock
      → Clears (but mask) flash_cr_pg g
      → Clears (but mask) flash_cr_per e
      → Holds port w g e 0 f d
      → Holds port w 0 0 0 f (cr_clear port mask d)
  unfolding cr_clear
  Holds-clear {d = d} mask em es el cg ce h =
      Holds-cr (bit_and (port.value cr d) (but mask)) (Holds-after cr h)
        (has_bits_and _ (but mask) flash_cr_mer em h.no_mer)
        (has_bits_and _ (but mask) flash_cr_strt es h.no_strt)
        (
          clear_bit _ (but mask) flash_cr_pg h.bits.pg cg,
          clear_bit _ (but mask) flash_cr_per h.bits.per ce,
          clear_bit _ (but mask) flash_cr_lock h.bits.lock (inr (el, refl)),
        )

  -- flash_unlock and the wait after it, at rest.
  unlocked_bits : (d : D) → IsRested port d → HasBits port 0 0 0 (flash_unlock port d)
  unfolding flash_unlock
  unlocked_bits d r = elim (Bool-cases (has_bits (port.value cr d) flash_cr_lock)) [
    | inl b ↦ rw b (record {
      pg = key 0x01 refl ∙ at 0x01 refl ∙ r.no_pg;
      per = key 0x02 refl ∙ at 0x02 refl ∙ r.no_per;
      lock = w.unlocked (port.after cr d);
    })
    | inr b ↦ rw b (record {
      pg = at 0x01 refl ∙ r.no_pg;
      per = at 0x02 refl ∙ r.no_per;
      lock = at 0x80 refl ∙ has_no_bits (port.value cr d) 0x80 b;
    })
  ]
    where
      at : (m : ℕ) → bit_and 0x83 m ≡ m → cr_bit port m (port.after cr d) ≡ cr_bit port m d
      at m e =
          bit_and_narrow (port.value cr (port.after cr d)) (port.value cr d) 0x83 m
            (w.bits_after cr d) e

      key :
          (m : ℕ)
          → bit_and 0x03 m ≡ m
          → cr_bit port m
              (port.write keyr flash_key2 (port.write keyr flash_key1 (port.after cr d)))
            ≡ cr_bit port m (port.after cr d)
      key m e =
          bit_and_narrow _ (port.value cr (port.after cr d)) 0x03 m
            (w.bits_keyr flash_key2 _ ∙ w.bits_keyr flash_key1 _) e

  -- Both operations begin so: unlock, wait, and clear the error flags.
  pub Holds-opened :
      (d : D)
      → IsRested port d
      → Holds port w 0 0 0
          (port.byte d)
          (port.write sr flash_sr_clear (flash_wait port (flash_unlock port d)))
  Holds-opened d r =
      let u = Calm-flash_unlock port doc d in
      let v = flash_wait_lem port doc (flash_unlock port d) in
      let c = Calm-write port doc sr flash_sr_clear (flash_wait port (flash_unlock port d)) refl in
      let (e, b, q) =
        (flash_wait-EndsIdle port (flash_unlock port d) (suc (port.busy_for (flash_unlock port d)))
          (omega arith)).0 in
      record {
        bits = HasBits-eq port (w.bits_other sr flash_sr_clear _ refl refl) (
            flash_wait_keeps port (HasBits port 0 0 0)
              (λ k h. HasBits-eq port (w.bits_after sr k) h) (flash_unlock port d)
              (unlocked_bits d r));
        no_mer = c.mer (v.0.mer (u.mer r.no_mer));
        no_strt = c.strt v.1;
        errorless = w.errorless_sr _ (subst w.IsIdle (sym q) (w.idle e b));
        same = λ x. c.same x ∙ v.0.same x ∙ u.same x;
      }

  -- flash_lock at the end of both.
  pub Holds-locked :
      {f : ℕ → ℕ} {d : D}
      → Holds port w 0 0 0 f d
      → Holds port w 0 0 flash_cr_lock f (flash_lock port d)
  unfolding flash_lock
  Holds-locked h = Holds-set flash_cr_lock refl refl h

  pub Holds-IsRested : {l : ℕ} {f : ℕ → ℕ} {d : D} → Holds port w 0 0 l f d → IsRested port d
  Holds-IsRested {d = d} h = record { no_mer = h.no_mer; no_pg = h.bits.pg; no_per = h.bits.per }
