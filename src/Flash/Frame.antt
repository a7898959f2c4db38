-- ===== src/Flash/Frame.antt =====
-- The frame of the steps that flash_erase_page and flash_write share.
use nova_voyager_bootloader.Base.{ℕ, ◌≡◌, refl, ◌∙◌, false, bit_and, has_bits, if_keeps}
use nova_voyager_bootloader.Flash.Port.{
  FlashPort, keyr, sr, cr, flash_sr_clear, flash_cr_strt, flash_cr_lock, flash_key1, flash_key2,
}
use nova_voyager_bootloader.Flash.Ops.{but, flash_wait, cr_set, cr_clear, flash_unlock, flash_lock}
use nova_voyager_bootloader.Flash.Controller.{
  flash_cr_mer, IsClear, IsController, Calm, Calm-trans, Calm-after, Calm-write, flash_wait_lem,
  has_bits_or, has_bits_and,
}

-- MER is clear, as after a reset.
abbrev pub IsReady : {D : Type 0} → FlashPort D → D → Type 0
IsReady port d = IsClear port flash_cr_mer d

module _ {D : Type 0} (port : FlashPort D) (doc : IsController port) where
  pub Calm-cr_write :
      (v : ℕ) (d : D)
      → has_bits v flash_cr_mer ≡ false
      → has_bits v flash_cr_strt ≡ false
      → Calm port d (port.write cr v d)
  Calm-cr_write v d m s = record {
    same = λ x. doc.byte_cr v d x s;
    mer = doc.clear_cr flash_cr_mer v d m;
    strt = doc.clear_cr flash_cr_strt v d s;
  }

  pub Calm-cr_set :
      (mask : ℕ) (d : D)
      → bit_and mask flash_cr_mer ≡ 0
      → bit_and mask flash_cr_strt ≡ 0
      → IsClear port flash_cr_mer d
      → IsClear port flash_cr_strt d
      → Calm port d (cr_set port mask d)
  unfolding cr_set
  Calm-cr_set mask d em es m s = Calm-trans port (Calm-after port doc cr d) (
      Calm-cr_write _ _ (has_bits_or _ mask flash_cr_mer em m)
        (has_bits_or _ mask flash_cr_strt es s))

  pub Calm-cr_clear :
      (mask : ℕ) (d : D)
      → bit_and (but mask) flash_cr_mer ≡ flash_cr_mer
      → bit_and (but mask) flash_cr_strt ≡ flash_cr_strt
      → IsClear port flash_cr_mer d
      → IsClear port flash_cr_strt d
      → Calm port d (cr_clear port mask d)
  unfolding cr_clear
  Calm-cr_clear mask d em es m s = Calm-trans port (Calm-after port doc cr d) (
      Calm-cr_write _ _ (has_bits_and _ (but mask) flash_cr_mer em m)
        (has_bits_and _ (but mask) flash_cr_strt es s))

  pub Calm-flash_unlock : (d : D) → Calm port d (flash_unlock port d)
  unfolding flash_unlock
  Calm-flash_unlock d =
      if_keeps (Calm port d) _
        (port.write keyr flash_key2 (port.write keyr flash_key1 (port.after cr d)))
        (port.after cr d)
        (Calm-trans port (Calm-after port doc cr d) (
          Calm-trans port (Calm-write port doc keyr flash_key1 _ refl)
            (Calm-write port doc keyr flash_key2 _ refl)))
        (Calm-after port doc cr d)

  -- The byte at `x` is as before, and FLASH_CR has neither MER nor STRT.
  pub record Settled (x : ℕ) (d d' : D) : Type 0 where
    pub same : port.byte d' x ≡ port.byte d x
    pub no_mer : IsClear port flash_cr_mer d'
    pub no_strt : IsClear port flash_cr_strt d'

  pub Settled-step :
      {x : ℕ} {a b c : D}
      → Settled x a b
      → (IsClear port flash_cr_mer b → IsClear port flash_cr_strt b → Calm port b c)
      → Settled x a c
  Settled-step {x} s f =
      let q = f s.no_mer s.no_strt in
      record { same = q.same x ∙ s.same; no_mer = q.mer s.no_mer; no_strt = q.strt s.no_strt }

  pub Settled-wait :
      {x : ℕ} {a b : D}
      → port.byte b x ≡ port.byte a x
      → IsReady port b
      → Settled x a (flash_wait port b)
  Settled-wait {x} {a} {b} e m =
      let w = flash_wait_lem port doc b in
      record { same = w.0.same x ∙ e; no_mer = w.0.mer m; no_strt = w.1 }

  -- Both operations begin so: unlock, wait, clear the error flags, and set one bit of FLASH_CR.
  pub opened :
      (x mask : ℕ) (d : D)
      → bit_and mask flash_cr_mer ≡ 0
      → bit_and mask flash_cr_strt ≡ 0
      → IsReady port d
      → Settled x d
          (cr_set port mask (port.write sr flash_sr_clear (flash_wait port (flash_unlock port d))))
  opened x mask d em es r =
      let u = Calm-flash_unlock d in
      Settled-step
        (Settled-step (Settled-wait (u.same x) (u.mer r))
          (λ m s. Calm-write port doc sr flash_sr_clear _ refl))
        (Calm-cr_set mask _ em es)

  -- Both end so: clear that bit and lock.
  pub closed :
      (mask : ℕ) {x : ℕ} {a b : D}
      → bit_and (but mask) flash_cr_mer ≡ flash_cr_mer
      → bit_and (but mask) flash_cr_strt ≡ flash_cr_strt
      → Settled x a b
      → Settled x a (flash_lock port (cr_clear port mask b))
  unfolding flash_lock
  closed mask em es s =
      Settled-step (Settled-step s (Calm-cr_clear mask _ em es))
        (Calm-cr_set flash_cr_lock _ refl refl)
