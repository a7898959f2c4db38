-- ===== src/Flash/Erase.antt =====
-- flash_erase_page on a working controller erases the page.
use nova_voyager_bootloader.Base.{
  set_bit, ℕ, ◌+◌, ◌≤◌, ◌<◌, ◌≡◌, ◌⊎◌, inl, inr, refl, ◌∙◌, true, false, ◌&&◌, bit_or, leb, ltb,
  if◌then◌else◌, bit_or_absorb, arith, Bool-cases,
}
use nova_voyager_bootloader.Flash.Region.{
  InApp, flash_is_address_valid, flash_is_address_valid_iff, page_base, page_base_bounds,
  flash_page_size,
}
use nova_voyager_bootloader.Flash.Interface.{done, failed}
use nova_voyager_bootloader.Flash.Port.{
  FlashPort, sr, cr, ar, flash_cr_pg, flash_cr_per, flash_cr_strt, flash_cr_lock,
}
use nova_voyager_bootloader.Flash.Ops.{flash_wait, cr_set, erase_aligned, flash_erase_page}
use nova_voyager_bootloader.Flash.Controller.{
  flash_cr_mer, IsController, Calm-write, flash_wait_lem, has_bits_or,
}
use nova_voyager_bootloader.Flash.Working.{
  IsWorking, IsRested, HasBits, Holds, HasBits-eq, HasBits-stored, flash_wait_keeps,
}
use nova_voyager_bootloader.Flash.Holding.{
  Holds-Calm, Holds-after, Holds-set, Holds-clear, Holds-opened, Holds-locked, Holds-IsRested,
}

-- The memory `m` with the page at `page` erased.
abbrev pub page_erased : (ℕ → ℕ) → ℕ → ℕ → ℕ
page_erased m page x = if leb page x && ltb x (page + flash_page_size) then 0xFF else m x

in_page :
    {page x q : ℕ}
    → (leb page x && ltb x (page + flash_page_size)) ≡ true
    → q ≡ page
    → (q ≤ x) × (x < q + flash_page_size)
in_page b e = ground arith

off_page :
    {page x q : ℕ}
    → (leb page x && ltb x (page + flash_page_size)) ≡ false
    → q ≡ page
    → (x < q) ⊎ (q + flash_page_size ≤ x)
off_page b e = ground arith

module _ {D : Type 0} (port : FlashPort D) {doc : IsController port} (w : IsWorking port doc) where
  -- The write of STRT, with PER set and FLASH_AR at `page`, and the wait after it.
  started :
      (page : ℕ) {f : ℕ → ℕ} {d : D}
      → Holds port w 0 flash_cr_per 0 f d
      → InApp page
      → doc.page d ≡ page
      → Holds port w 0 flash_cr_per 0
          (page_erased f page)
          (flash_wait port (cr_set port flash_cr_strt d))
  unfolding cr_set
  started page {f} {d} h inside p =
      let d' = port.after cr d in
      let v = bit_or (port.value cr d) flash_cr_strt in
      let k = Holds-after port w cr h in
      let q = doc.page_after cr d ∙ p in
      let wait = flash_wait_lem port doc (port.write cr v d') in
      let no_mer = has_bits_or (port.value cr d) flash_cr_strt flash_cr_mer refl h.no_mer in
      let per = set_bit (port.value cr d) flash_cr_strt flash_cr_per h.bits.per in
      record {
        bits =
            flash_wait_keeps port (HasBits port 0 flash_cr_per 0)
              (λ e b. HasBits-eq port (w.bits_after sr e) b) (port.write cr v d')
              (HasBits-stored port v (w.bits_stored v d' k.bits.lock) (
                set_bit (port.value cr d) flash_cr_strt flash_cr_pg h.bits.pg,
                per,
                set_bit (port.value cr d) flash_cr_strt flash_cr_lock h.bits.lock,
              ));
        no_mer = wait.0.mer (doc.clear_cr flash_cr_mer v d' no_mer k.no_mer);
        no_strt = wait.1;
        errorless =
            flash_wait_keeps port w.IsErrorless (w.errorless_after sr) (port.write cr v d')
              (w.errorless_erase v d' per k.bits.lock (rw q inside) k.errorless);
        same = λ x. wait.0.same x ∙ bytes x;
      }
    where
      bytes :
          (x : ℕ)
          → port.byte (port.write cr (bit_or (port.value cr d) flash_cr_strt) (port.after cr d)) x
            ≡ page_erased f page x
      bytes x =
          let d' = port.after cr d in
          let v = bit_or (port.value cr d) flash_cr_strt in
          let q = doc.page_after cr d ∙ p in
          let no_mer = has_bits_or (port.value cr d) flash_cr_strt flash_cr_mer refl h.no_mer in
          let per = set_bit (port.value cr d) flash_cr_strt flash_cr_per h.bits.per in
          let strt =
            set_bit (port.value cr d) flash_cr_strt flash_cr_strt refl
            ∙ bit_or_absorb (port.value cr d) flash_cr_strt in
          let lock = (Holds-after port w cr h).bits.lock in
          elim (Bool-cases (leb page x && ltb x (page + flash_page_size))) [
            | inl b ↦ rw b (w.erased v d' x per strt no_mer lock (in_page b q).0 (in_page b q).1)
            | inr b ↦
                rw b
                  (doc.byte_erase v d' x no_mer (off_page b q) ∙ doc.byte_after cr d x ∙ h.same x)
          ]

  erase_aligned_lem :
      (page : ℕ) (d : D)
      → IsRested port d
      → InApp page
      → let (r, d') = erase_aligned port page d in
        (r ≡ done)
        × ((x : ℕ) → port.byte d' x ≡ page_erased (port.byte d) page x)
        × IsRested port d'
  unfolding erase_aligned
  erase_aligned_lem page d r inside =
      let h = Holds-set port w flash_cr_per refl refl (Holds-opened port w d r) in
      let a =
        Holds-Calm port w h (Calm-write port doc ar page _ refl)
          (HasBits-eq port (w.bits_other ar page _ refl refl) h.bits)
          (w.errorless_ar page _ h.errorless) in
      let s = started page a inside (doc.page_write page _) in
      let z =
        Holds-locked port w
          (Holds-clear port w flash_cr_per refl refl refl (inr (refl, refl)) (inl refl) s) in
      rw (w.no_flag _ z.errorless)
        (refl, (Holds-after port w sr z).same, Holds-IsRested port w (Holds-after port w sr z))

  -- On a working controller at rest, flash_erase_page at an address of the application region
  -- erases the page of that address, changes no other byte, reports success and leaves the
  -- controller at rest. At any other address it reports a failure and does nothing.
  pub flash_erase_page-erased :
      (address : ℕ) (d : D)
      → IsRested port d
      → let (r, d') = flash_erase_page port address d in
        (InApp address
          → (r ≡ done)
            × ((x : ℕ) → port.byte d' x ≡ page_erased (port.byte d) (page_base address) x)
            × IsRested port d')
        × (¬ InApp address → (r ≡ failed) × (d' ≡ d))
  unfolding flash_erase_page
  flash_erase_page-erased address d r = (
    λ inside.
        let valid = (flash_is_address_valid_iff address).1 inside in
        let b = page_base_bounds address valid in
        rw (valid, flash_erase_page)
          (erase_aligned_lem (page_base address) d r (omega arith, omega arith)),
    λ outside. refused outside,
  )
    where
      refused :
          ¬ InApp address
          → ((flash_erase_page port address d).0 ≡ failed)
            × ((flash_erase_page port address d).1 ≡ d)
      refused outside = elim (Bool-cases (flash_is_address_valid address)) [
        | inl e ↦ absurd (outside ((flash_is_address_valid_iff address).0 e))
        | inr e ↦ rw (e, flash_erase_page) (refl, refl)
      ]
