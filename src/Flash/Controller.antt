-- ===== src/Flash/Controller.antt =====
-- The documented behaviour of the flash controller, as far as what it leaves alone, and the frame
-- of each primitive of src/flash_if.c.
use nova_voyager_bootloader.Base.{
  ℕ, zero, suc, ◌+◌, ◌≤◌, ◌<◌, ◌≡◌, ◌≢◌, ◌⊎◌, inl, inr, refl, ◌∙◌, Bool, true, false, bit_and,
  bit_or, has_bits, mask_laws, arith, ◌%◌, Bool-cases,
}
use nova_voyager_bootloader.Flash.Region.{flash_page_size}
use nova_voyager_bootloader.Flash.Port.{FlashPort, Reg, sr, cr, ar, flash_sr_bsy, flash_cr_strt}
use nova_voyager_bootloader.Flash.Ops.{wait_loop, flash_wait}

abbrev pub flash_cr_mer : ℕ
flash_cr_mer = 0x04

abbrev pub is_cr : Reg → Bool
is_cr cr = true
is_cr _ = false

module _ {D : Type 0} (port : FlashPort D) where
  -- A bit of FLASH_CR reads 0.
  abbrev pub IsClear : ℕ → D → Type 0
  IsClear k d = has_bits (port.value cr d) k ≡ false

  -- The documented behaviour. `page` is the address that the controller holds in FLASH_AR. Only a
  -- half-word store and a write of FLASH_CR with STRT change the array; a page erase, with MER
  -- clear, changes the page at FLASH_AR; an unaligned store is refused by a bus fault. The hardware
  -- sets neither MER nor STRT, and clears STRT when BSY falls.
  pub record IsController : Type 0 where
    pub page : D → ℕ
    pub page_write : (a : ℕ) (d : D) → page (port.write ar a d) ≡ a
    pub page_after : (r : Reg) (d : D) → page (port.after r d) ≡ page d
    pub byte_after : (r : Reg) (d : D) (x : ℕ) → port.byte (port.after r d) x ≡ port.byte d x
    pub byte_write :
        (r : Reg) (v : ℕ) (d : D) (x : ℕ)
        → is_cr r ≡ false
        → port.byte (port.write r v d) x ≡ port.byte d x
    pub byte_cr :
        (v : ℕ) (d : D) (x : ℕ)
        → has_bits v flash_cr_strt ≡ false
        → port.byte (port.write cr v d) x ≡ port.byte d x
    pub byte_erase :
        (v : ℕ) (d : D) (x : ℕ)
        → has_bits v flash_cr_mer ≡ false
        → (x < page d) ⊎ (page d + flash_page_size ≤ x)
        → port.byte (port.write cr v d) x ≡ port.byte d x
    pub byte_program :
        (dst h : ℕ) (d : D) (x : ℕ)
        → x ≢ dst
        → x ≢ dst + 1
        → port.byte (port.program dst h d) x ≡ port.byte d x
    pub byte_unaligned :
        (dst h : ℕ) (d : D) (x : ℕ)
        → dst % 2 ≡ 1
        → port.byte (port.program dst h d) x ≡ port.byte d x
    pub clear_after :
        (k : ℕ) (r : Reg) (d : D)
        → (k ≡ flash_cr_mer) ⊎ (k ≡ flash_cr_strt)
        → IsClear k d
        → IsClear k (port.after r d)
    pub clear_write :
        (k : ℕ) (r : Reg) (v : ℕ) (d : D)
        → is_cr r ≡ false
        → IsClear k d
        → IsClear k (port.write r v d)
    pub clear_cr :
        (k v : ℕ) (d : D) → has_bits v k ≡ false → IsClear k d → IsClear k (port.write cr v d)
    pub clear_program : (k dst h : ℕ) (d : D) → IsClear k d → IsClear k (port.program dst h d)
    pub strt_falls :
        (d : D)
        → has_bits (port.value sr d) flash_sr_bsy ≡ false
        → IsClear flash_cr_strt (port.after sr d)

  -- What most steps leave alone.
  pub record Calm (d d' : D) : Type 0 where
    pub same : (x : ℕ) → port.byte d' x ≡ port.byte d x
    pub mer : IsClear flash_cr_mer d → IsClear flash_cr_mer d'
    pub strt : IsClear flash_cr_strt d → IsClear flash_cr_strt d'

  pub Calm-refl : (d : D) → Calm d d
  Calm-refl d = record { same = λ x. refl; mer = λ h. h; strt = λ h. h }

  pub Calm-trans : {a b c : D} → Calm a b → Calm b c → Calm a c
  Calm-trans p q = record {
    same = λ x. q.same x ∙ p.same x;
    mer = λ h. q.mer (p.mer h);
    strt = λ h. q.strt (p.strt h);
  }

-- Setting or clearing other bits leaves a clear bit clear.
pub has_bits_or :
    (x m k : ℕ) → bit_and m k ≡ 0 → has_bits x k ≡ false → has_bits (bit_or x m) k ≡ false
has_bits_or x m k e h = simp (mask_laws, e) h

pub has_bits_and :
    (x m k : ℕ) → bit_and m k ≡ k → has_bits x k ≡ false → has_bits (bit_and x m) k ≡ false
has_bits_and x m k e h = simp (mask_laws, e) h

module _ {D : Type 0} (port : FlashPort D) (doc : IsController port) where
  pub Calm-after : (r : Reg) (d : D) → Calm port d (port.after r d)
  Calm-after r d = record {
    same = doc.byte_after r d;
    mer = doc.clear_after flash_cr_mer r d (inl refl);
    strt = doc.clear_after flash_cr_strt r d (inr refl);
  }

  pub Calm-write : (r : Reg) (v : ℕ) (d : D) → is_cr r ≡ false → Calm port d (port.write r v d)
  Calm-write r v d e = record {
    same = λ x. doc.byte_write r v d x e;
    mer = doc.clear_write flash_cr_mer r v d e;
    strt = doc.clear_write flash_cr_strt r v d e;
  }

  -- The wait ends by its test, with BSY read as 0 and so STRT clear.
  pub wait_loop_lem :
      (n : ℕ) (d : D)
      → port.busy_for d < n
      → Calm port d (wait_loop port n d) × IsClear port flash_cr_strt (wait_loop port n d)
  unfolding wait_loop
  wait_loop_lem zero d h = absurd (omega arith)
  wait_loop_lem (suc n) d h = elim (Bool-cases (has_bits (port.value sr d) flash_sr_bsy)) [
    | inl e ↦
        let ih = wait_loop_lem n (port.after sr d) (omega (arith, port.busy_falls d e)) in
        rw (e, wait_loop) (Calm-trans port (Calm-after sr d) ih.0, ih.1)
    | inr e ↦ rw (e, wait_loop) (Calm-after sr d, doc.strt_falls d e)
  ]

  pub flash_wait_lem :
      (d : D) → Calm port d (flash_wait port d) × IsClear port flash_cr_strt (flash_wait port d)
  unfolding flash_wait
  flash_wait_lem d = wait_loop_lem (suc (port.busy_for d)) d (omega arith)
