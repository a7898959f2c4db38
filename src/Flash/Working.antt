-- ===== src/Flash/Working.antt =====
-- A flash controller that works: its documented behaviour where nothing is write-protected, and
-- what the registers hold between operations.
use nova_voyager_bootloader.Base.{
  ℕ, zero, suc, ◌+◌, ◌%◌, ◌/◌, ◌≤◌, ◌<◌, ◌≡◌, inl, inr, refl, ◌∙◌, Bool, true, false, bit_and,
  has_bits, bit_and_narrow, Bool-cases,
}
use nova_voyager_bootloader.Flash.Region.{InApp, flash_page_size}
use nova_voyager_bootloader.Flash.Port.{
  FlashPort, Reg, keyr, sr, cr, ar, flash_sr_bsy, flash_sr_errors, flash_sr_clear, flash_cr_pg,
  flash_cr_per, flash_cr_strt, flash_cr_lock, flash_key1, flash_key2,
}
use nova_voyager_bootloader.Flash.Ops.{wait_loop, flash_wait}
use nova_voyager_bootloader.Flash.Controller.{flash_cr_mer, is_cr, IsClear, IsController}

abbrev pub is_keyr : Reg → Bool
is_keyr keyr = true
is_keyr _ = false

module _ {D : Type 0} (port : FlashPort D) where
  -- A bit of FLASH_CR.
  abbrev pub cr_bit : ℕ → D → ℕ
  cr_bit m d = bit_and (port.value cr d) m

  -- The documented behaviour of a controller without write protection. `IsIdle` says that no
  -- operation is under way, `IsErrorless` that no error is flagged or to come. PG, PER and LOCK,
  -- the bits of 0x83, are stored while LOCK is clear, and the two keys clear LOCK. An aligned
  -- half-word is programmed where PG is set, LOCK is clear and its two bytes are erased; a page is
  -- erased where PER and STRT are set and LOCK is clear.
  pub record IsWorking (doc : IsController port) : Type 1 where
    pub IsIdle : D → Type 0
    pub IsErrorless : D → Type 0
    pub idle : (d : D) → has_bits (port.value sr d) flash_sr_bsy ≡ false → IsIdle (port.after sr d)
    pub no_flag : (d : D) → IsErrorless d → has_bits (port.value sr d) flash_sr_errors ≡ false
    pub errorless_after : (r : Reg) (d : D) → IsErrorless d → IsErrorless (port.after r d)
    pub errorless_sr : (d : D) → IsIdle d → IsErrorless (port.write sr flash_sr_clear d)
    pub errorless_ar : (a : ℕ) (d : D) → IsErrorless d → IsErrorless (port.write ar a d)
    pub errorless_cr :
        (v : ℕ) (d : D)
        → has_bits v flash_cr_strt ≡ false
        → IsErrorless d
        → IsErrorless (port.write cr v d)
    pub errorless_erase :
        (v : ℕ) (d : D)
        → bit_and v flash_cr_per ≡ flash_cr_per
        → cr_bit flash_cr_lock d ≡ 0
        → InApp (doc.page d)
        → IsErrorless d
        → IsErrorless (port.write cr v d)
    pub errorless_program :
        (dst h : ℕ) (d : D)
        → dst % 2 ≡ 0
        → InApp dst
        → cr_bit flash_cr_pg d ≡ flash_cr_pg
        → cr_bit flash_cr_lock d ≡ 0
        → port.byte d dst ≡ 0xFF
        → port.byte d (dst + 1) ≡ 0xFF
        → IsErrorless d
        → IsErrorless (port.program dst h d)
    pub bits_after : (r : Reg) (d : D) → cr_bit 0x83 (port.after r d) ≡ cr_bit 0x83 d
    pub bits_other :
        (r : Reg) (v : ℕ) (d : D)
        → is_cr r ≡ false
        → is_keyr r ≡ false
        → cr_bit 0x83 (port.write r v d) ≡ cr_bit 0x83 d
    pub bits_program : (dst h : ℕ) (d : D) → cr_bit 0x83 (port.program dst h d) ≡ cr_bit 0x83 d
    pub bits_stored :
        (v : ℕ) (d : D)
        → cr_bit flash_cr_lock d ≡ 0
        → cr_bit 0x83 (port.write cr v d) ≡ bit_and v 0x83
    pub unlocked :
        (d : D)
        → cr_bit flash_cr_lock (port.write keyr flash_key2 (port.write keyr flash_key1 d)) ≡ 0
    pub bits_keyr : (v : ℕ) (d : D) → cr_bit 0x03 (port.write keyr v d) ≡ cr_bit 0x03 d
    pub programmed_low :
        (dst h : ℕ) (d : D)
        → dst % 2 ≡ 0
        → cr_bit flash_cr_pg d ≡ flash_cr_pg
        → cr_bit flash_cr_lock d ≡ 0
        → port.byte d dst ≡ 0xFF
        → port.byte d (dst + 1) ≡ 0xFF
        → port.byte (port.program dst h d) dst ≡ h % 256
    pub programmed_high :
        (dst h : ℕ) (d : D)
        → dst % 2 ≡ 0
        → cr_bit flash_cr_pg d ≡ flash_cr_pg
        → cr_bit flash_cr_lock d ≡ 0
        → port.byte d dst ≡ 0xFF
        → port.byte d (dst + 1) ≡ 0xFF
        → port.byte (port.program dst h d) (dst + 1) ≡ h / 256 % 256
    pub erased :
        (v : ℕ) (d : D) (x : ℕ)
        → bit_and v flash_cr_per ≡ flash_cr_per
        → bit_and v flash_cr_strt ≡ flash_cr_strt
        → has_bits v flash_cr_mer ≡ false
        → cr_bit flash_cr_lock d ≡ 0
        → doc.page d ≤ x
        → x < doc.page d + flash_page_size
        → port.byte (port.write cr v d) x ≡ 0xFF

  -- PG, PER and LOCK are `g`, `e` and `l`.
  pub record HasBits (g e l : ℕ) (d : D) : Type 0 where
    pub pg : cr_bit flash_cr_pg d ≡ g
    pub per : cr_bit flash_cr_per d ≡ e
    pub lock : cr_bit flash_cr_lock d ≡ l

  -- So they are, MER and STRT are clear, there is no error, and the array holds the bytes `f`.
  pub record Holds {doc : IsController port} (w : IsWorking doc) (g e l : ℕ) (f : ℕ → ℕ) (d : D)
      : Type 0 where
    pub bits : HasBits g e l d
    pub no_mer : IsClear port flash_cr_mer d
    pub no_strt : IsClear port flash_cr_strt d
    pub errorless : w.IsErrorless d
    pub same : (x : ℕ) → port.byte d x ≡ f x

  -- No operation is prepared or under way: MER, PG and PER are clear.
  pub record IsRested (d : D) : Type 0 where
    pub no_mer : IsClear port flash_cr_mer d
    pub no_pg : cr_bit flash_cr_pg d ≡ 0
    pub no_per : cr_bit flash_cr_per d ≡ 0

  -- What the three bits are, from their sum.
  pub HasBits-eq :
      {g e l : ℕ} {d d' : D} → cr_bit 0x83 d' ≡ cr_bit 0x83 d → HasBits g e l d → HasBits g e l d'
  HasBits-eq {d = d} {d'} b h = record {
    pg = at flash_cr_pg refl ∙ h.pg;
    per = at flash_cr_per refl ∙ h.per;
    lock = at flash_cr_lock refl ∙ h.lock;
  }
    where
      at : (m : ℕ) → bit_and 0x83 m ≡ m → cr_bit m d' ≡ cr_bit m d
      at m e = bit_and_narrow (port.value cr d') (port.value cr d) 0x83 m b e

  pub HasBits-stored :
      (v : ℕ) {g e l : ℕ} {d : D}
      → cr_bit 0x83 d ≡ bit_and v 0x83
      → (bit_and v flash_cr_pg ≡ g) × (bit_and v flash_cr_per ≡ e) × (bit_and v flash_cr_lock ≡ l)
      → HasBits g e l d
  HasBits-stored v {d = d} b q = record {
    pg = bit_and_narrow (port.value cr d) v 0x83 flash_cr_pg b refl ∙ q.0;
    per = bit_and_narrow (port.value cr d) v 0x83 flash_cr_per b refl ∙ q.1;
    lock = bit_and_narrow (port.value cr d) v 0x83 flash_cr_lock b refl ∙ q.2;
  }

  -- What each read of FLASH_SR keeps, the wait keeps.
  wait_loop_keeps :
      (P : D → Type 0)
      → ((d : D) → P d → P (port.after sr d))
      → (n : ℕ) (d : D) → P d
      → P (wait_loop port n d)
  unfolding wait_loop
  wait_loop_keeps P keep zero d h = h
  wait_loop_keeps P keep (suc n) d h = elim (Bool-cases (has_bits (port.value sr d) flash_sr_bsy)) [
    | inl b ↦ rw (b, wait_loop) (wait_loop_keeps P keep n (port.after sr d) (keep d h))
    | inr b ↦ rw (b, wait_loop) (keep d h)
  ]

  pub flash_wait_keeps :
      (P : D → Type 0)
      → ((d : D) → P d → P (port.after sr d))
      → (d : D) → P d
      → P (flash_wait port d)
  unfolding flash_wait
  flash_wait_keeps P keep d h = wait_loop_keeps P keep _ d h
