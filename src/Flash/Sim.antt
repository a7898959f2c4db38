-- ===== src/Flash/Sim.antt =====
-- A concrete flash controller for the tests: it is never busy, reports no error, erases a page when
-- STRT is written, stores aligned half-words, a write of FLASH_KEYR clears LOCK,
-- and no page is write-protected.
use nova_voyager_bootloader.Base.{
  bit_and_assoc, bit_and_comm, ap, sym, ◌∙◌, zero_and, ℕ, ◌≤◌, ◌<◌, ◌+◌, ◌-◌, ◌/◌, ◌%◌, ◌≡◌, ◌⊎◌,
  inl, inr, refl, false, ◌&&◌, bit_and, has_bits, leb, ltb, ◌==◌, if◌then◌else◌, update, mask_laws,
  arith,
}
use mathlib.Core.Bool.{false≢true}
use nova_voyager_bootloader.Flash.Port.{
  FlashPort, Reg, ob_wrp0, ob_wrp1, ob_wrp2, ob_wrp3, keyr, sr, cr, ar, flash_cr_strt,
}
use nova_voyager_bootloader.Flash.Controller.{IsController, is_cr, has_bits_and}
use nova_voyager_bootloader.Flash.Working.{cr_bit, is_keyr, IsWorking}

pub record Sim : Type 0 where
  pub control : ℕ
  pub page : ℕ
  pub bytes : ℕ → ℕ

abbrev value : Reg → Sim → ℕ
value cr d = d.control
value ob_wrp0 d = 0xFF
value ob_wrp1 d = 0xFF
value ob_wrp2 d = 0xFF
value ob_wrp3 d = 0xFF
value _ d = 0

abbrev after : Reg → Sim → Sim
after sr d = record d { control = bit_and d.control (0xFFFFFFFF - 0x40) }
after _ d = d

abbrev erase : ℕ → (ℕ → ℕ) → ℕ → ℕ
erase base m x = if leb base x && ltb x (base + 2048) then 0xFF else m x

abbrev write : Reg → ℕ → Sim → Sim
write cr v d = record d {
  control = v;
  bytes = if has_bits v flash_cr_strt then erase d.page d.bytes else d.bytes;
}
write ar v d = record d { page = v }
write keyr v d = record d { control = bit_and d.control 0xFFFFFF7F }
write _ v d = d

abbrev program : ℕ → ℕ → Sim → Sim
program dst h d =
    if dst % 2 == 0
    then record d { bytes = update (update d.bytes dst (h % 256)) (dst + 1) (h / 256 % 256) }
    else d

abbrev pub sim : FlashPort Sim
sim = record {
  value = value;
  after = after;
  write = write;
  program = program;
  byte = λ d. d.bytes;
  busy_for = λ d. 0;
  busy_falls = λ d h. absurd (false≢true h);
}

page_after-sim : (r : Reg) (d : Sim) → (after r d).page ≡ d.page
page_after-sim r d = ground arith

byte_after-sim : (r : Reg) (d : Sim) (x : ℕ) → (after r d).bytes x ≡ d.bytes x
byte_after-sim r d x = ground arith

clear_after-sim :
    (k : ℕ) (r : Reg) (d : Sim)
    → (k ≡ 0x04) ⊎ (k ≡ 0x40)
    → has_bits d.control k ≡ false
    → has_bits (value cr (after r d)) k ≡ false
clear_after-sim k sr d (inl e) h = has_bits_and d.control 0xFFFFFFBF k (rw e refl) h
clear_after-sim k sr d (inr e) h = rw e (simp mask_laws)
clear_after-sim k r d e h = ground arith

byte_write-sim :
    (r : Reg) (v : ℕ) (d : Sim) (x : ℕ) → is_cr r ≡ false → (write r v d).bytes x ≡ d.bytes x
byte_write-sim r v d x h = ground arith

keeps_clear : (x m k : ℕ) → has_bits x k ≡ false → has_bits (bit_and x m) k ≡ false
keeps_clear x m k h =
    let z : bit_and x k ≡ 0 = ground arith in
    let e : bit_and (bit_and x m) k ≡ 0 =
      bit_and_assoc x m k
      ∙ ap (bit_and x) (bit_and_comm m k)
      ∙ sym (bit_and_assoc x k m)
      ∙ ap (λ n. bit_and n m) z
      ∙ zero_and m in
    ground arith

clear_write-sim :
    (k : ℕ) (r : Reg) (v : ℕ) (d : Sim)
    → is_cr r ≡ false
    → has_bits d.control k ≡ false
    → has_bits (write r v d).control k ≡ false
clear_write-sim k keyr v d h c = keeps_clear d.control 0xFFFFFF7F k c
clear_write-sim k r v d h c = ground arith

-- It behaves as documented.
pub sim-IsController : IsController sim
sim-IsController = record {
  page = λ d. d.page;
  page_write = λ a d. refl;
  page_after = page_after-sim;
  byte_after = byte_after-sim;
  byte_write = byte_write-sim;
  byte_cr = λ v d x h. rw h refl;
  byte_erase = λ v d x h k. ground arith;
  byte_program = λ dst h d x k l. ground arith;
  byte_unaligned = λ dst h d x k. ground arith;
  clear_after = clear_after-sim;
  clear_write = clear_write-sim;
  clear_cr = λ k v d h c. h;
  clear_program = λ k dst h d c. ground arith;
  strt_falls = λ d h. simp mask_laws;
}

bits_after-sim : (r : Reg) (d : Sim) → cr_bit sim 0x83 (after r d) ≡ cr_bit sim 0x83 d
bits_after-sim sr d = simp mask_laws
bits_after-sim r d = ground arith

bits_other-sim :
    (r : Reg) (v : ℕ) (d : Sim)
    → is_cr r ≡ false
    → is_keyr r ≡ false
    → cr_bit sim 0x83 (write r v d) ≡ cr_bit sim 0x83 d
bits_other-sim r v d h k = ground arith

erased-sim :
    (v : ℕ) (d : Sim) (x : ℕ)
    → bit_and v flash_cr_strt ≡ flash_cr_strt
    → d.page ≤ x
    → x < d.page + 2048
    → (write cr v d).bytes x ≡ 0xFF
erased-sim v d x s lo hi = ground arith

-- It works.
pub sim-IsWorking : IsWorking sim sim-IsController
unfolding sim-IsController
sim-IsWorking = record {
  IsIdle = λ d. Unit;
  IsErrorless = λ d. Unit;
  idle = λ d h. tt;
  no_flag = λ d h. refl;
  errorless_after = λ r d h. tt;
  errorless_sr = λ d h. tt;
  errorless_ar = λ a d h. tt;
  errorless_cr = λ v d h k. tt;
  errorless_erase = λ v d a b c e. tt;
  errorless_program = λ dst h d a b c e f g i. tt;
  bits_after = bits_after-sim;
  bits_other = bits_other-sim;
  bits_program = λ dst h d. ground arith;
  bits_stored = λ v d h. refl;
  unlocked = λ d. simp mask_laws;
  bits_keyr = λ v d. simp mask_laws;
  programmed_low = λ dst h d e p l a b. ground arith;
  programmed_high = λ dst h d e p l a b. ground arith;
  erased = λ v d x p s m l lo hi. erased-sim v d x s lo hi;
}
