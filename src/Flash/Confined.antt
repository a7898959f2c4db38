-- ===== src/Flash/Confined.antt =====
-- flash_erase_page and flash_write change no byte outside the application region.
use nova_voyager_bootloader.Base.{
  ℕ, ◌+◌, ◌-◌, ◌*◌, ◌%◌, ◌≤◌, ◌<◌, ◌≡◌, ◌⊎◌, inl, inr, refl, ◌∙◌, false, Option, none, some, ◌==◌,
  List, [], ◌∷◌, length, bit_or, has_bits, arith, u8, u32, Bool-cases,
}
use nova_voyager_bootloader.Flash.Region.{
  InApp, app_flash_start, app_flash_end, flash_is_address_valid_iff, page_base, page_base_bounds,
  flash_page_size,
}
use nova_voyager_bootloader.Flash.Interface.{Outcome, done, failed, FlashIf, IsConfined}
use nova_voyager_bootloader.Flash.Port.{
  FlashPort, sr, cr, ar, flash_sr_errors, flash_sr_clear, flash_cr_pg, flash_cr_per, flash_cr_strt,
}
use nova_voyager_bootloader.Flash.Ops.{
  flash_wait, cr_set, flash_unlock, erase_aligned, flash_erase_page, finish, program_halfword,
  program_loop, flash_write,
}
use nova_voyager_bootloader.Flash.Frame.{
  IsReady, Settled, Settled-step, Settled-wait, opened, closed,
}
use native.Mathlib.Decide.{dec_lt}
use nova_voyager_bootloader.Flash.Controller.{
  flash_cr_mer, IsController, Calm-after, Calm-write, has_bits_or,
}

-- A call that hangs the program counts as one that failed: the model goes on where the program does
-- not, so it reaches all that the program reaches, and more.
abbrev pub returned : Option Outcome → Outcome
returned none = failed
returned (some r) = r

-- flash_if.c as src/usb_dfu.c calls it.
abbrev pub flash_of : {D : Type 0} → FlashPort D → FlashIf D
flash_of port = record {
  flash_erase_page = flash_erase_page port;
  flash_write = λ address bytes d. let r = flash_write port address bytes d in (returned r.0, r.1);
  byte = port.byte;
}

module _ {D : Type 0} (port : FlashPort D) (doc : IsController port) where
  -- A store at `dst` in the region reaches no byte outside it: its last address is odd.
  program-confined :
      (dst h : ℕ) (d : D) (x : ℕ)
      → InApp dst
      → ¬ InApp x
      → port.byte (port.program dst h d) x ≡ port.byte d x
  program-confined dst h d x inside out = elim (dec_lt (dst % 2) 1) [
    | yes even ↦ doc.byte_program dst h d x (λ e. out (omega arith)) (λ e. out (omega arith))
    | no odd ↦ doc.byte_unaligned dst h d x (omega arith)
  ]

  -- The byte at `x` is as it was at `d`, and the controller is ready.
  abbrev IsFramed : {R : Type 0} → ℕ → D → R × D → Type 0
  IsFramed x d r = (port.byte r.1 x ≡ port.byte d x) × IsReady port r.1

  finish-IsFramed :
      {x : ℕ} {a b : D} (r : Outcome) → Settled port doc x a b → IsFramed x a (finish port r b)
  unfolding finish
  finish-IsFramed r s = let c = closed port doc flash_cr_pg refl refl s in (c.same, c.no_mer)

  halfword-IsFramed :
      {x : ℕ} {a b : D} (dst lo hi : ℕ) (rest : D → Option Outcome × D)
      → InApp dst
      → ¬ InApp x
      → ((c : D) → Settled port doc x a c → IsFramed x a (rest c))
      → Settled port doc x a b
      → IsFramed x a (program_halfword port dst lo hi rest b)
  unfolding program_halfword
  halfword-IsFramed {x} {a} {b} dst lo hi rest inside out next s =
      let h = u8 lo + u8 hi * 256 in
      let b' = port.program dst h b in
      let c = flash_wait port b' in
      let w : Settled port doc x a c =
        Settled-wait port doc (program-confined dst h b x inside out ∙ s.same)
          (doc.clear_program flash_cr_mer dst h b s.no_mer) in
      let w' : Settled port doc x a (port.after sr c) =
        Settled-step port doc w (λ m t. Calm-after port doc sr c) in
      elim (Bool-cases (dst % 2 == 1)) [
        | inl odd ↦
            rw (odd, program_halfword)
              (
                program-confined dst h b x inside out ∙ s.same,
                doc.clear_program flash_cr_mer dst h b s.no_mer,
              )
        | inr even ↦ elim (Bool-cases (has_bits (port.value sr c) flash_sr_errors)) [
          | inl e ↦ rw (even, e, program_halfword) (finish-IsFramed failed w')
          | inr e ↦ rw (even, e, program_halfword) (next (port.after sr c) w')
        ]
      ]

  loop-IsFramed :
      {x : ℕ} {a : D} (dst : ℕ) (bytes : List ℕ) {b : D}
      → app_flash_start ≤ dst
      → dst + length bytes ≤ app_flash_end + 1
      → ¬ InApp x
      → Settled port doc x a b
      → IsFramed x a (program_loop port dst bytes b)
  unfolding program_loop
  loop-IsFramed dst [] lo hi out s = finish-IsFramed done s
  loop-IsFramed dst (b0 ∷ []) lo hi out s =
      halfword-IsFramed dst b0 0xFF (finish port done) (omega arith) out
        (λ c t. finish-IsFramed done t) s
  loop-IsFramed dst (b0 ∷ b1 ∷ rest) lo hi out s =
      halfword-IsFramed dst b0 b1 (program_loop port (u32 (dst + 2)) rest) (omega arith) out
        (λ c t. loop-IsFramed (u32 (dst + 2)) rest (omega arith) (omega arith) out t) s

  -- What follows the checks of flash_write.
  write_body-IsFramed :
      (address : ℕ) (bytes : List ℕ) (d : D) (x : ℕ)
      → app_flash_start ≤ address
      → address + length bytes ≤ app_flash_end + 1
      → IsReady port d
      → ¬ InApp x
      → IsFramed x d (
          program_loop port address bytes (
            cr_set port flash_cr_pg
              (port.write sr flash_sr_clear (flash_wait port (flash_unlock port d)))))
  write_body-IsFramed address bytes d x lo hi ready out =
      loop-IsFramed address bytes lo hi out (opened port doc x flash_cr_pg d refl refl ready)

  write-IsFramed :
      (address : ℕ) (bytes : List ℕ) (d : D) (x : ℕ)
      → length bytes ≤ 1024
      → IsReady port d
      → ¬ InApp x
      → IsFramed x d (flash_write port address bytes d)
  unfolding flash_write
  write-IsFramed address bytes d x short ready out = ground (
    arith,
    flash_is_address_valid_iff address,
    flash_is_address_valid_iff (u32 (address + length bytes - 1)),
    write_body-IsFramed address bytes d x,
  )

  -- The start of the erase itself, with FLASH_AR at a page of the region.
  start-Settled :
      {x : ℕ} {a b : D} (page : ℕ)
      → app_flash_start ≤ page
      → page + flash_page_size ≤ app_flash_end + 1
      → ¬ InApp x
      → Settled port doc x a b
      → Settled port doc x a (flash_wait port (cr_set port flash_cr_strt (port.write ar page b)))
  unfolding cr_set
  start-Settled {x} {a} {b} page lo hi out s =
      let b' = port.after cr (port.write ar page b) in
      let t =
        Settled-step port doc (Settled-step port doc s (λ m n. Calm-write port doc ar page b refl))
          (λ m n. Calm-after port doc cr (port.write ar page b)) in
      let v = bit_or (port.value cr (port.write ar page b)) flash_cr_strt in
      let no_mer : has_bits v flash_cr_mer ≡ false =
        has_bits_or _ flash_cr_strt flash_cr_mer refl
          (doc.clear_write flash_cr_mer ar page b refl s.no_mer) in
      let there : doc.page b' ≡ page = doc.page_after cr _ ∙ doc.page_write page b in
      Settled-wait port doc (doc.byte_erase v b' x no_mer (outside page x lo hi out there) ∙ t.same)
        (doc.clear_cr flash_cr_mer v b' no_mer t.no_mer)
    where
      outside :
          {q : ℕ} (page x : ℕ)
          → app_flash_start ≤ page
          → page + flash_page_size ≤ app_flash_end + 1
          → ¬ InApp x
          → q ≡ page
          → (x < q) ⊎ (q + flash_page_size ≤ x)
      outside {q} page x lo hi out e = grind arith

  erase_body-IsFramed :
      (page : ℕ) (d : D) (x : ℕ)
      → app_flash_start ≤ page
      → page + flash_page_size ≤ app_flash_end + 1
      → IsReady port d
      → ¬ InApp x
      → IsFramed x d (erase_aligned port page d)
  unfolding erase_aligned
  erase_body-IsFramed page d x lo hi ready out =
      let s = start-Settled page lo hi out (opened port doc x flash_cr_per d refl refl ready) in
      let t =
        Settled-step port doc (closed port doc flash_cr_per refl refl s)
          (λ m n. Calm-after port doc sr _) in
      (t.same, t.no_mer)

  erase-IsFramed :
      (address : ℕ) (d : D) (x : ℕ)
      → IsReady port d
      → ¬ InApp x
      → IsFramed x d (flash_erase_page port address d)
  unfolding flash_erase_page
  erase-IsFramed address d x ready out =
      ground (arith, page_base_bounds address, erase_body-IsFramed (page_base address) d x)

  zero-outside : ¬ InApp 0
  zero-outside h = omega arith

  -- On a documented controller with MER clear, erasing at any address and writing at most 1024
  -- bytes at any address changes no byte outside the application region, and leaves MER clear.
  pub flash_of-IsConfined : IsConfined (flash_of port) (IsReady port)
  flash_of-IsConfined = record {
    erase_ready = λ address d r. (erase-IsFramed address d 0 r zero-outside).1;
    write_ready = λ address bytes d n r. (write-IsFramed address bytes d 0 n r zero-outside).1;
    erase_confined = λ address d x r out. (erase-IsFramed address d x r out).0;
    write_confined = λ address bytes d x n r out. (write-IsFramed address bytes d x n r out).0;
  }
