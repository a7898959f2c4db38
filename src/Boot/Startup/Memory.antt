-- ===== src/Boot/Startup/Memory.antt =====
-- What Reset_Handler of src/main.c leaves in memory.
use nova_voyager_bootloader.Base.{
  ℕ, zero, suc, ◌+◌, ◌-◌, ◌*◌, ◌/◌, ◌%◌, ◌^◌, ◌≤◌, ◌<◌, ◌≡◌, refl, ap, ◌∙◌, ◌&&◌, ltb, leb, lt→ltb,
  if◌then◌else◌, u32, arith,
}
use native.Mathlib.Decide.{dec_lt, ℕ_discrete}
use nova_voyager_bootloader.Boot.App.{word_at}
use nova_voyager_bootloader.Boot.Startup.{
  Symbols, IsLinked, dfu_magic_addr, store_word, copy_loop, zero_loop, reset_handler,
}

store_zero :
    (a : ℕ) (mem : ℕ → ℕ) (x : ℕ)
    → store_word a 0 mem x ≡ (if leb a x && ltb x (a + 4) then 0 else mem x)
store_zero a mem x = ground arith

-- The bytes of a word.
word_bytes :
    (b0 b1 b2 b3 : ℕ)
    → b0 < 256
    → b1 < 256
    → b2 < 256
    → b3 < 256
    → let w = b0 + b1 * 2 ^ 8 + b2 * 2 ^ 16 + b3 * 2 ^ 24 in
      (w % 2 ^ 8 ≡ b0)
      × (w / 2 ^ 8 % 2 ^ 8 ≡ b1)
      × (w / 2 ^ 16 % 2 ^ 8 ≡ b2)
      × (w / 2 ^ 24 % 2 ^ 8 ≡ b3)
word_bytes b0 b1 b2 b3 h0 h1 h2 h3 = (omega arith, omega arith, omega arith, omega arith)

store_copy :
    (a s : ℕ) (mem : ℕ → ℕ) (x : ℕ)
    → ((y : ℕ) → mem y < 256)
    → store_word a (word_at mem s) mem x
      ≡ (if leb a x && ltb x (a + 4) then mem (s + (x - a)) else mem x)
store_copy a s mem x byte =
    let (w0, w1, w2, w3) =
      word_bytes (mem s) (mem (s + 1)) (mem (s + 2)) (mem (s + 3)) (byte s) (byte (s + 1))
        (byte (s + 2)) (byte (s + 3)) in
    elim (ℕ_discrete x a) [
      | yes e ↦ rw e (ground (arith, w0, at (s + (a - a)) s (omega arith)))
      | no n0 ↦ elim (ℕ_discrete x (a + 1)) [
        | yes e ↦ rw e (ground (arith, w1, at (s + (a + 1 - a)) (s + 1) (omega arith)))
        | no n1 ↦ elim (ℕ_discrete x (a + 2)) [
          | yes e ↦ rw e (ground (arith, w2, at (s + (a + 2 - a)) (s + 2) (omega arith)))
          | no n2 ↦ elim (ℕ_discrete x (a + 3)) [
            | yes e ↦ rw e (ground (arith, w3, at (s + (a + 3 - a)) (s + 3) (omega arith)))
            | no n3 ↦ ground arith
          ]
        ]
      ]
    ]
  where
    at : (i j : ℕ) → i ≡ j → mem i ≡ mem j
    at i j e = ap mem e

zero_loop_lem :
    (n r0 r1 : ℕ) (mem : ℕ → ℕ) (x : ℕ)
    → r0 ≤ r1
    → (r1 - r0) % 4 ≡ 0
    → r1 < 2 ^ 32
    → r1 ≤ r0 + 4 * n
    → zero_loop n r0 r1 mem x ≡ (if leb r0 x && ltb x r1 then 0 else mem x)
unfolding zero_loop
zero_loop_lem zero r0 r1 mem x o a top enough = ground arith
zero_loop_lem (suc n) r0 r1 mem x o a top enough = elim (dec_lt r0 r1) [
  | yes l ↦
      let next : u32 (r0 + 4) ≡ r0 + 4 = omega arith in
      let ih =
        zero_loop_lem n (u32 (r0 + 4)) r1 (store_word r0 0 mem) x (omega arith) (omega arith) top
          (omega arith) in
      rw (lt→ltb r0 r1 l, zero_loop) (ih ∙ rw (next, store_zero r0 mem x) (ground arith))
  | no l ↦ ground arith
]

-- The words come from below the destination.
copy_loop_lem :
    (n r2 r0 r1 : ℕ) (mem : ℕ → ℕ) (x : ℕ)
    → r0 ≤ r1
    → (r1 - r0) % 4 ≡ 0
    → r1 < 2 ^ 32
    → r1 ≤ r0 + 4 * n
    → r2 + (r1 - r0) ≤ r0
    → ((y : ℕ) → mem y < 256)
    → copy_loop n r2 r0 r1 mem x ≡ (if leb r0 x && ltb x r1 then mem (r2 + (x - r0)) else mem x)
unfolding copy_loop
copy_loop_lem zero r2 r0 r1 mem x o a top enough below byte = ground arith
copy_loop_lem (suc n) r2 r0 r1 mem x o a top enough below byte = elim (dec_lt r0 r1) [
  | yes l ↦
      let r2' : u32 (r2 + 4) ≡ r2 + 4 = omega arith in
      let r0' : u32 (r0 + 4) ≡ r0 + 4 = omega arith in
      let ih =
        copy_loop_lem n (u32 (r2 + 4)) (u32 (r0 + 4)) r1 (store_word r0 (word_at mem r2) mem) x
          (omega arith) (omega arith) top (omega arith) (omega arith) stored_byte in
      rw (lt→ltb r0 r1 l, copy_loop) (ih ∙ rw (r2', r0') (moved l))
  | no l ↦ ground arith
]
  where
    stored_byte : (y : ℕ) → store_word r0 (word_at mem r2) mem y < 256
    stored_byte y = rw (store_copy r0 r2 mem y byte) (ground (arith, byte y, byte (r2 + (y - r0))))

    -- What the later rounds copy has not been written by this one.
    moved :
        r0 < r1
        → (if leb (r0 + 4) x && ltb x r1
            then store_word r0 (word_at mem r2) mem (r2 + 4 + (x - (r0 + 4)))
            else store_word r0 (word_at mem r2) mem x)
          ≡ (if leb r0 x && ltb x r1 then mem (r2 + (x - r0)) else mem x)
    moved l =
        rw (store_copy r0 r2 mem x byte, store_copy r0 r2 mem (r2 + 4 + (x - (r0 + 4))) byte)
          (elim (dec_lt x (r0 + 4)) [
            | yes k ↦ ground arith
            | no k ↦
                let e : r2 + 4 + (x - (r0 + 4)) ≡ r2 + (x - r0) = omega arith in
                ground (arith, ap mem e)
          ])

-- Before main runs, with the symbols as bootloader.ld makes them, a memory of bytes, and a round
-- for each word of either section: .bss reads 0, .data holds its image from the flash, and no
-- other byte has changed.
pub reset_handler_lem :
    (n : ℕ) (l : Symbols) (mem : ℕ → ℕ) (x : ℕ)
    → IsLinked l
    → l.edata ≤ l.sdata + 4 * n
    → l.ebss ≤ l.sbss + 4 * n
    → ((y : ℕ) → mem y < 256)
    → reset_handler n l mem x ≡ (
        if leb l.sbss x && ltb x l.ebss
        then 0
        else if leb l.sdata x && ltb x l.edata
        then mem (l.sidata + (x - l.sdata))
        else mem x)
unfolding reset_handler
reset_handler_lem n l mem x h copied cleared byte =
    zero_loop_lem n l.sbss l.ebss (copy_loop n l.sidata l.sdata l.edata mem) x h.bss_order
      h.bss_aligned (omega (arith, h.below_magic)) cleared
    ∙ rw
        (copy_loop_lem n l.sidata l.sdata l.edata mem x h.data_order h.data_aligned
          (omega (arith, h.below_magic, h.bss_order, h.bss_after)) copied
          (omega (arith, h.image_in_flash, h.in_ram)) byte)
        refl

-- So the magic word that the application has left in RAM reaches main.
pub word_at-reset_handler :
    (n : ℕ) (l : Symbols) (mem : ℕ → ℕ)
    → IsLinked l
    → l.edata ≤ l.sdata + 4 * n
    → l.ebss ≤ l.sbss + 4 * n
    → ((y : ℕ) → mem y < 256)
    → word_at (reset_handler n l mem) dfu_magic_addr ≡ word_at mem dfu_magic_addr
word_at-reset_handler n l mem h copied cleared byte =
    rw
      (
        at 0x20004FF0 (omega arith),
        at 0x20004FF1 (omega arith),
        at 0x20004FF2 (omega arith),
        at 0x20004FF3 (omega arith),
      )
      refl
  where
    at : (x : ℕ) → dfu_magic_addr ≤ x → reset_handler n l mem x ≡ mem x
    at x k =
        reset_handler_lem n l mem x h copied cleared byte
        ∙ ground (arith, h.below_magic, h.bss_order, h.bss_after, h.data_order)
