-- ===== src/Boot/Startup.antt =====
-- The vector table and Reset_Handler of src/main.c: the two loops of its assembly, over the memory
-- of the core, with the symbols of bootloader.ld.
pub mod Memory
use nova_voyager_bootloader.Base.{
  List, [], ◌∷◌, ◌++◌, replicate, length, get_or, ℕ, zero, suc, ◌+◌, ◌-◌, ◌*◌, ◌/◌, ◌%◌, ◌^◌, ◌≤◌,
  ◌<◌, ◌≡◌, refl, ap, ◌∙◌, ◌&&◌, ltb, leb, lt→ltb, ◌==◌, if◌then◌else◌, u32, arith,
}
use native.Mathlib.Decide.{dec_lt, ℕ_discrete}
use nova_voyager_bootloader.Boot.App.{word_at}

-- The symbols that bootloader.ld defines.
pub record Symbols : Type 0 where
  pub sidata : ℕ
  pub sdata : ℕ
  pub edata : ℕ
  pub sbss : ℕ
  pub ebss : ℕ

abbrev pub dfu_magic_addr : ℕ
dfu_magic_addr = 0x20004FF0

-- The initial stack pointer, the exceptions, four of which are reserved, then SVCall to SysTick,
-- and the interrupts 0 to 59.
abbrev vector_table : ℕ → ℕ → ℕ → List ℕ
vector_table estack reset default =
    (estack ∷ reset ∷ replicate 5 default)
    ++ replicate 4 0
    ++ (default ∷ default ∷ 0 ∷ default ∷ default ∷ [])
    ++ replicate 60 default

-- Its 76 entries end at 0x130, where the last interrupt's is at 0x12C.
vector_table_lem :
    (estack reset default : ℕ)
    → let table = vector_table estack reset default in
      (length table ≡ 0x130 / 4) × (get_or table (0x12C / 4) 0 ≡ default)
vector_table_lem estack reset default = (refl, refl)

-- `str r3, [r0]` on a little-endian core
abbrev pub store_word : ℕ → ℕ → (ℕ → ℕ) → ℕ → ℕ
store_word a w mem x =
    if x == a
    then w % 2 ^ 8
    else if x == a + 1
    then w / 2 ^ 8 % 2 ^ 8
    else if x == a + 2
    then w / 2 ^ 16 % 2 ^ 8
    else if x == a + 3
    then w / 2 ^ 24 % 2 ^ 8
    else mem x

-- The loop at label 2, `cmp r0, r1; blo 1b`, with at most `n` rounds: the word at r2 goes to r0.
unfoldable pub copy_loop : ℕ → ℕ → ℕ → ℕ → (ℕ → ℕ) → ℕ → ℕ
copy_loop zero r2 r0 r1 mem = mem
copy_loop (suc n) r2 r0 r1 mem =
    let rest = copy_loop n (u32 (r2 + 4)) (u32 (r0 + 4)) r1 (store_word r0 (word_at mem r2) mem) in
    if ltb r0 r1 then rest else mem

-- The loop at label 4, in the same way.
unfoldable pub zero_loop : ℕ → ℕ → ℕ → (ℕ → ℕ) → ℕ → ℕ
zero_loop zero r0 r1 mem = mem
zero_loop (suc n) r0 r1 mem =
    let rest = zero_loop n (u32 (r0 + 4)) r1 (store_word r0 0 mem) in
    if ltb r0 r1 then rest else mem

-- What Reset_Handler does to memory before `bl main`.
unfoldable pub reset_handler : ℕ → Symbols → (ℕ → ℕ) → ℕ → ℕ
reset_handler n l mem = zero_loop n l.sbss l.ebss (copy_loop n l.sidata l.sdata l.edata mem)

-- What bootloader.ld makes of the symbols: the sections are word-aligned, .bss follows .data in RAM
-- and ends below the magic word, which an ASSERT says, and the image of .data is in the 12 KB of
-- flash.
pub record IsLinked (l : Symbols) : Type 0 where
  pub data_aligned : (l.edata - l.sdata) % 4 ≡ 0
  pub bss_aligned : (l.ebss - l.sbss) % 4 ≡ 0
  pub in_ram : 0x20000000 ≤ l.sdata
  pub data_order : l.sdata ≤ l.edata
  pub bss_after : l.edata ≤ l.sbss
  pub bss_order : l.sbss ≤ l.ebss
  pub below_magic : l.ebss ≤ dfu_magic_addr
  pub image_in_flash : l.sidata + (l.edata - l.sdata) ≤ 0x08003000
