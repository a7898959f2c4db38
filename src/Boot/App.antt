-- ===== src/Boot/App.antt =====
-- app_valid of src/main.c. The top of the stack is a linker symbol, hence a parameter.
use nova_voyager_bootloader.Base.{
  ℕ, ◌+◌, ◌-◌, ◌*◌, ◌^◌, ◌≤◌, ◌<◌, ◌≡◌, ◌↔◌, Bool, true, false, ◌||◌, ltb, if◌then◌else◌, arith,
}

abbrev pub ram_base : ℕ
ram_base = 0x20000000

abbrev pub app_address : ℕ
app_address = 0x08003000

-- `*(volatile uint32_t*)a` on a little-endian core
abbrev pub word_at : (ℕ → ℕ) → ℕ → ℕ
word_at mem a = mem a + mem (a + 1) * 2 ^ 8 + mem (a + 2) * 2 ^ 16 + mem (a + 3) * 2 ^ 24

module _ (estack : ℕ) where
  unfoldable pub app_valid : (ℕ → ℕ) → Bool
  app_valid mem =
      let sp = word_at mem app_address in
      let reset = word_at mem (app_address + 4) in
      if ltb sp ram_base || ltb estack sp
      then false
      else if ltb reset app_address || ltb 0x08040000 reset
      then false
      else true

  -- The first two words of an image that the bootloader starts.
  abbrev pub IsApp : (ℕ → ℕ) → Type 0
  IsApp mem =
      let sp = word_at mem app_address in
      let reset = word_at mem (app_address + 4) in
      (ram_base ≤ sp) × (sp ≤ estack) × (app_address ≤ reset) × (reset ≤ 0x08040000)

  -- An application is valid exactly if its stack pointer lies between the start of RAM and the top
  -- of the stack, and its reset vector between the application's start and 0x08040000, both
  -- included.
  pub app_valid_iff : (mem : ℕ → ℕ) → (app_valid mem ≡ true) ↔ IsApp mem
  unfolding app_valid
  app_valid_iff mem = ground arith

  -- Where every byte from the application's start on reads 0xFF, and the top of the stack is below
  -- the highest word, there is no valid application.
  pub erased_invalid :
      (mem : ℕ → ℕ)
      → estack < 2 ^ 32 - 1
      → ((a : ℕ) → app_address ≤ a → mem a ≡ 0xFF)
      → app_valid mem ≡ false
  unfolding app_valid
  erased_invalid mem h e = ground (
    arith,
    e 0x08003000 (omega arith),
    e 0x08003001 (omega arith),
    e 0x08003002 (omega arith),
    e 0x08003003 (omega arith),
  )
