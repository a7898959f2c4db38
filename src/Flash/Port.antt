-- ===== src/Flash/Port.antt =====
-- The flash controller as the code sees it: volatile registers, the option bytes, and the
-- memory-mapped array. The controller is hardware, hence a parameter.
use nova_voyager_bootloader.Base.{ℕ, ◌<◌, ◌≡◌, true, has_bits}

-- The registers that src/flash_if.c names, and the eight option bytes.
pub data Reg : Type 0 where
  keyr optkeyr sr cr ar : Reg
  ob_rdp ob_user ob_data0 ob_data1 ob_wrp0 ob_wrp1 ob_wrp2 ob_wrp3 : Reg

abbrev pub flash_sr_bsy : ℕ
flash_sr_bsy = 0x01

-- FLASH_SR_PGERR | FLASH_SR_WRPRTERR
abbrev pub flash_sr_errors : ℕ
flash_sr_errors = 0x14

-- FLASH_SR_PGERR | FLASH_SR_WRPRTERR | FLASH_SR_EOP
abbrev pub flash_sr_clear : ℕ
flash_sr_clear = 0x34

abbrev pub flash_cr_pg : ℕ
flash_cr_pg = 0x01

abbrev pub flash_cr_per : ℕ
flash_cr_per = 0x02

abbrev pub flash_cr_strt : ℕ
flash_cr_strt = 0x40

abbrev pub flash_cr_lock : ℕ
flash_cr_lock = 0x80

abbrev pub flash_key1 : ℕ
flash_key1 = 0x45670123

abbrev pub flash_key2 : ℕ
flash_key2 = 0xCDEF89AB

-- A controller with state `D`. `value` is what a volatile read gives and `after` the state that it
-- leaves, since time passes; `program` is a half-word store into the array. An operation takes a
-- bounded number of further reads of FLASH_SR, `busy_for`.
pub record FlashPort (D : Type 0) : Type 0 where
  pub value : Reg → D → ℕ
  pub after : Reg → D → D
  pub write : Reg → ℕ → D → D
  pub program : ℕ → ℕ → D → D
  pub byte : D → ℕ → ℕ
  pub busy_for : D → ℕ
  pub busy_falls :
      (d : D) → has_bits (value sr d) flash_sr_bsy ≡ true → busy_for (after sr d) < busy_for d
