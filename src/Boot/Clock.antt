-- ===== src/Boot/Clock.antt =====
-- The clock set-up of src/main.c: rcc_wait, hse_start, clock_fallback_hsi and clock_init. The
-- registers are hardware, hence a parameter.
pub mod Poll
pub mod State
pub mod Stages
pub mod Result
pub mod Sim
mod Tests
use nova_voyager_bootloader.Base.{
  ℕ, zero, suc, ◌+◌, ◌-◌, ◌<◌, ◌≡◌, ◌↔◌, inl, inr, refl, Bool, true, false, bit_and, bit_or, ◌==◌,
  if◌then◌else◌, Bool-cases, arith,
}

-- The registers of the clock set-up.
pub data ClockReg : Type 0 where
  rcc_cr rcc_cfgr flash_acr : ClockReg

-- What a volatile read gives, the state that it leaves, and a write.
pub record ClockPort (C : Type 0) : Type 0 where
  pub value : ClockReg → C → ℕ
  pub after : ClockReg → C → C
  pub write : ClockReg → ℕ → C → C

abbrev pub rcc_cr_hseon : ℕ
rcc_cr_hseon = 0x10000

abbrev pub rcc_cr_hserdy : ℕ
rcc_cr_hserdy = 0x20000

abbrev pub rcc_cr_pllon : ℕ
rcc_cr_pllon = 0x1000000

abbrev pub rcc_cr_pllrdy : ℕ
rcc_cr_pllrdy = 0x2000000

abbrev pub rcc_cfgr_sw_pll : ℕ
rcc_cfgr_sw_pll = 0x02

abbrev pub rcc_cfgr_sws_pll : ℕ
rcc_cfgr_sws_pll = 0x08

abbrev pub rcc_timeout : ℕ
rcc_timeout = 200000

-- The two switches of the build, USE_120MHZ and HSE_FAIL_TEST.
pub record Build : Type 0 where
  pub use_120mhz : Bool
  pub hse_fail_test : Bool

-- The wait states and prefetch that clock_init writes to FLASH_ACR.
abbrev pub flash_acr_fast : Build → ℕ
flash_acr_fast b = if b.use_120mhz then 0x33 else 0x32

-- RCC_CFGR_PLLSRC_HSE | RCC_CFGR_PLLMULL15 | RCC_CFGR_PPRE1_DIV4, or
-- RCC_CFGR_PLLSRC_HSE | RCC_CFGR_PLLMULL9 | RCC_CFGR_PPRE1_DIV2
abbrev pub rcc_cfgr_pll : Build → ℕ
rcc_cfgr_pll b = if b.use_120mhz then 0x350500 else 0x1D0400

module _ {C : Type 0} (port : ClockPort C) where
  open port use {value, after, write}

  -- `reg |= mask` and `reg &= ~mask`
  unfoldable pub reg_set : ClockReg → ℕ → C → C
  reg_set reg mask c = write reg (bit_or (value reg c) mask) (after reg c)

  unfoldable pub reg_clear : ClockReg → ℕ → C → C
  reg_clear reg mask c = write reg (bit_and (value reg c) (0xFFFFFFFF - mask)) (after reg c)

  -- The loop of rcc_wait with `n` rounds left.
  unfoldable pub rcc_loop : ℕ → ClockReg → ℕ → ℕ → C → Bool × C
  rcc_loop zero reg mask want c = (false, c)
  rcc_loop (suc n) reg mask want c =
      let rest = rcc_loop n reg mask want (after reg c) in
      if bit_and (value reg c) mask == want then (true, after reg c) else rest

  unfoldable pub rcc_wait : ClockReg → ℕ → ℕ → C → Bool × C
  rcc_wait reg mask want c = rcc_loop rcc_timeout reg mask want c

  unfoldable pub hse_start : Bool → C → C
  hse_start hse_fail_test c =
      if hse_fail_test
      then (rcc_wait rcc_cr rcc_cr_hserdy 0 (reg_clear rcc_cr rcc_cr_hseon c)).1
      else reg_set rcc_cr rcc_cr_hseon c

  unfoldable pub clock_fallback_hsi : C → C
  clock_fallback_hsi c =
      write flash_acr 0x30 (reg_clear rcc_cr (rcc_cr_pllon + rcc_cr_hseon) (write rcc_cfgr 0 c))

  -- The three stages of clock_init, each up to its wait.
  unfoldable pub wait_hse : Build → C → Bool × C
  wait_hse b c =
      rcc_wait rcc_cr rcc_cr_hserdy rcc_cr_hserdy
        (hse_start b.hse_fail_test (write flash_acr (flash_acr_fast b) c))

  unfoldable pub wait_pll : Build → C → Bool × C
  wait_pll b c =
      rcc_wait rcc_cr rcc_cr_pllrdy rcc_cr_pllrdy
        (reg_set rcc_cr rcc_cr_pllon (write rcc_cfgr (rcc_cfgr_pll b) c))

  unfoldable pub wait_switch : C → Bool × C
  wait_switch c = rcc_wait rcc_cfgr 0x0C rcc_cfgr_sws_pll (reg_set rcc_cfgr rcc_cfgr_sw_pll c)

  unfoldable pub clock_init : Build → C → Bool × C
  clock_init b c0 =
      let (hse, c1) = wait_hse b c0 in
      elim hse [
        | false ↦ (false, clock_fallback_hsi c1)
        | true ↦
            let (pll, c2) = wait_pll b c1 in
            elim pll [
              | false ↦ (false, clock_fallback_hsi c2)
              | true ↦
                  let (switched, c3) = wait_switch c2 in
                  elim switched [ false ↦ (false, clock_fallback_hsi c3) | true ↦ (true, c3) ]
            ]
      ]
