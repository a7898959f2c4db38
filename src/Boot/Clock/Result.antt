-- ===== src/Boot/Clock/Result.antt =====
-- What clock_init of src/main.c leaves behind, on success and on failure.
use nova_voyager_bootloader.Base.{
  ℕ, ◌+◌, Bool-cases, ◌*◌, ◌/◌, ◌%◌, ◌^◌, ◌≡◌, inl, inr, refl, sym, ap, ◌∙◌, true, false, bit_and,
  bit_or, ltb, ◌==◌, if◌then◌else◌,
}
use mathlib.Core.Bool.{false≢true}
use mathlib.Core.Path.{subst}
use nova_voyager_bootloader.Boot.Clock.{
  ClockPort, Build, rcc_cfgr, rcc_cfgr_sw_pll, rcc_cfgr_sws_pll, flash_acr_fast, rcc_cfgr_pll,
  wait_hse, clock_init,
}
use nova_voyager_bootloader.Boot.Clock.State.{
  wait_states, oscillators, prescalers, pll, get, mask_of, IsHsi, IsClock,
}
use nova_voyager_bootloader.Boot.Clock.Stages.{clock_init_ends}

-- The factor of the PLL, and the divider of APB1, from the fields of RCC_CFGR.
abbrev pub pll_factor : ℕ → ℕ
pll_factor m = m / 2 ^ 18 % 16 + 2

abbrev pub apb1_divider : ℕ → ℕ
apb1_divider p = if p / 2 ^ 10 % 2 == 0 then 1 else 2 ^ (p / 2 ^ 8 % 4 + 1)

-- The divider of the HSE on its way to the PLL, PLLXTPRE, and the divider of AHB, HPRE.
abbrev pub pll_input_divider : ℕ → ℕ
pll_input_divider m = if m / 2 ^ 17 % 2 == 0 then 1 else 2

abbrev pub ahb_divider : ℕ → ℕ
ahb_divider p =
    if p / 2 ^ 7 % 2 == 0
    then 1
    else if ltb (p / 2 ^ 4 % 8) 4
    then 2 ^ (p / 2 ^ 4 % 8 + 1)
    else 2 ^ (p / 2 ^ 4 % 8 + 2)

-- The system clock of a build, and its APB1 clock.
abbrev pub sysclk_hz : Build → ℕ
sysclk_hz b = if b.use_120mhz then 120000000 else 72000000

abbrev pub pclk1_hz : Build → ℕ
pclk1_hz b = if b.use_120mhz then 30000000 else 36000000

-- The fields that clock_init writes, as clocks.
clocks :
    (b : Build)
    → let m = bit_and (rcc_cfgr_pll b) 0x3F0000 in
      let p = bit_or (bit_and (rcc_cfgr_pll b) 0x40FFF3) rcc_cfgr_sw_pll in
      (bit_and m 0x10000 ≡ 0x10000)
      × (8000000 * pll_factor m ≡ sysclk_hz b * pll_input_divider m)
      × (ahb_divider p ≡ 1)
      × (pclk1_hz b * (ahb_divider p * apb1_divider p) ≡ sysclk_hz b)
      × (bit_and p 0x400000 ≡ 0)
      × (bit_and (flash_acr_fast b) 0x37 ≡ flash_acr_fast b)
clocks b = elim (Bool-cases b.use_120mhz) [
  | inl e ↦ rw e (refl, refl, refl, refl, refl, refl)
  | inr e ↦ rw e (refl, refl, refl, refl, refl, refl)
]

module _ {C : Type 0} (port : ClockPort C) (doc : IsClock port) where
  -- From the reset state of the clock registers, that is with the HSI driving the system clock and
  -- HSEON and PLLON clear. If clock_init succeeds, its last read gave SWS = PLL; the PLL takes the
  -- HSE, which is 8 MHz, divided as PLLXTPRE says, and gives 72 MHz, or 120 MHz in the other build;
  -- AHB runs at that clock, by HPRE; APB1 runs at 36 or 30 MHz, by HPRE and PPRE1; USBPRE divides
  -- by 1.5; and FLASH_ACR holds the wait states of that build. If it fails, the HSI drives the
  -- system clock, every prescaler is 1, HSEON and PLLON are clear, and FLASH_ACR holds no wait
  -- states with the prefetch buffer on.
  pub clock_init_lem :
      (b : Build) (c : C)
      → get port oscillators c ≡ 0
      → IsHsi port c
      → let (ok, d) = clock_init port b c in
        (ok ≡ true
          → ((e : C) × (d ≡ port.after rcc_cfgr e)
              × (bit_and (port.value rcc_cfgr e) 0x0C ≡ rcc_cfgr_sws_pll))
            × (bit_and (get port pll d) 0x10000 ≡ 0x10000)
            × (8000000 * pll_factor (get port pll d)
                ≡ sysclk_hz b * pll_input_divider (get port pll d))
            × (ahb_divider (get port prescalers d) ≡ 1)
            × (pclk1_hz b
                  * (ahb_divider (get port prescalers d) * apb1_divider (get port prescalers d))
                ≡ sysclk_hz b)
            × (bit_and (get port prescalers d) 0x400000 ≡ 0)
            × (get port wait_states d ≡ flash_acr_fast b))
        × (ok ≡ false
            → IsHsi port d
              × (get port prescalers d ≡ 0)
              × (get port oscillators d ≡ 0)
              × (get port wait_states d ≡ 0x30))
  clock_init_lem b c off hsi = elim (clock_init_ends port doc b c off hsi) [
    | inl (ok, h, seen) ↦ (
      λ t. (
        seen,
        ap (λ n. bit_and n 0x10000) (h.has pll) ∙ (clocks b).0,
        subst (λ n. 8000000 * pll_factor n ≡ sysclk_hz b * pll_input_divider n) (sym (h.has pll))
            (clocks b).1,
        ap ahb_divider (h.has prescalers) ∙ (clocks b).2,
        ap (λ n. pclk1_hz b * (ahb_divider n * apb1_divider n)) (h.has prescalers) ∙ (clocks b).3,
        ap (λ n. bit_and n 0x400000) (h.has prescalers) ∙ (clocks b).4,
        h.has wait_states ∙ (clocks b).5,
      ),
      λ t. absurd (false≢true (sym t ∙ ok)),
    )
    | inr (ok, h, s) ↦ (
      λ t. absurd (false≢true (sym ok ∙ t)),
      λ t. (s, h.has prescalers, h.has oscillators, h.has wait_states),
    )
  ]

  -- After a failure from that state, the PLL's configuration is 0 if HSERDY never appeared, but if
  -- the PLL or the switch failed, it is still the one that clock_init had written: the write of 0
  -- to RCC_CFGR comes while PLLON is set.
  pub clock_init_leftover :
      (b : Build) (c : C)
      → get port oscillators c ≡ 0
      → IsHsi port c
      → let (ok, d) = clock_init port b c in
        ok ≡ false
        → get port pll d
          ≡ (if (wait_hse port b c).0 then bit_and (rcc_cfgr_pll b) (mask_of pll) else 0)
  clock_init_leftover b c off hsi t = elim (clock_init_ends port doc b c off hsi) [
    | inl (ok, h, seen) ↦ absurd (false≢true (sym t ∙ ok))
    | inr (ok, h, s) ↦ h.has pll
  ]
