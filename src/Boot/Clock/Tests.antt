-- ===== src/Boot/Clock/Tests.antt =====
-- The clock set-up on concrete inputs.
use nova_voyager_bootloader.Base.{
  arith, ℕ, zero, suc, ◌*◌, ◌≡◌, ◌↔◌, refl, ap, ◌∙◌, true, false, bit_and, mask_laws, if◌then◌else◌,
  Bool-cases, inl, inr,
}
use nova_voyager_bootloader.Boot.Clock.{
  ClockReg, Build, rcc_cr, rcc_cfgr, flash_acr, rcc_cr_pllon, rcc_cr_hserdy, rcc_cr_pllrdy,
  rcc_cfgr_sw_pll, rcc_cfgr_sws_pll, rcc_timeout, reg_set, rcc_loop, rcc_wait, hse_start, wait_hse,
  wait_pll, clock_init,
}
use nova_voyager_bootloader.Boot.Clock.Poll.{Appears, reads, rcc_wait_iff, clock_init_iff}
use nova_voyager_bootloader.Boot.Clock.State.{oscillators, prescalers, wait_states, pll, get, IsHsi}
use nova_voyager_bootloader.Boot.Clock.Result.{
  pll_factor, apb1_divider, ahb_divider, pll_input_divider, clock_init_lem, clock_init_leftover,
}
use nova_voyager_bootloader.Boot.Clock.Sim.{Clocks, clocks, clocks-IsClock}

-- After a reset, with a crystal that runs and a PLL that never locks.
abbrev unlocked : Clocks
unlocked = record { acr = 0x30; on = 0; ready = 0x20000; free = 0; pll = 0; sws = 0 }

abbrev production : Build
production = record { use_120mhz = false; hse_fail_test = false }

clock_init_iff_example :
    let c1 = (wait_hse clocks production unlocked).1 in
    let c2 = (wait_pll clocks production c1).1 in
    ((clock_init clocks production unlocked).0 ≡ true) ↔ (
      Appears clocks rcc_timeout rcc_cr rcc_cr_hserdy rcc_cr_hserdy
        (hse_start clocks false (clocks.write flash_acr 0x32 unlocked))
      × Appears clocks rcc_timeout rcc_cr rcc_cr_pllrdy rcc_cr_pllrdy
          (reg_set clocks rcc_cr rcc_cr_pllon (clocks.write rcc_cfgr 0x1D0400 c1))
      × Appears clocks rcc_timeout rcc_cfgr 0x0C rcc_cfgr_sws_pll
          (reg_set clocks rcc_cfgr rcc_cfgr_sw_pll c2))
clock_init_iff_example = clock_init_iff clocks production unlocked

clock_init_lem_example :
    let (ok, d) = clock_init clocks production unlocked in
    (ok ≡ true
      → ((e : Clocks) × (d ≡ e) × (bit_and (clocks.value rcc_cfgr e) 0x0C ≡ rcc_cfgr_sws_pll))
        × (bit_and (get clocks pll d) 0x10000 ≡ 0x10000)
        × (8000000 * pll_factor (get clocks pll d)
            ≡ 72000000 * pll_input_divider (get clocks pll d))
        × (ahb_divider (get clocks prescalers d) ≡ 1)
        × (36000000
              * (ahb_divider (get clocks prescalers d) * apb1_divider (get clocks prescalers d))
            ≡ 72000000)
        × (bit_and (get clocks prescalers d) 0x400000 ≡ 0)
        × (get clocks wait_states d ≡ 0x32))
    × (ok ≡ false
        → IsHsi clocks d
          × (get clocks prescalers d ≡ 0)
          × (get clocks oscillators d ≡ 0)
          × (get clocks wait_states d ≡ 0x30))
clock_init_lem_example = clock_init_lem clocks clocks-IsClock production unlocked refl refl

-- The registers stand still between two reads.
still : (reg : ClockReg) (k : ℕ) (c : Clocks) → reads clocks reg k c ≡ c
unfolding reads
still reg zero c = refl
still reg (suc k) c = still reg k c

waits :
    (n : ℕ) (reg : ClockReg) (mask want : ℕ) (c : Clocks)
    → (rcc_loop clocks n reg mask want c).1 ≡ c
unfolding rcc_loop
waits zero reg mask want c = refl
waits (suc n) reg mask want c = let ih = waits n reg mask want c in ground arith

hse_found : (wait_hse clocks production unlocked).0 ≡ true
unfolding wait_hse hse_start reg_set reads
hse_found = (rcc_wait_iff clocks rcc_cr rcc_cr_hserdy rcc_cr_hserdy _).1 (0, omega arith, refl)

-- PLLRDY does not appear.
pll_unseen :
    (c : Clocks)
    → c.ready ≡ 0x20000
    → ¬ Appears clocks rcc_timeout rcc_cr rcc_cr_pllrdy rcc_cr_pllrdy c
pll_unseen c h (k, l, q) =
    let e : bit_and (clocks.value rcc_cr c) 0x2000000 ≡ 0 = rw h (simp mask_laws) in
    omega (arith, q, ap (λ d. bit_and (clocks.value rcc_cr d) 0x2000000) (still rcc_cr k c) ∙ e)

pll_missing : (clock_init clocks production unlocked).0 ≡ false
unfolding wait_hse rcc_wait reg_set hse_start
pll_missing = elim (Bool-cases (clock_init clocks production unlocked).0) [
  | inr e ↦ e
  | inl e ↦ absurd (
      pll_unseen _ (ap (λ c. c.ready) (waits rcc_timeout rcc_cr _ _ _))
        ((clock_init_iff clocks production unlocked).0 e).1)
]

clock_init_leftover_example :
    get clocks pll (clock_init clocks production unlocked).1
    ≡ (if (wait_hse clocks production unlocked).0 then 0x1D0000 else 0)
clock_init_leftover_example =
    clock_init_leftover clocks clocks-IsClock production unlocked refl refl pll_missing

-- So the PLL's configuration stays when its lock is what fails.
pll_left : get clocks pll (clock_init clocks production unlocked).1 ≡ 0x1D0000
pll_left = clock_init_leftover_example ∙ ap (λ h. if h then 0x1D0000 else 0) hse_found
