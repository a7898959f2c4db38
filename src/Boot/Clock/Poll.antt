-- ===== src/Boot/Clock/Poll.antt =====
-- rcc_wait as a bounded poll, and when clock_init succeeds.
use nova_voyager_bootloader.Base.{
  ℕ, zero, suc, ◌<◌, ◌≡◌, ◌↔◌, ◌⊎◌, sym, ap, ◌∙◌, inl, inr, refl, true, false, bit_and, ◌==◌,
  Bool-cases, arith,
}
use mathlib.Core.Bool.{false≢true}
use nova_voyager_bootloader.Boot.Clock.{
  ClockReg, ClockPort, Build, rcc_cr, rcc_cfgr, flash_acr, rcc_cr_hserdy, rcc_cr_pllon,
  rcc_cr_pllrdy, rcc_cfgr_sw_pll, rcc_cfgr_sws_pll, rcc_timeout, flash_acr_fast, rcc_cfgr_pll,
  reg_set, rcc_loop, rcc_wait, hse_start, wait_hse, wait_pll, wait_switch, clock_init,
  clock_fallback_hsi,
}

module _ {C : Type 0} (port : ClockPort C) where
  open port use {value, after, write}

  -- `k` reads of a register, one after the other.
  unfoldable pub reads : ClockReg → ℕ → C → C
  reads reg zero c = c
  reads reg (suc k) c = reads reg k (after reg c)

  -- One of the first `n` reads of the register, from `c` on, gives `want` under `mask`.
  abbrev pub Appears : ℕ → ClockReg → ℕ → ℕ → C → Type 0
  Appears n reg mask want c = (k : ℕ) × (k < n) × (bit_and (value reg (reads reg k c)) mask ≡ want)

  rcc_loop-Appears :
      (n : ℕ) (reg : ClockReg) (mask want : ℕ) (c : C)
      → (rcc_loop port n reg mask want c).0 ≡ true
      → Appears n reg mask want c
  unfolding rcc_loop reads
  rcc_loop-Appears zero reg mask want c h = ground arith
  rcc_loop-Appears (suc n) reg mask want c h =
      elim (Bool-cases (bit_and (value reg c) mask == want)) [
        | inl e ↦ (0, omega arith, ground arith)
        | inr e ↦
            let ih : (rcc_loop port n reg mask want (after reg c)).0 ≡ true = ground (arith, h) in
            let (k, l, q) = rcc_loop-Appears n reg mask want (after reg c) ih in
            (suc k, omega arith, q)
      ]

  Appears-rcc_loop :
      (n : ℕ) (reg : ClockReg) (mask want : ℕ) (c : C)
      → Appears n reg mask want c
      → (rcc_loop port n reg mask want c).0 ≡ true
  unfolding rcc_loop reads
  Appears-rcc_loop zero reg mask want c (k, l, q) = absurd (omega arith)
  Appears-rcc_loop (suc n) reg mask want c (zero, l, q) = ground arith
  Appears-rcc_loop (suc n) reg mask want c (suc k, l, q) =
      let ih = Appears-rcc_loop n reg mask want (after reg c) (k, omega arith, q) in ground arith

  -- rcc_wait returns true exactly if one of the first 200000 reads of the register gives the wanted
  -- value under the mask: it neither gives up early nor waits longer.
  pub rcc_wait_iff :
      (reg : ClockReg) (mask want : ℕ) (c : C)
      → ((rcc_wait port reg mask want c).0 ≡ true) ↔ Appears rcc_timeout reg mask want c
  unfolding rcc_wait
  rcc_wait_iff reg mask want c =
      (rcc_loop-Appears rcc_timeout reg mask want c, Appears-rcc_loop rcc_timeout reg mask want c)

  -- After success, the last read was the one that gave the wanted value.
  pub rcc_loop-seen :
      (n : ℕ) (reg : ClockReg) (mask want : ℕ) (c : C)
      → (rcc_loop port n reg mask want c).0 ≡ true
      → (e : C) × ((rcc_loop port n reg mask want c).1 ≡ after reg e)
        × (bit_and (value reg e) mask ≡ want)
  unfolding rcc_loop
  rcc_loop-seen zero reg mask want c h = ground arith
  rcc_loop-seen (suc n) reg mask want c h = elim (Bool-cases (bit_and (value reg c) mask == want)) [
    | inl e ↦ rw (e, rcc_loop) (c, refl, ground arith)
    | inr e ↦
        let ih : (rcc_loop port n reg mask want (after reg c)).0 ≡ true = ground (arith, h) in
        rw (e, rcc_loop) (rcc_loop-seen n reg mask want (after reg c) ih)
  ]

  -- What each read keeps, the wait keeps.
  pub rcc_loop_keeps :
      (P : C → Type 0) (reg : ClockReg)
      → ((c : C) → P c → P (after reg c))
      → (n mask want : ℕ) (c : C) → P c
      → P (rcc_loop port n reg mask want c).1
  unfolding rcc_loop
  rcc_loop_keeps P reg keep zero mask want c h = h
  rcc_loop_keeps P reg keep (suc n) mask want c h =
      elim (Bool-cases (bit_and (value reg c) mask == want)) [
        | inl e ↦ rw (e, rcc_loop) (keep c h)
        | inr e ↦ rw (e, rcc_loop) (rcc_loop_keeps P reg keep n mask want (after reg c) (keep c h))
      ]

  -- How clock_init ends, with the three waits.
  pub clock_init_cases :
      (b : Build) (c : C)
      → let (hse, c1) = wait_hse port b c in
        let (pll, c2) = wait_pll port b c1 in
        let (switched, c3) = wait_switch port c2 in
        ((hse ≡ false) × (clock_init port b c ≡ (false, clock_fallback_hsi port c1)))
        ⊎ (((hse ≡ true)
              × (pll ≡ false)
              × (clock_init port b c ≡ (false, clock_fallback_hsi port c2)))
            ⊎ (((hse ≡ true)
                  × (pll ≡ true)
                  × (switched ≡ false)
                  × (clock_init port b c ≡ (false, clock_fallback_hsi port c3)))
                ⊎ ((hse ≡ true)
                    × (pll ≡ true)
                    × (switched ≡ true)
                    × (clock_init port b c ≡ (true, c3)))))
  unfolding clock_init
  clock_init_cases b c =
      let c1 = (wait_hse port b c).1 in
      let c2 = (wait_pll port b c1).1 in
      elim (Bool-cases (wait_hse port b c).0) [
        | inr h ↦ inl (h, rw (h, clock_init) refl)
        | inl h ↦ inr (elim (Bool-cases (wait_pll port b c1).0) [
          | inr p ↦ inl (h, p, rw (h, p, clock_init) refl)
          | inl p ↦ inr (elim (Bool-cases (wait_switch port c2).0) [
            | inr s ↦ inl (h, p, s, rw (h, p, s, clock_init) refl)
            | inl s ↦ inr (h, p, s, rw (h, p, s, clock_init) refl)
          ])
        ])
      ]

  -- clock_init succeeds exactly if each of its three flags appears within 200000 reads: HSERDY
  -- once hse_start has run, then PLLRDY after the PLL is configured and switched on, then SWS =
  -- PLL after the switch. Any of them missing ends it, and it returns false.
  pub clock_init_iff :
      (b : Build) (c : C)
      → let c1 = (wait_hse port b c).1 in
        let c2 = (wait_pll port b c1).1 in
        ((clock_init port b c).0 ≡ true) ↔ (
          Appears rcc_timeout rcc_cr rcc_cr_hserdy rcc_cr_hserdy
            (hse_start port b.hse_fail_test (write flash_acr (flash_acr_fast b) c))
          × Appears rcc_timeout rcc_cr rcc_cr_pllrdy rcc_cr_pllrdy
              (reg_set port rcc_cr rcc_cr_pllon (write rcc_cfgr (rcc_cfgr_pll b) c1))
          × Appears rcc_timeout rcc_cfgr 0x0C rcc_cfgr_sws_pll
              (reg_set port rcc_cfgr rcc_cfgr_sw_pll c2))
  unfolding wait_hse wait_pll wait_switch
  clock_init_iff b c =
      let hse =
        rcc_wait_iff rcc_cr rcc_cr_hserdy rcc_cr_hserdy
          (hse_start port b.hse_fail_test (write flash_acr (flash_acr_fast b) c)) in
      let c1 = (wait_hse port b c).1 in
      let pll =
        rcc_wait_iff rcc_cr rcc_cr_pllrdy rcc_cr_pllrdy
          (reg_set port rcc_cr rcc_cr_pllon (write rcc_cfgr (rcc_cfgr_pll b) c1)) in
      let switched =
        rcc_wait_iff rcc_cfgr 0x0C rcc_cfgr_sws_pll
          (reg_set port rcc_cfgr rcc_cfgr_sw_pll (wait_pll port b c1).1) in
      elim (clock_init_cases b c) [
        | inl (h, e) ↦ (
          λ t. absurd (false≢true (sym (ap (λ r. r.0) e) ∙ t)),
          λ q. absurd (false≢true (sym h ∙ hse.1 q.0)),
        )
        | inr (inl (h, p, e)) ↦ (
          λ t. absurd (false≢true (sym (ap (λ r. r.0) e) ∙ t)),
          λ q. absurd (false≢true (sym p ∙ pll.1 q.1)),
        )
        | inr (inr (inl (h, p, s, e))) ↦ (
          λ t. absurd (false≢true (sym (ap (λ r. r.0) e) ∙ t)),
          λ q. absurd (false≢true (sym s ∙ switched.1 q.2)),
        )
        | inr (inr (inr (h, p, s, e))) ↦
            (λ t. (hse.0 h, pll.0 p, switched.0 s), λ q. ap (λ r. r.0) e)
      ]
