-- ===== src/Boot/Clock/Stages.antt =====
-- clock_init of src/main.c, stage by stage.
use nova_voyager_bootloader.Base.{
  ℕ, ◌-◌, Bool-cases, ◌≡◌, ◌⊎◌, inl, inr, refl, ap, ◌∙◌, Bool, true, false, bit_and, bit_or,
  set_bit, if◌then◌else◌,
}
use nova_voyager_bootloader.Boot.Clock.{
  ClockPort, Build, rcc_cr, rcc_cfgr, flash_acr, rcc_cr_hserdy, rcc_cr_pllon, rcc_cr_pllrdy,
  rcc_cfgr_sw_pll, rcc_cfgr_sws_pll, rcc_timeout, flash_acr_fast, rcc_cfgr_pll, reg_set, rcc_wait,
  wait_hse, wait_pll, wait_switch, clock_init, clock_fallback_hsi,
}
use nova_voyager_bootloader.Boot.Clock.Poll.{rcc_loop-seen, clock_init_cases}
use nova_voyager_bootloader.Boot.Clock.State.{
  ConfigField, wait_states, oscillators, prescalers, pll, settings, get, IsHsi, IsConfigured,
  IsClock, hse_on, IsConfigured-after, IsConfigured-wait, IsConfigured-acr, IsConfigured-cfgr,
  IsConfigured-on, IsConfigured-hse_start, IsConfigured-fallback, IsHsi-wait,
}

module _ {C : Type 0} (port : ClockPort C) (doc : IsClock port) where
  abbrev pub acr : Build → ℕ
  acr b = bit_and (flash_acr_fast b) 0x37

  -- HSEON and PLLON once both are started.
  abbrev pub both_on : Build → ℕ
  both_on b = bit_or (hse_on port doc b.hse_fail_test) rcc_cr_pllon

  wait_hse-IsConfigured :
      (b : Build) {a p m : ℕ} {c : C}
      → IsConfigured port (settings a 0 p m) c
      → IsHsi port c
      → let d = (wait_hse port b c).1 in
        IsConfigured port (settings (acr b) (hse_on port doc b.hse_fail_test) p m) d × IsHsi port d
  unfolding wait_hse
  wait_hse-IsConfigured b {c = c} h s =
      let k =
        IsConfigured-hse_start port doc b.hse_fail_test
          (IsConfigured-acr port doc (flash_acr_fast b) h)
          (doc.hsi_other flash_acr (flash_acr_fast b) c refl s) in
      (
        IsConfigured-wait port doc rcc_cr rcc_cr_hserdy rcc_cr_hserdy k.0,
        IsHsi-wait port doc rcc_cr rcc_cr_hserdy rcc_cr_hserdy _ k.1,
      )

  hse_no_pll : (t : Bool) → bit_and (hse_on port doc t) rcc_cr_pllon ≡ 0
  hse_no_pll true = refl
  hse_no_pll false = refl

  cfgr_hsi : (b : Build) → bit_and (rcc_cfgr_pll b) 0x03 ≡ 0
  cfgr_hsi b = elim (Bool-cases b.use_120mhz) [ inl e ↦ rw e refl | inr e ↦ rw e refl ]

  wait_pll-IsConfigured :
      (b : Build) {p m : ℕ} {c : C}
      → IsConfigured port (settings (acr b) (hse_on port doc b.hse_fail_test) p m) c
      → IsHsi port c
      → let d = (wait_pll port b c).1 in
        IsConfigured port
          (settings
            (acr b)
            (both_on b)
            (bit_and (rcc_cfgr_pll b) 0x40FFF3)
            (bit_and (rcc_cfgr_pll b) 0x3F0000))
          d
        × IsHsi port d
  unfolding wait_pll
  wait_pll-IsConfigured b {c = c} h s =
      let off : bit_and (get port oscillators c) rcc_cr_pllon ≡ 0 =
        ap (λ n. bit_and n rcc_cr_pllon) (h.has oscillators) ∙ hse_no_pll b.hse_fail_test in
      let k =
        IsConfigured-on port doc rcc_cr_pllon
          (IsConfigured-cfgr port doc (rcc_cfgr_pll b) h refl
            (doc.pll_stored (rcc_cfgr_pll b) c off))
          (doc.hsi_selected (rcc_cfgr_pll b) c (cfgr_hsi b)) in
      (
        IsConfigured-wait port doc rcc_cr rcc_cr_pllrdy rcc_cr_pllrdy k.0,
        IsHsi-wait port doc rcc_cr rcc_cr_pllrdy rcc_cr_pllrdy _ k.1,
      )

  pll_is_on :
      (t : Bool) → bit_and (bit_or (hse_on port doc t) rcc_cr_pllon) rcc_cr_pllon ≡ rcc_cr_pllon
  pll_is_on true = refl
  pll_is_on false = refl

  wait_switch-IsConfigured :
      (b : Build) {p m : ℕ} {c : C}
      → IsConfigured port (settings (acr b) (both_on b) p m) c
      → IsConfigured port
          (settings (acr b) (both_on b) (bit_or p rcc_cfgr_sw_pll) m)
          (wait_switch port c).1
  unfolding wait_switch reg_set
  wait_switch-IsConfigured b {p} {m} {c} h =
      let k = IsConfigured-after port doc rcc_cfgr h in
      let on : bit_and (get port oscillators (port.after rcc_cfgr c)) rcc_cr_pllon ≡ rcc_cr_pllon =
        ap (λ n. bit_and n rcc_cr_pllon) (k.has oscillators) ∙ pll_is_on b.hse_fail_test in
      IsConfigured-wait port doc rcc_cfgr 0x0C rcc_cfgr_sws_pll (
        IsConfigured-cfgr port doc _ k
          (set_bit (port.value rcc_cfgr c) rcc_cfgr_sw_pll 0x40FFF3 (h.has prescalers))
          (doc.pll_kept _ (port.after rcc_cfgr c) on ∙ k.has pll))

  all_off :
      (t : Bool) → bit_and (bit_or (hse_on port doc t) rcc_cr_pllon) (0xFFFFFFFF - 0x1010000) ≡ 0
  all_off true = refl
  all_off false = refl

  hse_off : (t : Bool) → bit_and (hse_on port doc t) (0xFFFFFFFF - 0x1010000) ≡ 0
  hse_off true = refl
  hse_off false = refl

  -- The fallback while PLLON is set.
  fallback_late :
      (b : Build) {p m : ℕ} {c : C}
      → IsConfigured port (settings (acr b) (both_on b) p m) c
      → IsConfigured port (settings 0x30 0 0 m) (clock_fallback_hsi port c)
        × IsHsi port (clock_fallback_hsi port c)
  fallback_late b {c = c} h =
      let on : bit_and (get port oscillators c) rcc_cr_pllon ≡ rcc_cr_pllon =
        ap (λ n. bit_and n rcc_cr_pllon) (h.has oscillators) ∙ pll_is_on b.hse_fail_test in
      IsConfigured-fallback port doc h (all_off b.hse_fail_test) (doc.pll_kept 0 c on ∙ h.has pll)

  -- The fallback after the wait for HSERDY, with PLLON clear.
  fallback_early :
      (b : Build) {a p m : ℕ} {c : C}
      → IsConfigured port (settings a (hse_on port doc b.hse_fail_test) p m) c
      → IsConfigured port (settings 0x30 0 0 0) (clock_fallback_hsi port c)
        × IsHsi port (clock_fallback_hsi port c)
  fallback_early b {c = c} h =
      let off : bit_and (get port oscillators c) rcc_cr_pllon ≡ 0 =
        ap (λ n. bit_and n rcc_cr_pllon) (h.has oscillators) ∙ hse_no_pll b.hse_fail_test in
      IsConfigured-fallback port doc h (hse_off b.hse_fail_test) (doc.pll_stored 0 c off)

  pub clock_init_ends :
      (b : Build) (c : C)
      → get port oscillators c ≡ 0
      → IsHsi port c
      → let (ok, d) = clock_init port b c in
        let m = bit_and (rcc_cfgr_pll b) 0x3F0000 in
        ((ok ≡ true)
          × IsConfigured port
              (settings
                (acr b)
                (both_on b)
                (bit_or (bit_and (rcc_cfgr_pll b) 0x40FFF3) rcc_cfgr_sw_pll)
                m)
              d
          × ((e : C) × (d ≡ port.after rcc_cfgr e)
              × (bit_and (port.value rcc_cfgr e) 0x0C ≡ rcc_cfgr_sws_pll)))
        ⊎ ((ok ≡ false)
            × IsConfigured port (settings 0x30 0 0 (if (wait_hse port b c).0 then m else 0)) d
            × IsHsi port d)
  unfolding wait_switch rcc_wait
  clock_init_ends b c off hsi =
      let start : IsConfigured port
          (settings (get port wait_states c) 0 (get port prescalers c) (get port pll c)) c =
        record { has = start_fields } in
      let s1 = wait_hse-IsConfigured b start hsi in
      let c1 = (wait_hse port b c).1 in
      let s2 = wait_pll-IsConfigured b s1.0 s1.1 in
      let c2 = (wait_pll port b c1).1 in
      let s3 = wait_switch-IsConfigured b s2.0 in
      elim (clock_init_cases port b c) [
        | inl (h, e) ↦ let f = fallback_early b s1.0 in rw (e, h) (inr (refl, f.0, f.1))
        | inr (inl (h, p, e)) ↦ let f = fallback_late b s2.0 in rw (e, h) (inr (refl, f.0, f.1))
        | inr (inr (inl (h, p, s, e))) ↦
            let f = fallback_late b s3 in rw (e, h) (inr (refl, f.0, f.1))
        | inr (inr (inr (h, p, s, e))) ↦ rw e (
            inl (
              refl,
              s3,
              rcc_loop-seen port rcc_timeout rcc_cfgr 0x0C rcc_cfgr_sws_pll
                  (reg_set port rcc_cfgr rcc_cfgr_sw_pll c2) s,
            ))
      ]
    where
      start_fields :
          (f : ConfigField)
          → get port f c
            ≡ settings (get port wait_states c) 0 (get port prescalers c) (get port pll c) f
      start_fields wait_states = refl
      start_fields oscillators = off
      start_fields prescalers = refl
      start_fields pll = refl
