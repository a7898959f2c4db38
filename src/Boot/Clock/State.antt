-- ===== src/Boot/Clock/State.antt =====
-- The clock registers as documented, and what each statement of the clock set-up does to their
-- configuration fields.
use nova_voyager_bootloader.Base.{
  ℕ, ◌-◌, ◌≡◌, refl, ◌∙◌, Bool, true, false, bit_and, bit_or, set_bit, clear_bits,
}
use mathlib.Core.Path.{subst}
use nova_voyager_bootloader.Boot.Clock.{
  ClockReg, ClockPort, rcc_cr, rcc_cfgr, flash_acr, rcc_cr_hseon, rcc_cr_hserdy, rcc_cr_pllon,
  rcc_timeout, reg_set, reg_clear, rcc_wait, hse_start, clock_fallback_hsi,
}
use nova_voyager_bootloader.Boot.Clock.Poll.{rcc_loop_keeps}

-- What software configures: LATENCY and the prefetch buffer of FLASH_ACR; HSEON and PLLON of
-- RCC_CR; SW, USBPRE and the bus and ADC prescalers of RCC_CFGR; and its PLLSRC, PLLXTPRE and
-- PLLMUL.
pub data ConfigField : Type 0 where
  wait_states oscillators prescalers pll : ConfigField

abbrev pub reg_of : ConfigField → ClockReg
reg_of wait_states = flash_acr
reg_of oscillators = rcc_cr
reg_of prescalers = rcc_cfgr
reg_of pll = rcc_cfgr

abbrev pub mask_of : ConfigField → ℕ
mask_of wait_states = 0x37
mask_of oscillators = 0x1010000
mask_of prescalers = 0x40FFF3
mask_of pll = 0x3F0000

abbrev pub same_reg : ClockReg → ClockReg → Bool
same_reg rcc_cr rcc_cr = true
same_reg rcc_cfgr rcc_cfgr = true
same_reg flash_acr flash_acr = true
same_reg _ _ = false

abbrev pub settings : ℕ → ℕ → ℕ → ℕ → ConfigField → ℕ
settings a o p m wait_states = a
settings a o p m oscillators = o
settings a o p m prescalers = p
settings a o p m pll = m

module _ {C : Type 0} (port : ClockPort C) where
  abbrev pub get : ConfigField → C → ℕ
  get f c = bit_and (port.value (reg_of f) c) (mask_of f)

  -- SW and SWS name the HSI.
  abbrev pub IsHsi : C → Type 0
  IsHsi c = bit_and (port.value rcc_cfgr c) 0x0F ≡ 0

  -- Every field is as in `w`.
  pub record IsConfigured (w : ConfigField → ℕ) (c : C) : Type 0 where
    pub has : (f : ConfigField) → get f c ≡ w f

  -- The documented behaviour. Only a write of its register changes a field. FLASH_ACR and the
  -- prescalers store what is written; HSEON and PLLON do so while the HSI drives the system clock;
  -- the PLL's configuration does so while PLLON is clear, and stays while it is set. The HSI is
  -- always ready: it drives the system clock once SW names it, and until SW is written again.
  pub record IsClock : Type 0 where
    pub after_field : (r : ClockReg) (f : ConfigField) (c : C) → get f (port.after r c) ≡ get f c
    pub other_field :
        (r : ClockReg) (v : ℕ) (f : ConfigField) (c : C)
        → same_reg r (reg_of f) ≡ false
        → get f (port.write r v c) ≡ get f c
    pub acr_stored :
        (v : ℕ) (c : C)
        → get wait_states (port.write flash_acr v c) ≡ bit_and v (mask_of wait_states)
    pub cr_stored :
        (v : ℕ) (c : C)
        → IsHsi c
        → get oscillators (port.write rcc_cr v c) ≡ bit_and v (mask_of oscillators)
    pub cfgr_stored :
        (v : ℕ) (c : C) → get prescalers (port.write rcc_cfgr v c) ≡ bit_and v (mask_of prescalers)
    pub pll_stored :
        (v : ℕ) (c : C)
        → bit_and (get oscillators c) rcc_cr_pllon ≡ 0
        → get pll (port.write rcc_cfgr v c) ≡ bit_and v (mask_of pll)
    pub pll_kept :
        (v : ℕ) (c : C)
        → bit_and (get oscillators c) rcc_cr_pllon ≡ rcc_cr_pllon
        → get pll (port.write rcc_cfgr v c) ≡ get pll c
    pub hsi_after : (r : ClockReg) (c : C) → IsHsi c → IsHsi (port.after r c)
    pub hsi_other :
        (r : ClockReg) (v : ℕ) (c : C)
        → same_reg r rcc_cfgr ≡ false
        → IsHsi c
        → IsHsi (port.write r v c)
    pub hsi_selected : (v : ℕ) (c : C) → bit_and v 0x03 ≡ 0 → IsHsi (port.write rcc_cfgr v c)

  module _ (doc : IsClock) where
    pub IsConfigured-after :
        {w : ConfigField → ℕ} (r : ClockReg) {c : C}
        → IsConfigured w c
        → IsConfigured w (port.after r c)
    IsConfigured-after r {c} h = record { has = λ f. doc.after_field r f c ∙ h.has f }

    pub IsConfigured-wait :
        {w : ConfigField → ℕ} (r : ClockReg) (mask want : ℕ) {c : C}
        → IsConfigured w c
        → IsConfigured w (rcc_wait port r mask want c).1
    unfolding rcc_wait
    IsConfigured-wait {w} r mask want {c} h =
        rcc_loop_keeps port (IsConfigured w) r (λ d k. IsConfigured-after r k) rcc_timeout mask want
          c h

    pub IsHsi-wait :
        (r : ClockReg) (mask want : ℕ) (c : C) → IsHsi c → IsHsi (rcc_wait port r mask want c).1
    unfolding rcc_wait
    IsHsi-wait r mask want c h =
        rcc_loop_keeps port IsHsi r (λ d k. doc.hsi_after r d k) rcc_timeout mask want c h

    pub IsConfigured-acr :
        {a o p m : ℕ} (v : ℕ) {c : C}
        → IsConfigured (settings a o p m) c
        → IsConfigured (settings (bit_and v 0x37) o p m) (port.write flash_acr v c)
    IsConfigured-acr {a} {o} {p} {m} v {c} h = record { has = λ f. fields f }
      where
        fields :
            (f : ConfigField) → get f (port.write flash_acr v c) ≡ settings (bit_and v 0x37) o p m f
        fields wait_states = doc.acr_stored v c
        fields oscillators = doc.other_field flash_acr v oscillators c refl ∙ h.has oscillators
        fields prescalers = doc.other_field flash_acr v prescalers c refl ∙ h.has prescalers
        fields pll = doc.other_field flash_acr v pll c refl ∙ h.has pll

    IsConfigured-cr :
        {a o p m o' : ℕ} (v : ℕ) {c : C}
        → IsConfigured (settings a o p m) c
        → IsHsi c
        → bit_and v 0x1010000 ≡ o'
        → IsConfigured (settings a o' p m) (port.write rcc_cr v c)
    IsConfigured-cr {a} {o} {p} {m} {o'} v {c} h s e = record { has = λ f. fields f }
      where
        fields : (f : ConfigField) → get f (port.write rcc_cr v c) ≡ settings a o' p m f
        fields wait_states = doc.other_field rcc_cr v wait_states c refl ∙ h.has wait_states
        fields oscillators = doc.cr_stored v c s ∙ e
        fields prescalers = doc.other_field rcc_cr v prescalers c refl ∙ h.has prescalers
        fields pll = doc.other_field rcc_cr v pll c refl ∙ h.has pll

    pub IsConfigured-cfgr :
        {a o p m p' m' : ℕ} (v : ℕ) {c : C}
        → IsConfigured (settings a o p m) c
        → bit_and v 0x40FFF3 ≡ p'
        → get pll (port.write rcc_cfgr v c) ≡ m'
        → IsConfigured (settings a o p' m') (port.write rcc_cfgr v c)
    IsConfigured-cfgr {a} {o} {p} {m} {p'} {m'} v {c} h e q = record { has = λ f. fields f }
      where
        fields : (f : ConfigField) → get f (port.write rcc_cfgr v c) ≡ settings a o p' m' f
        fields wait_states = doc.other_field rcc_cfgr v wait_states c refl ∙ h.has wait_states
        fields oscillators = doc.other_field rcc_cfgr v oscillators c refl ∙ h.has oscillators
        fields prescalers = doc.cfgr_stored v c ∙ e
        fields pll = q

    -- RCC_CR |= mask
    pub IsConfigured-on :
        {a o p m : ℕ} (mask : ℕ) {c : C}
        → IsConfigured (settings a o p m) c
        → IsHsi c
        → IsConfigured
            (settings a (bit_or o (bit_and mask 0x1010000)) p m)
            (reg_set port rcc_cr mask c)
          × IsHsi (reg_set port rcc_cr mask c)
    unfolding reg_set
    IsConfigured-on mask {c} h s = (
      IsConfigured-cr _ (IsConfigured-after rcc_cr h) (doc.hsi_after rcc_cr c s)
          (set_bit (port.value rcc_cr c) mask 0x1010000 (h.has oscillators)),
      doc.hsi_other rcc_cr _ _ refl (doc.hsi_after rcc_cr c s),
    )

    -- RCC_CR &= ~mask
    pub IsConfigured-off :
        {a o p m : ℕ} (mask : ℕ) {c : C}
        → IsConfigured (settings a o p m) c
        → IsHsi c
        → IsConfigured
            (settings a (bit_and o (0xFFFFFFFF - mask)) p m)
            (reg_clear port rcc_cr mask c)
          × IsHsi (reg_clear port rcc_cr mask c)
    unfolding reg_clear
    IsConfigured-off mask {c} h s = (
      IsConfigured-cr _ (IsConfigured-after rcc_cr h) (doc.hsi_after rcc_cr c s)
          (clear_bits (port.value rcc_cr c) (0xFFFFFFFF - mask) 0x1010000 (h.has oscillators)),
      doc.hsi_other rcc_cr _ _ refl (doc.hsi_after rcc_cr c s),
    )

    -- hse_start with HSEON and PLLON clear.
    abbrev pub hse_on : Bool → ℕ
    hse_on true = 0
    hse_on false = rcc_cr_hseon

    pub IsConfigured-hse_start :
        {a p m : ℕ} (test : Bool) {c : C}
        → IsConfigured (settings a 0 p m) c
        → IsHsi c
        → IsConfigured (settings a (hse_on test) p m) (hse_start port test c)
          × IsHsi (hse_start port test c)
    unfolding hse_start
    IsConfigured-hse_start true {c} h s =
        let q = IsConfigured-off rcc_cr_hseon h s in
        (IsConfigured-wait rcc_cr rcc_cr_hserdy 0 q.0, IsHsi-wait rcc_cr rcc_cr_hserdy 0 _ q.1)
    IsConfigured-hse_start false {c} h s = IsConfigured-on rcc_cr_hseon h s

    -- clock_fallback_hsi, from anywhere.
    pub IsConfigured-fallback :
        {a o p m m' : ℕ} {c : C}
        → IsConfigured (settings a o p m) c
        → bit_and o (0xFFFFFFFF - 0x1010000) ≡ 0
        → get pll (port.write rcc_cfgr 0 c) ≡ m'
        → IsConfigured (settings 0x30 0 0 m') (clock_fallback_hsi port c)
          × IsHsi (clock_fallback_hsi port c)
    unfolding clock_fallback_hsi
    IsConfigured-fallback {a} {o} {p} {m} {m'} {c} h e q =
        let s = doc.hsi_selected 0 c refl in
        let k = IsConfigured-off 0x1010000 (IsConfigured-cfgr 0 h refl q) s in
        (
          subst (λ n. IsConfigured (settings 0x30 n 0 m') (clock_fallback_hsi port c)) e
              (IsConfigured-acr 0x30 k.0),
          doc.hsi_other flash_acr 0x30 _ refl k.1,
        )
