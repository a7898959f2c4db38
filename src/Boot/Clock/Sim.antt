-- ===== src/Boot/Clock/Sim.antt =====
-- Concrete clock registers for the tests: HSERDY and PLLRDY never change, and SWS follows SW at
-- once.
use nova_voyager_bootloader.Base.{
  ℕ, ◌≡◌, refl, false, bit_and, bit_or, ◌==◌, if◌then◌else◌, mask_laws, arith,
}
use nova_voyager_bootloader.Boot.Clock.{
  ClockReg, ClockPort, rcc_cr, rcc_cfgr, flash_acr, rcc_cr_pllon,
}
use nova_voyager_bootloader.Boot.Clock.State.{
  ConfigField, oscillators, pll, same_reg, reg_of, get, IsHsi, IsClock,
}

pub record Clocks : Type 0 where
  pub acr : ℕ
  pub on : ℕ
  pub ready : ℕ
  pub free : ℕ
  pub pll : ℕ
  pub sws : ℕ

abbrev value : ClockReg → Clocks → ℕ
value rcc_cr c = bit_or (bit_and c.on 0x1010000) (bit_and c.ready 0x2020000)
value rcc_cfgr c =
    bit_or (bit_or (bit_and c.free 0x40FFF3) (bit_and c.pll 0x3F0000)) (bit_and c.sws 0x0C)
value flash_acr c = c.acr

abbrev write : ClockReg → ℕ → Clocks → Clocks
write rcc_cr v c = record c { on = v }
write rcc_cfgr v c = record c {
  free = v;
  pll = if bit_and c.on rcc_cr_pllon == 0 then v else c.pll;
  sws = if bit_and v 0x03 == 2 then 0x08 else 0;
}
write flash_acr v c = record c { acr = v }

abbrev pub clocks : ClockPort Clocks
clocks = record { value = value; after = λ r c. c; write = write }

other-clocks :
    (r : ClockReg) (v : ℕ) (f : ConfigField) (c : Clocks)
    → same_reg r (reg_of f) ≡ false
    → get clocks f (write r v c) ≡ get clocks f c
other-clocks r v f c h = ground arith

pll_stored-clocks :
    (v : ℕ) (c : Clocks)
    → bit_and (get clocks oscillators c) rcc_cr_pllon ≡ 0
    → get clocks pll (write rcc_cfgr v c) ≡ bit_and v 0x3F0000
pll_stored-clocks v c h =
    let off : bit_and c.on rcc_cr_pllon ≡ 0 = simp mask_laws at h in rw off (simp mask_laws)

pll_kept-clocks :
    (v : ℕ) (c : Clocks)
    → bit_and (get clocks oscillators c) rcc_cr_pllon ≡ rcc_cr_pllon
    → get clocks pll (write rcc_cfgr v c) ≡ get clocks pll c
pll_kept-clocks v c h =
    let on : bit_and c.on rcc_cr_pllon ≡ rcc_cr_pllon = simp mask_laws at h in
    rw on (simp mask_laws)

IsHsi-other :
    (r : ClockReg) (v : ℕ) (c : Clocks)
    → same_reg r rcc_cfgr ≡ false
    → IsHsi clocks c
    → IsHsi clocks (write r v c)
IsHsi-other r v c h s = ground arith

IsHsi-selected : (v : ℕ) (c : Clocks) → bit_and v 0x03 ≡ 0 → IsHsi clocks (write rcc_cfgr v c)
IsHsi-selected v c h = rw h (simp (mask_laws, h))

-- They behave as documented.
pub clocks-IsClock : IsClock clocks
clocks-IsClock = record {
  after_field = λ r f c. refl;
  other_field = other-clocks;
  acr_stored = λ v c. refl;
  cr_stored = λ v c h. simp mask_laws;
  cfgr_stored = λ v c. simp mask_laws;
  pll_stored = pll_stored-clocks;
  pll_kept = pll_kept-clocks;
  hsi_after = λ r c h. h;
  hsi_other = IsHsi-other;
  hsi_selected = IsHsi-selected;
}
