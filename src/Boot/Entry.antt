-- ===== src/Boot/Entry.antt =====
-- main of src/main.c up to its last branch: the GPIO set-up and the decision to enter DFU mode.
use nova_voyager_bootloader.Base.{
  ℕ, ◌-◌, ◌≡◌, ◌≢◌, ◌↔◌, ◌⊎◌, Bool, true, false, not, bit_and, bit_or, mask_laws, bit_or_absorb,
  refl, ◌==◌, if◌then◌else◌, arith,
}
use nova_voyager_bootloader.Boot.App.{app_valid}

-- The registers and the RAM word that main touches.
pub record Machine : Type 0 where
  pub rcc_apb2enr : ℕ
  pub gpioc_crh : ℕ
  pub gpioc_odr : ℕ
  pub dfu_magic : ℕ

abbrev pub dfu_magic_value : ℕ
dfu_magic_value = 0x424C

abbrev pub f1_button_pin : ℕ
f1_button_pin = 0x400

unfoldable pub gpio_init : Machine → Machine
gpio_init m = record m {
  rcc_apb2enr = bit_or m.rcc_apb2enr 0x10;
  gpioc_crh = bit_or (bit_and m.gpioc_crh (0xFFFFFFFF - 0xF00)) 0x800;
  gpioc_odr = bit_or m.gpioc_odr f1_button_pin;
}

abbrev pub magic_ram_set : Machine → Bool
magic_ram_set m = m.dfu_magic == dfu_magic_value

abbrev pub magic_ram_clear : Machine → Machine
magic_ram_clear m = record m { dfu_magic = 0 }

-- After gpio_init, PC10 is an input with a pull resistor, pulled up, on a clocked port; the
-- configuration of the other pins of the port and their outputs stay, and so does the magic word.
pub gpio_init_lem :
    (m : Machine)
    → let m' = gpio_init m in
      (bit_and m'.gpioc_crh 0xF00 ≡ 0x800)
      × (bit_and m'.gpioc_odr 0x400 ≡ 0x400)
      × (bit_and m'.rcc_apb2enr 0x10 ≡ 0x10)
      × (bit_and m'.gpioc_crh 0xFFFFF0FF ≡ bit_and m.gpioc_crh 0xFFFFF0FF)
      × (bit_and m'.gpioc_odr 0xFFFFFBFF ≡ bit_and m.gpioc_odr 0xFFFFFBFF)
      × (m'.dfu_magic ≡ m.dfu_magic)
unfolding gpio_init
gpio_init_lem m = (
  simp mask_laws,
  simp mask_laws (bit_or_absorb m.gpioc_odr 0x400),
  simp mask_laws (bit_or_absorb m.rcc_apb2enr 0x10),
  simp mask_laws,
  simp mask_laws,
  refl,
)

-- What main does last.
pub data Next : Type 0 where
  enters_dfu starts_app : Next

-- `idr` is what GPIOC_IDR reads, given the configuration: the pins are hardware.
module _ (estack : ℕ) (idr : Machine → ℕ) where
  abbrev pub f1_button_pressed : Machine → Bool
  f1_button_pressed m = bit_and (idr m) f1_button_pin == 0

  unfoldable pub decide : (ℕ → ℕ) → Machine → Next × Machine
  decide mem m0 =
      let m1 = gpio_init m0 in
      let held = f1_button_pressed m1 in
      let magic = magic_ram_set m1 in
      let m2 = if magic then magic_ram_clear m1 else m1 in
      let enter_dfu = if not (app_valid estack mem) then true else if magic then true else held in
      (if enter_dfu then enters_dfu else starts_app, m2)

  -- DFU mode is entered exactly if F1 is held, the magic word is set, or there is no valid
  -- application. Either way the magic word is gone afterwards, so that one request enters DFU mode
  -- once.
  pub decide_lem :
      (mem : ℕ → ℕ) (m : Machine)
      → let (next, m') = decide mem m in
        ((next ≡ enters_dfu) ↔ (
          (bit_and (idr (gpio_init m)) f1_button_pin ≡ 0)
          ⊎ ((m.dfu_magic ≡ dfu_magic_value) ⊎ (app_valid estack mem ≡ false))))
        × (m'.dfu_magic ≢ dfu_magic_value)
  unfolding decide gpio_init
  decide_lem mem m = ground arith
