-- ===== src/Flash/Region.antt =====
-- The flash geometry of include/flash_if.h, and flash_is_address_valid.
use nova_voyager_bootloader.Base.{
  ℕ, ◌-◌, ◌*◌, ◌/◌, ◌+◌, ◌≤◌, ◌<◌, ◌≡◌, ◌↔◌, Bool, true, false, ◌&&◌, ◌||◌, leb, ltb, if◌then◌else◌,
  arith,
}

abbrev pub flash_page_size : ℕ
flash_page_size = 2048

abbrev pub bootloader_start : ℕ
bootloader_start = 0x08000000

abbrev pub bootloader_end : ℕ
bootloader_end = 0x08002FFF

abbrev pub app_flash_start : ℕ
app_flash_start = 0x08003000

abbrev pub app_settings_reserve : ℕ
app_settings_reserve = flash_page_size

-- The last address of the region.
abbrev pub app_flash_end : ℕ
app_flash_end = 0x0803FFFF - app_settings_reserve

unfoldable pub flash_is_address_valid : ℕ → Bool
flash_is_address_valid address =
    if leb bootloader_start address && leb address bootloader_end
    then false
    else if ltb address app_flash_start || ltb app_flash_end address
    then false
    else true

-- `address &= ~(FLASH_PAGE_SIZE - 1)`: the page size is a power of two, so the mask rounds down.
unfoldable pub page_base : ℕ → ℕ
page_base address = address / flash_page_size * flash_page_size

abbrev pub InApp : ℕ → Type 0
InApp a = (app_flash_start ≤ a) × (a ≤ app_flash_end)

-- An address is accepted exactly if it lies in the application region; so the bootloader and the
-- settings page are refused.
pub flash_is_address_valid_iff : (a : ℕ) → (flash_is_address_valid a ≡ true) ↔ InApp a
unfolding flash_is_address_valid
flash_is_address_valid_iff a = ground arith

-- The page of an accepted address lies in the application region as a whole, and holds the address.
pub page_base_bounds :
    (a : ℕ)
    → flash_is_address_valid a ≡ true
    → (page_base a ≤ a)
      × (a < page_base a + flash_page_size)
      × (app_flash_start ≤ page_base a)
      × (page_base a + flash_page_size ≤ app_flash_end + 1)
unfolding page_base
page_base_bounds a h =
    let inside = (flash_is_address_valid_iff a).0 h in
    (omega arith, omega arith, omega arith, omega arith)
