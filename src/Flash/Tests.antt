-- ===== src/Flash/Tests.antt =====
-- The flash half on concrete inputs.
use nova_voyager_bootloader.Base.{
  ℕ, ◌+◌, ◌≤◌, ◌<◌, ◌%◌, ◌<◌, none, ◌↔◌, some, ◌≡◌, refl, true, false, [], ◌∷◌, arith,
}
use nova_voyager_bootloader.Flash.Region.{
  flash_is_address_valid, page_base, InApp, flash_is_address_valid_iff, page_base_bounds,
}
use nova_voyager_bootloader.Flash.Interface.{done, failed, IsConfined}
use nova_voyager_bootloader.Flash.Ops.{
  wait_loop, flash_wait, flash_erase_page, flash_write, program_loop, program_halfword, finish,
  flash_lock, cr_clear, flash_unlock,
}
use nova_voyager_bootloader.Flash.Frame.{IsReady}
use nova_voyager_bootloader.Flash.Confined.{flash_of, flash_of-IsConfined}
use nova_voyager_bootloader.Flash.Options.{wrp_is_clear, flash_disable_write_protection}
use nova_voyager_bootloader.Flash.OptionLog.{logged, stores, flash_disable_write_protection_lem}
use nova_voyager_bootloader.Flash.Sim.{Sim, sim, sim-IsController, sim-IsWorking}
use nova_voyager_bootloader.Flash.Working.{IsRested}
use nova_voyager_bootloader.Flash.Unaligned.{flash_write_hangs_iff}
use nova_voyager_bootloader.Flash.Program.{stored, flash_write-stored}
use nova_voyager_bootloader.Flash.Erase.{page_erased, flash_erase_page-erased}

-- A locked controller over erased memory.
abbrev erased : Sim
erased = record { control = 0x80; page = 0; bytes = λ x. 0xFF }

page_base_bounds_example :
    (page_base 0x08003ABC ≤ 0x08003ABC)
    × (0x08003ABC < page_base 0x08003ABC + 2048)
    × (0x08003000 ≤ page_base 0x08003ABC)
    × (page_base 0x08003ABC + 2048 ≤ 0x0803F800)
page_base_bounds_example =
    page_base_bounds 0x08003ABC ((flash_is_address_valid_iff 0x08003ABC).1 (omega arith))

flash_of-IsConfined_example : IsConfined (flash_of sim) (IsReady sim)
flash_of-IsConfined_example = flash_of-IsConfined sim sim-IsController

-- Three bytes are programmed, and the odd tail is padded.
write_three :
    let (r, d) = flash_write sim 0x08003000 (1 ∷ 2 ∷ 3 ∷ []) erased in
    (r ≡ some done)
    × (d.bytes 0x08003000 ≡ 1)
    × (d.bytes 0x08003001 ≡ 2)
    × (d.bytes 0x08003002 ≡ 3)
    × (d.bytes 0x08003003 ≡ 0xFF)
unfolding flash_write flash_is_address_valid program_loop program_halfword finish flash_lock
    cr_clear flash_wait wait_loop flash_unlock
write_three = (refl, refl, refl, refl, refl)

-- The settings page is refused.
settings_refused : (flash_erase_page sim 0x0803F800 erased).0 ≡ failed
unfolding flash_erase_page flash_is_address_valid
settings_refused = refl

-- In the simulation the write-protection bytes read 0xFF, so no page is protected.
flash_disable_write_protection_lem_example :
    let (clear, e) = wrp_is_clear (logged sim) (erased, []) in
    let (reset, s) = flash_disable_write_protection (logged sim) (erased, []) in
    (clear ≡ true → (reset ≡ false) × (s.1 ≡ [])) × (clear ≡ false → s.1 ≡ stores sim 0 0 0 0)
flash_disable_write_protection_lem_example =
    flash_disable_write_protection_lem sim (erased, []) refl

erased-IsRested : IsRested sim erased
erased-IsRested = record { no_mer = refl; no_pg = refl; no_per = refl }

-- Three bytes at an even address.
flash_write-stored_example :
    let (r, d) = flash_write sim 0x08003400 (1 ∷ 2 ∷ 3 ∷ []) erased in
    (r ≡ some done)
    × ((x : ℕ) → sim.byte d x ≡ stored (λ y. 0xFF) 0x08003400 (1 ∷ 2 ∷ 3 ∷ []) x)
    × IsRested sim d
flash_write-stored_example =
    flash_write-stored sim sim-IsWorking 0x08003400 (1 ∷ 2 ∷ 3 ∷ []) erased erased-IsRested refl
      (omega arith) (omega arith) (λ x l h. refl) (omega arith, (omega arith, (omega arith, tt)))

-- A controller over memory that reads 7 everywhere, which was left unlocked.
abbrev used : Sim
used = record { control = 0; page = 0; bytes = λ x. 7 }

used-IsRested : IsRested sim used
used-IsRested = record { no_mer = refl; no_pg = refl; no_per = refl }

flash_erase_page-erased_example :
    let (r, d) = flash_erase_page sim 0x08003ABC used in
    (InApp 0x08003ABC
      → (r ≡ done)
        × ((x : ℕ) → sim.byte d x ≡ page_erased (λ y. 7) (page_base 0x08003ABC) x)
        × IsRested sim d)
    × (¬ InApp 0x08003ABC → (r ≡ failed) × (d ≡ used))
flash_erase_page-erased_example =
    flash_erase_page-erased sim sim-IsWorking 0x08003ABC used used-IsRested

-- Two bytes for an odd address.
flash_write_hangs_iff_example :
    ((flash_write sim 0x08003401 (1 ∷ 2 ∷ []) erased).0 ≡ none)
    ↔ ((0x08003401 % 2 ≡ 1) × (◌<◌ 0 2) × InApp 0x08003401 × InApp 0x08003402)
flash_write_hangs_iff_example = flash_write_hangs_iff sim 0x08003401 (1 ∷ 2 ∷ []) erased
