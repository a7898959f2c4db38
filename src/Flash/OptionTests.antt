-- ===== src/Flash/OptionTests.antt =====
-- Lifting the write protection of a concrete controller.
use nova_voyager_bootloader.Base.{◌≡◌, refl, true, false, if◌then◌else◌}
use nova_voyager_bootloader.Flash.Port.{ob_rdp, ob_user, ob_wrp1}
use nova_voyager_bootloader.Flash.Options.{
  ob_value, all_clear, wrp_is_clear, flash_disable_write_protection,
}
use nova_voyager_bootloader.Flash.OptionBytes.{same_reg}
use nova_voyager_bootloader.Flash.OptionBytes.Result.{flash_disable_write_protection-reprogrammed}
use nova_voyager_bootloader.Flash.OptionSim.{Chip, chip, chip-IsOptions}

-- Not read-protected, with some pages write-protected, and a USER byte of the owner's.
abbrev protected : Chip
protected = record {
  control = 0x80;
  option = λ r.
      if same_reg r ob_rdp
      then 0x5AA5
      else if same_reg r ob_user
      then 0x07F8
      else if same_reg r ob_wrp1
      then 0xFF00
      else 0x00FF;
}

shut : (wrp_is_clear chip protected).0 ≡ false
unfolding wrp_is_clear all_clear
shut = refl

flash_disable_write_protection-reprogrammed_example :
    let (reset, d') = flash_disable_write_protection chip protected in
    (reset ≡ true) × (ob_value chip ob_rdp d' ≡ 0xA5)
flash_disable_write_protection-reprogrammed_example =
    flash_disable_write_protection-reprogrammed chip chip-IsOptions protected ob_rdp refl shut refl
