-- ===== src/Flash/Options.antt =====
-- wrp_is_clear and flash_disable_write_protection of src/flash_if.c.
use nova_voyager_bootloader.Base.{ℕ, Bool, true, false, List, [], ◌∷◌, bit_and, ◌==◌}
use nova_voyager_bootloader.Flash.Port.{
  FlashPort, Reg, optkeyr, sr, ob_rdp, ob_user, ob_data0, ob_data1, ob_wrp0, ob_wrp1, ob_wrp2,
  ob_wrp3, flash_sr_clear, flash_cr_strt, flash_key1, flash_key2,
}
use nova_voyager_bootloader.Flash.Ops.{flash_wait, flash_unlock, flash_lock, cr_set, cr_clear}

abbrev pub flash_cr_optpg : ℕ
flash_cr_optpg = 0x10

abbrev pub flash_cr_opter : ℕ
flash_cr_opter = 0x20

abbrev pub ob_rdp_unlock : ℕ
ob_rdp_unlock = 0xA5

abbrev pub ob_wrp_none : ℕ
ob_wrp_none = 0xFF

module _ {D : Type 0} (port : FlashPort D) where
  open port use {value, after, write}

  -- OB_VALUE(ob)
  abbrev pub ob_value : Reg → D → ℕ
  ob_value ob d = bit_and (value ob d) 0xFF

  -- The `&&` over the option bytes: a byte that is not 0xFF ends it.
  unfoldable pub all_clear : List Reg → D → Bool × D
  all_clear [] d = (true, d)
  all_clear (ob ∷ obs) d = elim (ob_value ob d == 0xFF) [
    | true ↦ all_clear obs (after ob d)
    | false ↦ (false, after ob d)
  ]

  unfoldable pub wrp_is_clear : D → Bool × D
  wrp_is_clear d = all_clear (ob_wrp0 ∷ ob_wrp1 ∷ ob_wrp2 ∷ ob_wrp3 ∷ []) d

  -- `OB = v; flash_wait();`
  abbrev pub ob_store : Reg → ℕ → D → D
  ob_store ob v d = flash_wait port (write ob v d)

  -- `if (rdp == OB_RDP_UNLOCK)`
  unfoldable pub restore_rdp : ℕ → D → D
  restore_rdp rdp d = elim (rdp == ob_rdp_unlock) [
    | true ↦ ob_store ob_rdp ob_rdp_unlock d
    | false ↦ d
  ]

  -- From the unlocking up to the lock, with the values read before.
  unfoldable pub rewrite_options : ℕ → ℕ → ℕ → ℕ → D → D
  unfolding restore_rdp
  rewrite_options rdp user data0 data1 d =
      let opened = flash_wait port (flash_unlock port d) in
      let keyed = write optkeyr flash_key2 (write optkeyr flash_key1 opened) in
      let started =
        cr_set port flash_cr_strt (cr_set port flash_cr_opter (write sr flash_sr_clear keyed)) in
      let erased = cr_clear port flash_cr_opter (flash_wait port started) in
      let kept = ob_store ob_data1 data1 (
        ob_store ob_data0 data0
          (ob_store ob_user user (restore_rdp rdp (cr_set port flash_cr_optpg erased)))) in
      let open_pages = ob_store ob_wrp3 ob_wrp_none (
        ob_store ob_wrp2 ob_wrp_none
          (ob_store ob_wrp1 ob_wrp_none (ob_store ob_wrp0 ob_wrp_none kept))) in
      flash_lock port (cr_clear port flash_cr_optpg open_pages)

  unfoldable pub flash_disable_write_protection : D → Bool × D
  flash_disable_write_protection d =
      let (clear, e) = wrp_is_clear d in
      elim clear [
        | true ↦ (false, e)
        | false ↦
            let e1 = after ob_rdp e in
            let e2 = after ob_user e1 in
            let e3 = after ob_data0 e2 in
            wrp_is_clear (
              rewrite_options (ob_value ob_rdp e) (ob_value ob_user e1) (ob_value ob_data0 e2)
                (ob_value ob_data1 e3) (after ob_data1 e3))
      ]
