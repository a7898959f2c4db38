-- ===== src/Flash/Interface.antt =====
-- What src/usb_dfu.c uses of src/flash_if.c, and what it may rely on.
use nova_voyager_bootloader.Base.{ℕ, ◌≤◌, ◌≡◌, List, length}
use nova_voyager_bootloader.Flash.Region.{InApp}

-- The `int` results 0 and -1.
pub data Outcome : Type 0 where
  done failed : Outcome

-- The calls on a flash with state `F`, which return; `byte` reads the memory-mapped array.
pub record FlashIf (F : Type 0) : Type 0 where
  pub flash_erase_page : ℕ → F → Outcome × F
  pub flash_write : ℕ → List ℕ → F → Outcome × F
  pub byte : F → ℕ → ℕ

-- On a flash that is ready, a call changes no byte outside the application region, whatever its
-- arguments, and leaves the flash ready; a transfer is at most 1024 bytes.
pub record IsConfined {F : Type 0} (f : FlashIf F) (IsReady : F → Type 0) : Type 0 where
  pub erase_ready : (address : ℕ) (d : F) → IsReady d → IsReady (f.flash_erase_page address d).1
  pub write_ready :
      (address : ℕ) (bytes : List ℕ) (d : F)
      → length bytes ≤ 1024
      → IsReady d
      → IsReady (f.flash_write address bytes d).1
  pub erase_confined :
      (address : ℕ) (d : F) (x : ℕ)
      → IsReady d
      → ¬ InApp x
      → f.byte (f.flash_erase_page address d).1 x ≡ f.byte d x
  pub write_confined :
      (address : ℕ) (bytes : List ℕ) (d : F) (x : ℕ)
      → length bytes ≤ 1024
      → IsReady d
      → ¬ InApp x
      → f.byte (f.flash_write address bytes d).1 x ≡ f.byte d x
