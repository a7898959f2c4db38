-- ===== src/Dfu/Image.antt =====
-- A whole image, block by block, on a working flash controller.
use nova_voyager_bootloader.Base.{
  ℕ, zero, suc, ◌+◌, ◌-◌, ◌*◌, ◌≤◌, ◌<◌, ◌≡◌, ◌⊎◌, inr, sym, ap, ◌∙◌, List, [], ◌∷◌, ◌++◌, length,
  get_or, append-nil, length-append, AllBytes, u32, ltb, if◌then◌else◌, arith,
}
use mathlib.Core.Path.{subst}
use nova_voyager_bootloader.Usb.Regs.{UsbRegs, UsbPort}
use nova_voyager_bootloader.Flash.Region.{app_flash_end}
use nova_voyager_bootloader.Flash.Port.{FlashPort}
use nova_voyager_bootloader.Flash.Ops.{flash_write}
use nova_voyager_bootloader.Flash.Controller.{IsController}
use nova_voyager_bootloader.Flash.Confined.{flash_of, returned}
use nova_voyager_bootloader.Flash.Working.{IsWorking, IsRested}
use nova_voyager_bootloader.Flash.Program.{stored, IsErased, padded, flash_write-stored}
use nova_voyager_bootloader.Dfu.State.{idle, dnload_idle, Dfu, Device, app_start_address}
use nova_voyager_bootloader.Dfu.Status.{handle_dfu_getstatus}
use nova_voyager_bootloader.Dfu.Requests.{handle_dfu_dnload}
use nova_voyager_bootloader.Dfu.Download.{concat}
use nova_voyager_bootloader.Dfu.Transfer.{
  AllDelivered, payloads, IsReady, receive_all, download_block,
}

-- The address of a block, with the pointer at the start of the application region.
abbrev pub place : ℕ → ℕ
place block = app_start_address + (block - 2) * 1024

-- The device can take a block there.
abbrev pub Accepts : Dfu → Type 0
Accepts d =
    ((d.context.state ≡ idle) ⊎ (d.context.state ≡ dnload_idle))
    × (d.dfuse_address_ptr ≡ app_start_address)
    × (d.dfuse_cmd_pending ≡ 0)
    × (length d.dfu_buffer ≡ 1024)

-- The data stages of the blocks of an image, and its bytes.
abbrev pub Packets : Type 0
Packets = List (List ℕ × UsbRegs)

abbrev pub bytes_of : Packets → List ℕ
bytes_of ps = concat (payloads ps)

abbrev pub image : List Packets → List ℕ
image [] = []
image (ps ∷ rest) = bytes_of ps ++ image rest

-- A data block of 1 to 1024 bytes.
abbrev pub IsBlock : Packets → Type 0
IsBlock ps =
    AllDelivered ps
    × (0 < length (bytes_of ps))
    × (length (bytes_of ps) ≤ 1024)
    × AllBytes (bytes_of ps)

-- All blocks but the last have 1024 bytes.
abbrev pub IsImage : List Packets → Type 0
IsImage [] = Unit
IsImage (ps ∷ []) = IsBlock ps
IsImage (ps ∷ qs ∷ rest) = IsBlock ps × (length (bytes_of ps) ≡ 1024) × IsImage (qs ∷ rest)

get_or-append :
    (xs ys : List ℕ) (k : ℕ)
    → get_or (xs ++ ys) k 0
      ≡ (if ltb k (length xs) then get_or xs k 0 else get_or ys (k - length xs) 0)
get_or-append [] ys k = let e : k - 0 ≡ k = omega arith in ground (arith, ap (λ j. get_or ys j 0) e)
get_or-append (x ∷ xs) ys zero = ground arith
get_or-append (x ∷ xs) ys (suc k) = get_or-append xs ys k ∙ ground arith

-- Bytes stored behind others.
pub stored-append :
    (m : ℕ → ℕ) (a : ℕ) (xs ys : List ℕ) (x : ℕ)
    → stored (stored m a xs) (a + length xs) ys x ≡ stored m a (xs ++ ys) x
stored-append m a xs ys x =
    let n : length (xs ++ ys) ≡ length xs + length ys = length-append {0} xs ys in
    let e : x - a - length xs ≡ x - (a + length xs) = omega arith in
    rw (get_or-append xs ys (x - a), n, e) (ground arith)

pub stored_above :
    (m : ℕ → ℕ) (a : ℕ) (xs : List ℕ) (x : ℕ) → a + length xs ≤ x → stored m a xs x ≡ m x
stored_above m a xs x h = ground arith

pub stored-cong :
    (m m' : ℕ → ℕ) (a : ℕ) (xs : List ℕ) (x : ℕ) → m x ≡ m' x → stored m a xs x ≡ stored m' a xs x
stored-cong m m' a xs x h = ground arith

module _ {D : Type 0} (flash : FlashPort D) (port : UsbPort) where
  -- A block is downloaded, and two status requests follow.
  abbrev pub downloaded : ℕ → Packets → Device D → Device D
  downloaded block ps v =
      let filled =
        receive_all (flash_of flash) port ps
          (handle_dfu_dnload (flash_of flash) port block (length (bytes_of ps)) v) in
      handle_dfu_getstatus (flash_of flash) port (handle_dfu_getstatus (flash_of flash) port filled)

  -- The blocks of an image, numbered from `block` on.
  abbrev pub download_image : ℕ → List Packets → Device D → Device D
  download_image block [] v = v
  download_image block (ps ∷ rest) v = download_image (suc block) rest (downloaded block ps v)

module _ {D : Type 0} (flash : FlashPort D) {doc : IsController flash} (w : IsWorking flash doc)
    (port : UsbPort) where
  -- One block.
  pub downloaded-stored :
      (v : Device D) (block : ℕ) (ps : Packets)
      → Accepts v.dfu
      → AllDelivered ps
      → 2 ≤ block
      → 0 < length (bytes_of ps)
      → length (bytes_of ps) ≤ 1024
      → place block + length (bytes_of ps) ≤ app_flash_end + 1
      → AllBytes (bytes_of ps)
      → IsRested flash v.flash
      → IsErased (flash.byte v.flash) (place block) (place block + padded (length (bytes_of ps)))
      → let end = downloaded flash port block ps v in
        IsReady app_start_address end.dfu
        × ((x : ℕ)
            → flash.byte end.flash x ≡ stored (flash.byte v.flash) (place block) (bytes_of ps) x)
        × IsRested flash end.flash
  downloaded-stored v block ps (s, t, p, size) h b lo hi fits ok rest erased =
      let bytes = bytes_of ps in
      let d = download_block (flash_of flash) port v block ps h size s p b lo hi in
      let e : u32 (v.dfu.dfuse_address_ptr + (block - 2) * 1024) ≡ place block = omega arith in
      let f =
        flash_write-stored flash w (place block) bytes v.flash rest (omega arith) (omega arith) fits
          erased ok in
      let q : (downloaded flash port block ps v).flash
          ≡ (flash_write flash (place block) bytes v.flash).1 =
        d.2 ∙ ap (λ a. (flash_write flash a bytes v.flash).1) e in
      (
        subst (λ a. IsReady a (downloaded flash port block ps v).dfu) t
            (d.3 (ap (λ a. returned (flash_write flash a bytes v.flash).0) e ∙ ap returned f.0)),
        λ x. ap (λ k. flash.byte k x) q ∙ f.1 x,
        subst (IsRested flash) (sym q) f.2,
      )

  -- A working flash controller at rest, and an idle or download-idle device with no command
  -- pending, a buffer of 1024 bytes and the address pointer at the start of the application
  -- region. The host downloads an image in blocks that are numbered one after the other, the
  -- first 2 or more: each has 1 to 1024 bytes, all but the last have 1024, and after each the
  -- host asks for the status twice. The image fits into the region from its first block on, and
  -- its place, in whole half-words, is erased. Then the flash holds the image in one piece, no
  -- other byte has changed, and the device can take the next block.
  pub download_image-stored :
      (v : Device D) (block : ℕ) (blocks : List Packets)
      → Accepts v.dfu
      → IsImage blocks
      → 2 ≤ block
      → place block + length (image blocks) ≤ app_flash_end + 1
      → IsRested flash v.flash
      → IsErased (flash.byte v.flash) (place block) (place block + padded (length (image blocks)))
      → let end = download_image flash port block blocks v in
        ((x : ℕ)
          → flash.byte end.flash x ≡ stored (flash.byte v.flash) (place block) (image blocks) x)
        × Accepts end.dfu
        × IsRested flash end.flash
  download_image-stored v block [] a i b fits rest erased = (λ x. ground arith, a, rest)
  download_image-stored v block (ps ∷ []) a (h, lo, hi, ok) b fits rest erased =
      let e : bytes_of ps ++ [] ≡ bytes_of ps = append-nil (bytes_of ps) in
      let n : length (bytes_of ps ++ []) ≡ length (bytes_of ps) = ap length e in
      let (ready, m, rested) =
        downloaded-stored v block ps a h b lo hi (omega (arith, n)) ok rest
          (λ x l k. erased x l (omega (arith, n))) in
      (
        λ x. m x ∙ ap (λ l. stored (flash.byte v.flash) (place block) l x) (sym e),
        (inr ready.0, ready.1, ready.2, ready.3),
        rested,
      )
  download_image-stored v block (ps ∷ qs ∷ more) a ((h, lo, hi, ok), full, i) b fits rest erased =
      let bs = qs ∷ more in
      let bytes = bytes_of ps in
      let n : length (image (ps ∷ bs)) ≡ length bytes + length (image bs) =
        length-append {0} bytes (image bs) in
      let (ready, m, rested) =
        downloaded-stored v block ps a h b lo hi (omega (arith, n)) ok rest
          (λ x l k. erased x l (omega (arith, n))) in
      let next = downloaded flash port block ps v in
      let after : (x : ℕ)
          → place block + length bytes ≤ x
          → flash.byte next.flash x ≡ flash.byte v.flash x =
        λ x l. m x ∙ stored_above (flash.byte v.flash) (place block) bytes x l in
      let step : place (suc block) ≡ place block + length bytes = omega arith in
      let ih =
        download_image-stored next (suc block) (qs ∷ more) (inr ready.0, ready.1, ready.2, ready.3)
          i (omega arith) (omega (arith, n)) rested
          (λ x l k. after x (omega arith) ∙ erased x (omega arith) (omega (arith, n))) in
      (
        λ x.
            ih.0 x
            ∙ ap (λ c. stored (flash.byte next.flash) c (image bs) x) step
            ∙ stored-cong (flash.byte next.flash) (stored (flash.byte v.flash) (place block) bytes)
                (place block + length bytes) (image bs) x (m x)
            ∙ stored-append (flash.byte v.flash) (place block) bytes (image bs) x,
        ih.1,
        ih.2,
      )
