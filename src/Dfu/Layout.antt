-- ===== src/Dfu/Layout.antt =====
-- The memory layout string of src/usb_dfu.c, read as a DfuSe host reads it, against the flash
-- geometry of include/flash_if.h.
use nova_voyager_bootloader.Base.{
  ℕ, ◌+◌, ◌-◌, ◌*◌, ◌≤◌, ◌<◌, ◌≡◌, ◌↔◌, refl, ◌&&◌, Option, none, some, List, [], ◌∷◌, ltb, leb,
  ◌==◌, if◌then◌else◌, arith,
}
use nova_voyager_bootloader.Usb.Descriptors.{memory_layout}
use nova_voyager_bootloader.Flash.Region.{InApp, page_base}

-- `count` sectors of `size` bytes from `address` on, with the access bits of the last letter: 1 for
-- readable, 2 for erasable, 4 for writable.
pub record Layout : Type 0 where
  pub address : ℕ
  pub count : ℕ
  pub size : ℕ
  pub access : ℕ

-- The value of a digit; 16 for what is none.
digit_value : ℕ → ℕ
digit_value c =
    if leb b'0' c && leb c b'9'
    then c - b'0'
    else if leb b'A' c && leb c b'F'
    then c - b'A' + 10
    else if leb b'a' c && leb c b'f'
    then c - b'a' + 10
    else 16

-- A number in a base, and what follows it.
read_number : ℕ → ℕ → List ℕ → ℕ × List ℕ
unfolding digit_value
read_number base n [] = (n, [])
read_number base n (c ∷ cs) =
    let rest = read_number base (n * base + digit_value c) cs in
    if ltb (digit_value c) base then rest else (n, c ∷ cs)

-- `count*sizeKx`, where K stands for 1024 bytes.
read_sectors : ℕ → List ℕ → Option Layout
unfolding read_number
read_sectors address cs = sectors (read_number 10 0 cs)
  where
    sized : ℕ → ℕ × List ℕ → Option Layout
    sized count (size, k ∷ access ∷ []) =
        if k == b'K'
        then some
            (record { address = address; count = count; size = size * 1024; access = access - 96 })
        else none
    sized count _ = none

    sectors : ℕ × List ℕ → Option Layout
    sectors (count, star ∷ rest) =
        if star == b'*' then sized count (read_number 10 0 rest) else none
    sectors _ = none

-- `@name/0xaddress/sectors`, with one group of sectors.
pub read_layout : List ℕ → Option Layout
unfolding read_number read_sectors
read_layout [] = none
read_layout (c ∷ cs) = if c == b'/' then address cs else read_layout cs
  where
    after_address : ℕ × List ℕ → Option Layout
    after_address (a, slash ∷ rest) = if slash == b'/' then read_sectors a rest else none
    after_address _ = none

    address : List ℕ → Option Layout
    address (z ∷ x ∷ rest) = after_address (read_number 16 0 rest)
    address _ = none

-- A host that reads the layout string is told one group of sectors, readable, erasable and
-- writable, which covers the application region and nothing else; and the page of an address
-- starts where the n-th sector starts exactly if the address lies in that sector.
pub memory_layout_lem :
    (l : Layout) × (read_layout memory_layout ≡ some l)
    × (l.access ≡ 7)
    × ((x : ℕ) → ((l.address ≤ x) × (x < l.address + l.count * l.size)) ↔ InApp x)
    × ((n x : ℕ)
        → (page_base x ≡ l.address + n * l.size)
          ↔ ((l.address + n * l.size ≤ x) × (x < l.address + (n + 1) * l.size)))
unfolding read_layout page_base
memory_layout_lem = (
  record { address = 0x08003000; count = 121; size = 2048; access = 7 },
  refl,
  refl,
  λ x. (λ h. (omega arith, omega arith), λ h. (omega arith, omega arith)),
  λ n x. (λ h. (omega arith, omega arith), λ h. omega arith),
)
