-- ===== src/Usb/Lookup.antt =====
-- The descriptors that handle_get_descriptor finds, against their own headers.
use nova_voyager_bootloader.Base.{
  AllBytes, ℕ, ◌+◌, ◌*◌, ◌/◌, ◌≡◌, ◌≢◌, Option, none, some, List, length, get_or, arith,
}
use mathlib.Core.Path.{subst}
use nova_voyager_bootloader.Usb.Descriptors.{find_descriptor}

-- The header of a descriptor of the type `type` agrees with the array.
abbrev pub HasHeader : ℕ → List ℕ → Type 0
HasHeader type desc =
    (get_or desc 1 0 ≡ type)
    × (type ≢ 2 → get_or desc 0 0 ≡ length desc)
    × (type ≡ 2 → get_or desc 2 0 + get_or desc 3 0 * 256 ≡ length desc)
    × AllBytes desc

-- The lookup of a wValue either finds nothing or an array whose header agrees with it.
abbrev IsRight : ℕ → Option (List ℕ) → Type 0
IsRight type none = Unit
IsRight type (some desc) = HasHeader type desc

found : (value : ℕ) → IsRight (value / 256) (find_descriptor value)
unfolding find_descriptor
found value = ground arith

-- A GET_DESCRIPTOR whose wValue the code finds gets an array with the descriptor type asked for in
-- its second byte. The first byte is the array's length, or, for the configuration, wTotalLength
-- is; and every element is a byte.
pub find_descriptor-HasHeader :
    (value : ℕ) (desc : List ℕ) → find_descriptor value ≡ some desc → HasHeader (value / 256) desc
find_descriptor-HasHeader value desc h = subst (IsRight (value / 256)) h (found value)
