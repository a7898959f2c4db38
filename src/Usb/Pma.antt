-- ===== src/Usb/Pma.antt =====
-- pma_write and pma_read of src/usb_dfu.c: the packet memory, whose half-words stand four bytes
-- apart for the CPU.
pub mod RoundTrip
use nova_voyager_bootloader.Base.{ℕ, zero, suc, ◌+◌, ◌*◌, ◌/◌, List, [], ◌∷◌, update, u8, u16}

-- The loop of `pma_write` over the bytes that are left. The byte fields are disjoint, so that
-- `lo | (hi << 8)` is their sum.
pub write_halfwords : ℕ → List ℕ → (ℕ → ℕ) → ℕ → ℕ
write_halfwords dst [] pma = pma
write_halfwords dst (lo ∷ []) pma = update pma dst (u8 lo)
write_halfwords dst (lo ∷ hi ∷ rest) pma =
    write_halfwords (dst + 4) rest (update pma dst (u8 lo + u8 hi * 256))

-- `pma_write(offset, data, len)`, with the bytes `data[0..len)` for the last two.
unfoldable pub pma_write : ℕ → List ℕ → (ℕ → ℕ) → ℕ → ℕ
pma_write offset bytes pma = write_halfwords (offset * 2) bytes pma

unfoldable pub read_halfwords : ℕ → ℕ → (ℕ → ℕ) → List ℕ
read_halfwords src zero pma = []
read_halfwords src (suc zero) pma = u8 (pma src) ∷ []
read_halfwords src (suc (suc len)) pma =
    u8 (pma src) ∷ u8 (pma src / 256) ∷ read_halfwords (src + 4) len pma

-- `pma_read(offset, data, len)`: the bytes that it stores at `data[0..len)`.
unfoldable pub pma_read : ℕ → ℕ → (ℕ → ℕ) → List ℕ
pma_read offset len pma = read_halfwords (offset * 2) len pma

-- `PMA_READ(offset)` and `PMA_WRITE(offset, val)`
abbrev pub pma_get : ℕ → (ℕ → ℕ) → ℕ
pma_get offset pma = pma (offset * 2)

abbrev pub pma_put : ℕ → ℕ → (ℕ → ℕ) → ℕ → ℕ
pma_put offset val pma = update pma (offset * 2) (u16 val)
