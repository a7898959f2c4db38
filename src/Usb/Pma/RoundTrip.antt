-- ===== src/Usb/Pma/RoundTrip.antt =====
-- What pma_write stores, pma_read gives back, and nothing else of the packet memory changes.
use nova_voyager_bootloader.Base.{
  AllBytes, ℕ, zero, suc, ◌+◌, ◌*◌, ◌/◌, ◌≤◌, ◌<◌, ◌≡◌, ◌≢◌, ◌⊎◌, inl, refl, ap, ap₂, List, [], ◌∷◌,
  length, update, arith, u8,
}
use nova_voyager_bootloader.Usb.Pma.{write_halfwords, pma_write, read_halfwords, pma_read}

pub read_halfwords-AllBytes : (src len : ℕ) (pma : ℕ → ℕ) → AllBytes (read_halfwords src len pma)
unfolding read_halfwords
read_halfwords-AllBytes src zero pma = tt
read_halfwords-AllBytes src (suc zero) pma = (omega arith, tt)
read_halfwords-AllBytes src (suc (suc len)) pma =
    (omega arith, (omega arith, read_halfwords-AllBytes (src + 4) len pma))

pub length-read_halfwords : (src len : ℕ) (pma : ℕ → ℕ) → length (read_halfwords src len pma) ≡ len
unfolding read_halfwords
length-read_halfwords src zero pma = refl
length-read_halfwords src (suc zero) pma = refl
length-read_halfwords src (suc (suc len)) pma =
    ap (λ k. suc (suc k)) (length-read_halfwords (src + 4) len pma)

pub update_self : (m : ℕ → ℕ) (a v : ℕ) → update m a v a ≡ v
update_self m a v = ground arith

pub update_ne : (m : ℕ → ℕ) (a v x : ℕ) → a ≢ x → update m a v x ≡ m x
update_ne m a v x h = ground arith

-- A write reaches from its first half-word up to its last.
pub write_halfwords_outside :
    (dst : ℕ) (bytes : List ℕ) (pma : ℕ → ℕ) (x : ℕ)
    → (x < dst) ⊎ (dst + 2 * length bytes + 2 ≤ x)
    → write_halfwords dst bytes pma x ≡ pma x
unfolding write_halfwords
write_halfwords_outside dst [] pma x h = refl
write_halfwords_outside dst (lo ∷ []) pma x h = update_ne pma dst (u8 lo) x (omega arith)
write_halfwords_outside dst (lo ∷ hi ∷ rest) pma x h =
    rw
      (write_halfwords_outside (dst + 4) rest (update pma dst (u8 lo + u8 hi * 256)) x
        (omega arith))
      (update_ne pma dst (u8 lo + u8 hi * 256) x (omega arith))

read-write_halfwords :
    (dst : ℕ) (bytes : List ℕ) (pma : ℕ → ℕ)
    → AllBytes bytes
    → read_halfwords dst (length bytes) (write_halfwords dst bytes pma) ≡ bytes
unfolding read_halfwords write_halfwords
read-write_halfwords dst [] pma h = refl
read-write_halfwords dst (lo ∷ []) pma h =
    ap (λ k. k ∷ []) (rw (update_self pma dst (u8 lo)) (omega arith))
read-write_halfwords dst (lo ∷ hi ∷ rest) pma h =
    ap₂ ◌∷◌ (rw here (omega arith))
      (ap₂ ◌∷◌ (rw here (omega arith)) (read-write_halfwords (dst + 4) rest first h.1.1))
  where
    first : ℕ → ℕ
    first = update pma dst (u8 lo + u8 hi * 256)

    here : write_halfwords (dst + 4) rest first dst ≡ u8 lo + u8 hi * 256
    here =
        rw (write_halfwords_outside (dst + 4) rest first dst (inl (omega arith)))
          (update_self pma dst (u8 lo + u8 hi * 256))

-- The values below 256 that pma_write stores at an offset are those that pma_read then finds there,
-- at every length, odd ones included.
pub pma_read-pma_write :
    (offset : ℕ) (bytes : List ℕ) (pma : ℕ → ℕ)
    → AllBytes bytes
    → pma_read offset (length bytes) (pma_write offset bytes pma) ≡ bytes
unfolding pma_read pma_write
pma_read-pma_write offset bytes pma h = read-write_halfwords (offset * 2) bytes pma h

-- A half-word written below the place read is not seen.
pub read_halfwords-update :
    (src len : ℕ) (pma : ℕ → ℕ) (a v : ℕ)
    → a < src
    → read_halfwords src len (update pma a v) ≡ read_halfwords src len pma
unfolding read_halfwords
read_halfwords-update src zero pma a v h = refl
read_halfwords-update src (suc zero) pma a v h =
    ap (λ k. u8 k ∷ []) (update_ne pma a v src (omega arith))
read_halfwords-update src (suc (suc len)) pma a v h = rw (update_ne pma a v src (omega arith)) (
    ap (λ k. u8 (pma src) ∷ u8 (pma src / 256) ∷ k)
      (read_halfwords-update (src + 4) len pma a v (omega arith)))

pub pma_read_none : (offset : ℕ) (pma : ℕ → ℕ) → pma_read offset 0 pma ≡ []
unfolding pma_read read_halfwords
pma_read_none offset pma = refl
