-- ===== src/Base/Bits.antt =====
-- Laws of `&`, `|` and `^` at every width, from one equation for the lowest binary digit.
use Prim.Native.Nat.{
  ℕ, zero, suc, ◌+◌, ◌-◌, ◌*◌, ◌/◌, ◌%◌, ◌<◌, ◌≤◌, min, max, digits, differ, bitwise, bit_and,
  bit_or, bit_xor, bit_and-bitwise, bit_or-bitwise, bit_xor-bitwise,
}
use mathlib.Core.Path.{◌≡◌, refl, sym, ap, ◌∙◌}
use native.Mathlib.Omega.{arith}

module _ (z : ℕ → ℕ) (f : ℕ → ℕ → ℕ) where
  -- More fuel than the left operand is of no use.
  digits_enough : (n m a b : ℕ) → a ≤ n → n ≤ m → digits z f m a b ≡ digits z f n a b
  digits_enough zero zero a b h k = refl
  digits_enough zero (suc m) zero b h k = refl
  digits_enough zero (suc m) (suc a) b h k = absurd (omega arith)
  digits_enough (suc n) zero a b h k = absurd (omega arith)
  digits_enough (suc n) (suc m) zero b h k = refl
  digits_enough (suc n) (suc m) (suc a) b h k =
      rw (digits_enough n m (suc a / 2) (b / 2) (omega arith) (omega arith))

  digits_suc :
      (a b : ℕ)
      → bitwise z f (suc a) b ≡ bitwise z f (suc a / 2) (b / 2) * 2 + f (suc a % 2) (b % 2)
  digits_suc a b = rw (digits_enough (suc a / 2) a (suc a / 2) (b / 2) (omega arith) (omega arith))

pub zero_and : (b : ℕ) → bit_and 0 b ≡ 0
zero_and b = bit_and-bitwise 0 b

zero_or : (b : ℕ) → bit_or 0 b ≡ b
zero_or b = bit_or-bitwise 0 b

zero_xor : (b : ℕ) → bit_xor 0 b ≡ b
zero_xor b = bit_xor-bitwise 0 b

and_digit : (a b : ℕ) → bit_and a b ≡ bit_and (a / 2) (b / 2) * 2 + min (a % 2) (b % 2)
and_digit zero b = omega (arith, zero_and b, zero_and (b / 2))
and_digit (suc a) b = simp bit_and-bitwise (digits_suc (λ y. 0) min a b)

or_digit : (a b : ℕ) → bit_or a b ≡ bit_or (a / 2) (b / 2) * 2 + max (a % 2) (b % 2)
or_digit zero b = omega (arith, zero_or b, zero_or (b / 2))
or_digit (suc a) b = simp bit_or-bitwise (digits_suc (λ y. y) max a b)

differ_zero : (a : ℕ) → differ a 0 ≡ a
differ_zero zero = refl
differ_zero (suc a) = refl

xor_digit : (a b : ℕ) → bit_xor a b ≡ bit_xor (a / 2) (b / 2) * 2 + differ (a % 2) (b % 2)
xor_digit zero b = omega (arith, zero_xor b, zero_xor (b / 2))
xor_digit (suc a) b = simp bit_xor-bitwise (digits_suc (λ y. y) differ a b)

-- `differ` of two digits, in terms that arithmetic reads.
differ_bits : (x y : ℕ) → x < 2 → y < 2 → differ x y ≡ max x y - min x y
differ_bits zero y h k = omega arith
differ_bits (suc zero) zero h k = omega arith
differ_bits (suc zero) (suc zero) h k = refl
differ_bits (suc zero) (suc (suc y)) h k = absurd (omega arith)
differ_bits (suc (suc x)) y h k = absurd (omega arith)

xor_digit' :
    (a b : ℕ)
    → bit_xor a b ≡ bit_xor (a / 2) (b / 2) * 2 + (max (a % 2) (b % 2) - min (a % 2) (b % 2))
xor_digit' a b =
    omega (arith, xor_digit a b, differ_bits (a % 2) (b % 2) (omega arith) (omega arith))

-- The two halves of a digit equation: the rest of the digits, and the lowest.
and_half : (a b : ℕ) → bit_and a b / 2 ≡ bit_and (a / 2) (b / 2)
and_half a b = omega (arith, and_digit a b)

and_low : (a b : ℕ) → bit_and a b % 2 ≡ min (a % 2) (b % 2)
and_low a b = omega (arith, and_digit a b)

or_half : (a b : ℕ) → bit_or a b / 2 ≡ bit_or (a / 2) (b / 2)
or_half a b = omega (arith, or_digit a b)

or_low : (a b : ℕ) → bit_or a b % 2 ≡ max (a % 2) (b % 2)
or_low a b = omega (arith, or_digit a b)

xor_half : (a b : ℕ) → bit_xor a b / 2 ≡ bit_xor (a / 2) (b / 2)
xor_half a b = omega (arith, xor_digit' a b)

xor_low : (a b : ℕ) → bit_xor a b % 2 ≡ max (a % 2) (b % 2) - min (a % 2) (b % 2)
xor_low a b = omega (arith, xor_digit' a b)

eq_of_digits : (a b : ℕ) → a / 2 ≡ b / 2 → a % 2 ≡ b % 2 → a ≡ b
eq_of_digits a b h k = omega arith

ruleset halves = (and_half, or_half, xor_half)

ruleset lows = (and_low, or_low, xor_low)

-- `(a | b) & c` is `(a & c) | (b & c)`.
and_or_fuel :
    (n a b c : ℕ) → a + b < n → bit_and (bit_or a b) c ≡ bit_or (bit_and a c) (bit_and b c)
and_or_fuel zero a b c h = absurd (omega arith)
and_or_fuel (suc n) zero zero c h = rw (zero_or, zero_and, zero_or)
and_or_fuel (suc n) (suc a) b c h =
    eq_of_digits _ _ (simp halves (and_or_fuel n (suc a / 2) (b / 2) (c / 2) (omega arith)))
      (simp lows (omega arith))
and_or_fuel (suc n) zero (suc b) c h =
    eq_of_digits _ _ (simp halves (and_or_fuel n (0 / 2) (suc b / 2) (c / 2) (omega arith)))
      (simp lows (omega arith))

pub bit_and-bit_or : (a b c : ℕ) → bit_and (bit_or a b) c ≡ bit_or (bit_and a c) (bit_and b c)
bit_and-bit_or a b c = and_or_fuel (suc (a + b)) a b c (omega arith)

and_xor_fuel :
    (n a b c : ℕ) → a + b < n → bit_and (bit_xor a b) c ≡ bit_xor (bit_and a c) (bit_and b c)
and_xor_fuel zero a b c h = absurd (omega arith)
and_xor_fuel (suc n) zero zero c h = rw (zero_xor, zero_and, zero_xor)
and_xor_fuel (suc n) (suc a) b c h =
    eq_of_digits _ _ (simp halves (and_xor_fuel n (suc a / 2) (b / 2) (c / 2) (omega arith)))
      (simp lows (omega arith))
and_xor_fuel (suc n) zero (suc b) c h =
    eq_of_digits _ _ (simp halves (and_xor_fuel n (0 / 2) (suc b / 2) (c / 2) (omega arith)))
      (simp lows (omega arith))

pub bit_and-bit_xor : (a b c : ℕ) → bit_and (bit_xor a b) c ≡ bit_xor (bit_and a c) (bit_and b c)
bit_and-bit_xor a b c = and_xor_fuel (suc (a + b)) a b c (omega arith)

and_and_fuel : (n a b c : ℕ) → a < n → bit_and (bit_and a b) c ≡ bit_and a (bit_and b c)
and_and_fuel zero a b c h = absurd (omega arith)
and_and_fuel (suc n) zero b c h = simp (zero_and)
and_and_fuel (suc n) (suc a) b c h =
    eq_of_digits _ _ (simp halves (and_and_fuel n (suc a / 2) (b / 2) (c / 2) (omega arith)))
      (simp lows (omega arith))

pub bit_and_assoc : (a b c : ℕ) → bit_and (bit_and a b) c ≡ bit_and a (bit_and b c)
bit_and_assoc a b c = and_and_fuel (suc a) a b c (omega arith)

and_zero_fuel : (n a : ℕ) → a < n → bit_and a 0 ≡ 0
and_zero_fuel zero a h = absurd (omega arith)
and_zero_fuel (suc n) zero h = refl
and_zero_fuel (suc n) (suc a) h =
    omega (arith, and_digit (suc a) 0, and_zero_fuel n (suc a / 2) (omega arith))

pub bit_and-zero : (a : ℕ) → bit_and a 0 ≡ 0
bit_and-zero a = and_zero_fuel (suc a) a (omega arith)

and_comm_fuel : (n a b : ℕ) → a < n → bit_and a b ≡ bit_and b a
and_comm_fuel zero a b h = absurd (omega arith)
and_comm_fuel (suc n) zero b h = zero_and b ∙ sym (bit_and-zero b)
and_comm_fuel (suc n) (suc a) b h =
    eq_of_digits _ _ (simp halves (and_comm_fuel n (suc a / 2) (b / 2) (omega arith)))
      (simp lows (omega arith))

pub bit_and_comm : (a b : ℕ) → bit_and a b ≡ bit_and b a
bit_and_comm a b = and_comm_fuel (suc a) a b (omega arith)

or_zero_fuel : (n a : ℕ) → a < n → bit_or a 0 ≡ a
or_zero_fuel zero a h = absurd (omega arith)
or_zero_fuel (suc n) zero h = refl
or_zero_fuel (suc n) (suc a) h =
    omega (arith, or_digit (suc a) 0, or_zero_fuel n (suc a / 2) (omega arith))

pub bit_or-zero : (a : ℕ) → bit_or a 0 ≡ a
bit_or-zero a = or_zero_fuel (suc a) a (omega arith)

pub zero-bit_or : (b : ℕ) → bit_or 0 b ≡ b
zero-bit_or b = zero_or b

xor_cancel_fuel : (n a b : ℕ) → a + b < n → bit_xor a (bit_xor a b) ≡ b
xor_cancel_fuel zero a b h = absurd (omega arith)
xor_cancel_fuel (suc n) zero b h = simp zero_xor
xor_cancel_fuel (suc n) (suc a) b h =
    eq_of_digits _ _ (simp halves (xor_cancel_fuel n (suc a / 2) (b / 2) (omega arith)))
      (simp lows (omega arith))

pub bit_xor_cancel : (a b : ℕ) → bit_xor a (bit_xor a b) ≡ b
bit_xor_cancel a b = xor_cancel_fuel (suc (a + b)) a b (omega arith)

xor_zero_fuel : (n a : ℕ) → a < n → bit_xor a 0 ≡ a
xor_zero_fuel zero a h = absurd (omega arith)
xor_zero_fuel (suc n) zero h = refl
xor_zero_fuel (suc n) (suc a) h =
    omega (arith, xor_digit' (suc a) 0, xor_zero_fuel n (suc a / 2) (omega arith))

pub bit_xor-zero : (a : ℕ) → bit_xor a 0 ≡ a
bit_xor-zero a = xor_zero_fuel (suc a) a (omega arith)

and_same_fuel : (n a b : ℕ) → a < n → bit_and a (bit_and a b) ≡ bit_and a b
and_same_fuel zero a b h = absurd (omega arith)
and_same_fuel (suc n) zero b h = simp zero_and
and_same_fuel (suc n) (suc a) b h =
    eq_of_digits _ _ (simp halves (and_same_fuel n (suc a / 2) (b / 2) (omega arith)))
      (simp lows (omega arith))

pub bit_and_same : (a b : ℕ) → bit_and a (bit_and a b) ≡ bit_and a b
bit_and_same a b = and_same_fuel (suc a) a b (omega arith)

absorb_fuel : (n a k : ℕ) → a < n → bit_or (bit_and a k) k ≡ k
absorb_fuel zero a k h = absurd (omega arith)
absorb_fuel (suc n) zero k h = simp (zero_and, zero_or)
absorb_fuel (suc n) (suc a) k h =
    eq_of_digits _ _ (simp halves (absorb_fuel n (suc a / 2) (k / 2) (omega arith)))
      (simp lows (omega arith))

-- Bits that are set are set.
pub bit_or_absorb : (a k : ℕ) → bit_or (bit_and a k) k ≡ k
bit_or_absorb a k = absorb_fuel (suc a) a k (omega arith)

-- The bits under `m`, which are `g`, after `|= mask` and after `&= k`.
pub set_bit :
    (v mask m : ℕ) {g : ℕ} → bit_and v m ≡ g → bit_and (bit_or v mask) m ≡ bit_or g (bit_and mask m)
set_bit v mask m h = bit_and-bit_or v mask m ∙ ap (λ x. bit_or x (bit_and mask m)) h

pub clear_bits : (v k m : ℕ) {g : ℕ} → bit_and v m ≡ g → bit_and (bit_and v k) m ≡ bit_and g k
clear_bits v k m h =
    bit_and_assoc v k m
    ∙ ap (bit_and v) (bit_and_comm k m)
    ∙ sym (bit_and_assoc v m k)
    ∙ ap (λ x. bit_and x k) h

-- What agrees under a mask agrees under a narrower one.
pub bit_and_narrow :
    (x y k m : ℕ) → bit_and x k ≡ bit_and y k → bit_and k m ≡ m → bit_and x m ≡ bit_and y m
bit_and_narrow x y k m h e =
    sym (ap (bit_and x) e)
    ∙ sym (bit_and_assoc x k m)
    ∙ ap (λ t. bit_and t m) h
    ∙ bit_and_assoc y k m
    ∙ ap (bit_and y) e

-- A mask reaches through `|`, `^` and a narrower mask.
pub ruleset mask_laws = (
  bit_and-bit_or, bit_and-bit_xor, bit_and_assoc, bit_and-zero, bit_or-zero, zero-bit_or,
  bit_and_same,
)
