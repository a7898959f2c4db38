-- ===== src/Base/Lists.antt =====
-- C arrays as lists with native indices, and memories as functions.
use Prim.Native.Nat.{ℕ, zero, suc, ◌+◌, ◌≤◌, ◌<◌, min}
use mathlib.Core.Path.{◌≡◌, refl, sym, ap, ◌∙◌, subst}
use mathlib.Core.List.{List, [], ◌∷◌, ◌++◌, append-nil, append_assoc}
use native.Mathlib.Omega.{arith}
use native.Mathlib.Nat.{zero-add}
use Prim.Native.Nat.add
use nova_voyager_bootloader.Base.Tests.{◌==◌, if◌then◌else◌}

module _ {ℓ} {A : Type ℓ} where
  abbrev pub length : List A → ℕ
  length [] = 0
  length (x ∷ xs) = suc (length xs)

  abbrev pub get_or : List A → ℕ → A → A
  get_or [] i d = d
  get_or (x ∷ xs) zero d = x
  get_or (x ∷ xs) (suc i) d = get_or xs i d

  -- A write out of bounds changes nothing.
  abbrev pub set : List A → ℕ → A → List A
  set [] i v = []
  set (x ∷ xs) zero v = v ∷ xs
  set (x ∷ xs) (suc i) v = x ∷ set xs i v

  abbrev pub take : ℕ → List A → List A
  take zero xs = []
  take (suc n) [] = []
  take (suc n) (x ∷ xs) = x ∷ take n xs

  abbrev pub replicate : ℕ → A → List A
  replicate zero a = []
  replicate (suc n) a = a ∷ replicate n a

module _ {ℓ} {A : Type ℓ} where
  -- `memcpy(xs + i, ys, length ys)`
  abbrev pub splice : List A → ℕ → List A → List A
  splice xs i [] = xs
  splice xs i (y ∷ ys) = splice (set xs i y) (suc i) ys

  -- `f 0`, …, `f (n - 1)`
  abbrev pub tabulate : ℕ → (ℕ → A) → List A
  tabulate zero f = []
  tabulate (suc n) f = f 0 ∷ tabulate n (λ i. f (suc i))

  pub length-append : (xs ys : List A) → length (xs ++ ys) ≡ length xs + length ys
  length-append [] ys = omega arith
  length-append (x ∷ xs) ys = omega (arith, length-append xs ys)

  pub length-set : (xs : List A) (i : ℕ) (v : A) → length (set xs i v) ≡ length xs
  length-set [] i v = refl
  length-set (x ∷ xs) zero v = refl
  length-set (x ∷ xs) (suc i) v = ap suc (length-set xs i v)

  pub length-tabulate : (n : ℕ) (f : ℕ → A) → length (tabulate n f) ≡ n
  length-tabulate zero f = refl
  length-tabulate (suc n) f = ap suc (length-tabulate n (λ i. f (suc i)))

  pub length-take : (n : ℕ) (xs : List A) → length (take n xs) ≡ min n (length xs)
  length-take zero xs = omega arith
  length-take (suc n) [] = omega arith
  length-take (suc n) (x ∷ xs) = omega (arith, length-take n xs)

-- A memory that differs at one place.
abbrev pub update : (ℕ → ℕ) → ℕ → ℕ → ℕ → ℕ
update m a v x = if a == x then v else m x

module _ {ℓ} {A : Type ℓ} where
  pub length-splice : (xs : List A) (i : ℕ) (ys : List A) → length (splice xs i ys) ≡ length xs
  length-splice xs i [] = refl
  length-splice xs i (y ∷ ys) =
      omega (arith, length-splice (set xs i y) (suc i) ys, length-set xs i y)

  take-suc-set :
      (xs : List A) (i : ℕ) (v : A)
      → i < length xs
      → take (suc i) (set xs i v) ≡ take i xs ++ (v ∷ [])
  take-suc-set [] i v h = absurd (omega arith)
  take-suc-set (x ∷ xs) zero v h = refl
  take-suc-set (x ∷ xs) (suc i) v h = ap (◌∷◌ x) (take-suc-set xs i v (omega arith))

  -- A copy behind the first `i` elements extends them.
  pub take-splice :
      (xs : List A) (i : ℕ) (ys : List A)
      → i + length ys ≤ length xs
      → take (i + length ys) (splice xs i ys) ≡ take i xs ++ ys
  take-splice xs i [] h = ap (λ k. take k xs) (omega arith) ∙ sym (append-nil (take i xs))
  take-splice xs i (y ∷ ys) h =
      ap (λ k. take k (splice (set xs i y) (suc i) ys)) (omega arith)
      ∙ take-splice (set xs i y) (suc i) ys (omega (arith, length-set xs i y))
      ∙ ap (λ l. l ++ ys) (take-suc-set xs i y (omega arith))
      ∙ append_assoc (take i xs) (y ∷ []) ys

  get_or-set_self : (xs : List A) (i : ℕ) (v d : A) → i < length xs → get_or (set xs i v) i d ≡ v
  get_or-set_self [] i v d h = absurd (omega arith)
  get_or-set_self (x ∷ xs) zero v d h = refl
  get_or-set_self (x ∷ xs) (suc i) v d h = get_or-set_self xs i v d (omega arith)

  get_or-set_below :
      (xs : List A) (i j : ℕ) (v d : A) → j < i → get_or (set xs i v) j d ≡ get_or xs j d
  get_or-set_below [] i j v d h = refl
  get_or-set_below (x ∷ xs) zero j v d h = absurd (omega arith)
  get_or-set_below (x ∷ xs) (suc i) zero v d h = refl
  get_or-set_below (x ∷ xs) (suc i) (suc j) v d h = get_or-set_below xs i j v d (omega arith)

  get_or-splice_below :
      (xs : List A) (i : ℕ) (ys : List A) (j : ℕ) (d : A)
      → j < i
      → get_or (splice xs i ys) j d ≡ get_or xs j d
  get_or-splice_below xs i [] j d h = refl
  get_or-splice_below xs i (y ∷ ys) j d h =
      get_or-splice_below (set xs i y) (suc i) ys j d (omega arith) ∙ get_or-set_below xs i j y d h

  -- A copy is found where it was put.
  pub get_or-splice :
      (xs : List A) (i : ℕ) (ys : List A) (j : ℕ) (d : A)
      → i + length ys ≤ length xs
      → j < length ys
      → get_or (splice xs i ys) (i + j) d ≡ get_or ys j d
  get_or-splice xs i [] j d h k = absurd (omega arith)
  get_or-splice xs i (y ∷ ys) zero d h k =
      ap (λ n. get_or (splice (set xs i y) (suc i) ys) n d) (omega arith)
      ∙ get_or-splice_below (set xs i y) (suc i) ys i d (omega arith)
      ∙ get_or-set_self xs i y d (omega arith)
  get_or-splice xs i (y ∷ ys) (suc j) d h k =
      ap (λ n. get_or (splice (set xs i y) (suc i) ys) n d) (omega arith)
      ∙ get_or-splice (set xs i y) (suc i) ys j d (omega (arith, length-set xs i y)) (omega arith)

pub tabulate-append {ℓ} :
    {A : Type ℓ} (n k : ℕ) (f : ℕ → A)
    → tabulate n f ++ tabulate k (λ i. f (n + i)) ≡ tabulate (n + k) f
tabulate-append zero k f = simp zero-add
tabulate-append (suc n) k f = simp add.suc (ap (◌∷◌ (f 0)) (tabulate-append n k (λ i. f (suc i))))

-- Every element is a byte.
abbrev pub AllBytes : List ℕ → Type 0
AllBytes [] = Unit
AllBytes (b ∷ bs) = (b < 256) × AllBytes bs

pub AllBytes-take :
    (n k : ℕ) (f : ℕ → ℕ) → n ≤ k → AllBytes (tabulate k f) → AllBytes (tabulate n f)
AllBytes-take zero k f h b = tt
AllBytes-take (suc n) zero f h b = absurd (omega arith)
AllBytes-take (suc n) (suc k) f h b = (b.0, AllBytes-take n k (λ i. f (suc i)) (omega arith) b.1)

AllBytes-suffix : (xs ys : List ℕ) → AllBytes (xs ++ ys) → AllBytes ys
AllBytes-suffix [] ys b = b
AllBytes-suffix (x ∷ xs) ys b = AllBytes-suffix xs ys b.1

pub AllBytes-drop :
    (n k : ℕ) (f : ℕ → ℕ) → AllBytes (tabulate (n + k) f) → AllBytes (tabulate k (λ i. f (n + i)))
AllBytes-drop n k f b =
    AllBytes-suffix (tabulate n f) (tabulate k (λ i. f (n + i)))
      (subst AllBytes (sym (tabulate-append n k f)) b)
