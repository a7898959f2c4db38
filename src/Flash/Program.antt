-- ===== src/Flash/Program.antt =====
-- flash_write on a working controller stores the bytes.
use nova_voyager_bootloader.Base.{
  ℕ, zero, suc, ◌+◌, ◌-◌, ◌*◌, ◌%◌, ◌≤◌, ◌<◌, Option, some, ◌≡◌, inl, inr, refl, sym, ap, ◌∙◌, true,
  false, ◌&&◌, List, [], ◌∷◌, length, get_or, AllBytes, leb, ltb, ◌==◌, if◌then◌else◌, u8, u32,
  arith,
}
use native.Mathlib.Decide.{ℕ_discrete}
use nova_voyager_bootloader.Flash.Region.{
  InApp, app_flash_start, app_flash_end, flash_is_address_valid, flash_is_address_valid_iff,
}
use nova_voyager_bootloader.Flash.Interface.{Outcome, done}
use nova_voyager_bootloader.Flash.Port.{FlashPort, sr, flash_cr_pg, flash_cr_strt, flash_cr_lock}
use nova_voyager_bootloader.Flash.Ops.{
  flash_wait, finish, program_halfword, program_loop, flash_write,
}
use nova_voyager_bootloader.Flash.Controller.{flash_cr_mer, IsController}
use nova_voyager_bootloader.Flash.Working.{IsWorking, IsRested, Holds, HasBits-eq}
use nova_voyager_bootloader.Flash.Holding.{
  Holds-after, Holds-wait, Holds-set, Holds-clear, Holds-opened, Holds-locked, Holds-IsRested,
}

-- The memory `m` with `bytes` from the address `a` on.
abbrev pub stored : (ℕ → ℕ) → ℕ → List ℕ → ℕ → ℕ
stored m a bytes x = if leb a x && ltb x (a + length bytes) then get_or bytes (x - a) 0 else m x

-- The bytes from `a` up to `b` are erased.
abbrev pub IsErased : (ℕ → ℕ) → ℕ → ℕ → Type 0
IsErased m a b = (x : ℕ) → a ≤ x → x < b → m x ≡ 0xFF

-- A length in whole half-words.
abbrev pub padded : ℕ → ℕ
padded n = n + n % 2

get_or_one : (b k : ℕ) → get_or (b ∷ []) k 0 ≡ (if k == 0 then b else 0)
get_or_one b zero = refl
get_or_one b (suc k) = ground arith

stored_none : (m : ℕ → ℕ) (a x : ℕ) → stored m a [] x ≡ m x
stored_none m a x = ground arith

-- A list with two elements in front, element by element.
get_or_pair :
    (lo hi : ℕ) (rest : List ℕ) (k : ℕ)
    → get_or (lo ∷ hi ∷ rest) k 0
      ≡ (if k == 0 then lo else if k == 1 then hi else get_or rest (k - 2) 0)
get_or_pair lo hi rest zero = refl
get_or_pair lo hi rest (suc zero) = refl
get_or_pair lo hi rest (suc (suc k)) =
    let e : k ≡ suc (suc k) - 2 = omega arith in ground (arith, ap (λ n. get_or rest n 0) e)

stored_pair :
    (m : ℕ → ℕ) (a lo hi : ℕ) (rest : List ℕ) (x : ℕ)
    → stored (stored m a (lo ∷ hi ∷ [])) (a + 2) rest x ≡ stored m a (lo ∷ hi ∷ rest) x
stored_pair m a lo hi rest x =
    let e : (x - a) - 2 ≡ x - (a + 2) = omega arith in
    rw (get_or_pair lo hi rest (x - a), get_or_pair lo hi [] (x - a), e) (ground arith)

stored_pad :
    (m : ℕ → ℕ) (a lo x : ℕ)
    → m (a + 1) ≡ 0xFF
    → stored m a (lo ∷ 0xFF ∷ []) x ≡ stored m a (lo ∷ []) x
stored_pad m a lo x h = elim (ℕ_discrete x (a + 1)) [
  | yes e ↦ rw (e, get_or_pair lo 0xFF [] (a + 1 - a)) (ground arith)
  | no n ↦ rw (get_or_pair lo 0xFF [] (x - a), get_or_one lo (x - a)) (ground arith)
]

module _ {D : Type 0} (port : FlashPort D) {doc : IsController port} (w : IsWorking port doc) where
  abbrev IsOpen : (ℕ → ℕ) → D → Type 0
  IsOpen f d = Holds port w flash_cr_pg 0 0 f d

  Holds-ext :
      {g e l : ℕ} {f f' : ℕ → ℕ} {d : D}
      → ((x : ℕ) → f x ≡ f' x)
      → Holds port w g e l f d
      → Holds port w g e l f' d
  Holds-ext q h = record {
    bits = h.bits;
    no_mer = h.no_mer;
    no_strt = h.no_strt;
    errorless = h.errorless;
    same = λ x. h.same x ∙ q x;
  }

  -- One half-word.
  Holds-program :
      (dst lo hi : ℕ) {f : ℕ → ℕ} {d : D}
      → IsOpen f d
      → dst % 2 ≡ 0
      → InApp dst
      → f dst ≡ 0xFF
      → f (dst + 1) ≡ 0xFF
      → lo < 256
      → hi < 256
      → IsOpen (stored f dst (lo ∷ hi ∷ [])) (port.program dst (u8 lo + u8 hi * 256) d)
  Holds-program dst lo hi {f} {d} h even inside low high a b =
      let h_lo = h.same dst ∙ low in
      let h_hi = h.same (dst + 1) ∙ high in
      record {
        bits = HasBits-eq port (w.bits_program dst _ d) h.bits;
        no_mer = doc.clear_program flash_cr_mer dst _ d h.no_mer;
        no_strt = doc.clear_program flash_cr_strt dst _ d h.no_strt;
        errorless =
            w.errorless_program dst _ d even inside h.bits.pg h.bits.lock h_lo h_hi h.errorless;
        same = λ x. rw (get_or_pair lo hi [] (x - dst)) (programmed x);
      }
    where
      programmed :
          (x : ℕ)
          → port.byte (port.program dst (u8 lo + u8 hi * 256) d) x ≡ (
              if leb dst x && ltb x (dst + 2)
              then (if (x - dst) == 0 then lo else if (x - dst) == 1 then hi else 0)
              else f x)
      programmed x = elim (ℕ_discrete x dst) [
        | yes e ↦ rw e (
            w.programmed_low dst _ d even h.bits.pg h.bits.lock (h.same dst ∙ low)
              (h.same (dst + 1) ∙ high)
            ∙ ground arith)
        | no n ↦ elim (ℕ_discrete x (dst + 1)) [
          | yes e ↦ rw e (
              w.programmed_high dst _ d even h.bits.pg h.bits.lock (h.same dst ∙ low)
                (h.same (dst + 1) ∙ high)
              ∙ ground arith)
          | no k ↦ doc.byte_program dst _ d x n k ∙ h.same x ∙ ground arith
        ]
      ]

  -- The half-word, the wait and the check in one round of the loop.
  round_lem :
      (dst lo hi : ℕ) {f : ℕ → ℕ} {d : D} (rest : D → Option Outcome × D)
      → IsOpen f d
      → dst % 2 ≡ 0
      → InApp dst
      → f dst ≡ 0xFF
      → f (dst + 1) ≡ 0xFF
      → lo < 256
      → hi < 256
      → (d' : D) × (program_halfword port dst lo hi rest d ≡ rest d')
        × IsOpen (stored f dst (lo ∷ hi ∷ [])) d'
  unfolding program_halfword
  round_lem dst lo hi {f} {d} rest h even inside low high a b =
      let p = Holds-wait port w (Holds-program dst lo hi h even inside low high a b) in
      let aligned : (dst % 2 == 1) ≡ false = ground (arith, even) in
      (
        port.after sr (flash_wait port (port.program dst (u8 lo + u8 hi * 256) d)),
        rw (aligned, w.no_flag _ p.errorless, program_halfword) refl,
        Holds-after port w sr p,
      )

  -- What the loop gives: success, and the memory as it should be, on a locked controller.
  abbrev Stores : (ℕ → ℕ) → Option Outcome × D → Type 0
  Stores f (r, d) = (r ≡ some done) × Holds port w 0 0 flash_cr_lock f d

  finish-Stores : {f : ℕ → ℕ} {d : D} → IsOpen f d → Stores f (finish port done d)
  unfolding finish
  finish-Stores h = (
    refl,
    Holds-locked port w
        (Holds-clear port w flash_cr_pg refl refl refl (inl refl) (inr (refl, refl)) h),
  )

  Stores-ext :
      {f f' : ℕ → ℕ} {r : Option Outcome × D} → ((x : ℕ) → f x ≡ f' x) → Stores f r → Stores f' r
  Stores-ext q s = (s.0, Holds-ext q s.1)

  loop-Stores :
      (dst : ℕ) (bytes : List ℕ) {f : ℕ → ℕ} {d : D}
      → IsOpen f d
      → dst % 2 ≡ 0
      → app_flash_start ≤ dst
      → dst + length bytes ≤ app_flash_end + 1
      → IsErased f dst (dst + padded (length bytes))
      → AllBytes bytes
      → Stores (stored f dst bytes) (program_loop port dst bytes d)
  unfolding program_loop
  loop-Stores dst [] {f} h even lo hi e b =
      Stores-ext (λ x. sym (stored_none f dst x)) (finish-Stores h)
  loop-Stores dst (b0 ∷ []) {f} {d} h even lo hi e b =
      let (d', q, o) =
        round_lem dst b0 0xFF (finish port done) h even (omega arith, omega arith)
          (e dst (omega arith) (omega arith)) (e (dst + 1) (omega arith) (omega arith)) b.0
          (omega arith) in
      rw q (
        Stores-ext (λ x. stored_pad f dst b0 x (e (dst + 1) (omega arith) (omega arith)))
          (finish-Stores o))
  loop-Stores dst (b0 ∷ b1 ∷ bs) {f} {d} h even lo hi e b =
      let (d', q, o) =
        round_lem dst b0 b1 (program_loop port (u32 (dst + 2)) bs) h even (omega arith, omega arith)
          (e dst (omega arith) (omega arith)) (e (dst + 1) (omega arith) (omega arith)) b.0 b.1.0 in
      let next : u32 (dst + 2) ≡ dst + 2 = omega arith in
      rw q (
        Stores-ext (λ x. rw next (stored_pair f dst b0 b1 bs x))
          (loop-Stores (u32 (dst + 2)) bs o (omega arith) (omega arith) (omega arith)
            (λ x l k. above x (omega arith) ∙ e x (omega arith) (omega arith)) b.1.1))
    where
      above : (x : ℕ) → dst + 2 ≤ x → stored f dst (b0 ∷ b1 ∷ []) x ≡ f x
      above x l = ground arith

  -- On a working controller at rest, flash_write of any number of bytes to an even address stores
  -- exactly these bytes there and changes no other, if the destination, with the byte after an odd
  -- tail, is erased and lies in the application region. It reports success, and leaves the
  -- controller locked and at rest.
  pub flash_write-stored :
      (address : ℕ) (bytes : List ℕ) (d : D)
      → IsRested port d
      → address % 2 ≡ 0
      → app_flash_start ≤ address
      → address + length bytes ≤ app_flash_end + 1
      → IsErased (port.byte d) address (address + padded (length bytes))
      → AllBytes bytes
      → let (r, d') = flash_write port address bytes d in
        (r ≡ some done)
        × ((x : ℕ) → port.byte d' x ≡ stored (port.byte d) address bytes x)
        × IsRested port d'
  unfolding flash_write
  flash_write-stored address [] d r even lo hi e b =
      (refl, λ x. sym (stored_none (port.byte d) address x), r)
  flash_write-stored address (b0 ∷ bs) d r even lo hi e b =
      let first : flash_is_address_valid address ≡ true =
        (flash_is_address_valid_iff address).1 (omega arith) in
      let last : flash_is_address_valid (u32 (address + length (b0 ∷ bs) - 1)) ≡ true =
        (flash_is_address_valid_iff _).1 (omega arith) in
      let filled : (length (b0 ∷ bs) == 0) ≡ false = ground arith in
      let s =
        loop-Stores address (b0 ∷ bs)
          (Holds-set port w flash_cr_pg refl refl (Holds-opened port w d r)) even lo hi e b in
      rw (filled, first, last, flash_write) (s.0, s.1.same, Holds-IsRested port w s.1)
