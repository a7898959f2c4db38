-- ===== src/Dfu/Host/Update.antt =====
-- A whole firmware update as the host does it: erase the pages, set the address pointer, write the
-- blocks. The host's side of what src/usb_dfu.c serves.
use nova_voyager_bootloader.Base.{
  ℕ, zero, suc, ◌+◌, ◌*◌, ◌%◌, ◌≤◌, ◌<◌, ◌≡◌, refl, sym, ap, ◌∙◌, ◌&&◌, List, [], ◌∷◌, ◌++◌, length,
  length-append, append-nil, AllBytes, leb, ltb, if◌then◌else◌, arith,
}
use nova_voyager_bootloader.Flash.Region.{
  app_flash_start, app_flash_end, flash_page_size, page_base,
}
use nova_voyager_bootloader.Flash.Program.{stored, IsErased, padded}
use nova_voyager_bootloader.Flash.Erase.{page_erased}
use nova_voyager_bootloader.Dfu.State.{app_start_address}
use nova_voyager_bootloader.Dfu.Download.{concat}
use nova_voyager_bootloader.Dfu.Image.{stored-append, stored_above, stored-cong}
use nova_voyager_bootloader.Dfu.Host.{
  Op, erase_page, point_to, write_block, Target, block_place, effect, effects, AllSome, AllFit,
}

-- `n` pages from the address `a` on.
abbrev pub erase_pages : ℕ → ℕ → List Op
erase_pages zero a = []
erase_pages (suc n) a = erase_page a ∷ erase_pages n (a + flash_page_size)

-- The blocks, numbered one after the other.
abbrev pub write_blocks : ℕ → List (List (List ℕ)) → List Op
write_blocks block [] = []
write_blocks block (ps ∷ rest) = write_block block ps ∷ write_blocks (suc block) rest

abbrev pub update : ℕ → List (List (List ℕ)) → List Op
update n blocks =
    erase_pages n app_start_address ++ (point_to app_start_address ∷ write_blocks 2 blocks)

abbrev pub firmware : List (List (List ℕ)) → List ℕ
firmware [] = []
firmware (ps ∷ rest) = concat ps ++ firmware rest

-- 1 to 1024 bytes in packets of which none is empty.
abbrev pub IsPayload : List (List ℕ) → Type 0
IsPayload ps =
    AllSome ps × AllBytes (concat ps) × (0 < length (concat ps)) × (length (concat ps) ≤ 1024)

-- All blocks but the last have 1024 bytes.
abbrev pub IsFirmware : List (List (List ℕ)) → Type 0
IsFirmware [] = Unit
IsFirmware (ps ∷ []) = IsPayload ps
IsFirmware (ps ∷ qs ∷ rest) = IsPayload ps × (length (concat ps) ≡ 1024) × IsFirmware (qs ∷ rest)

-- The memory `m` with `len` bytes from `a` on erased.
abbrev pub wiped : (ℕ → ℕ) → ℕ → ℕ → ℕ → ℕ
wiped m a len x = if leb a x && ltb x (a + len) then 0xFF else m x

AllFit-append :
    (os more : List Op) (t : Target)
    → AllFit os t
    → AllFit more (effects os t)
    → AllFit (os ++ more) t
AllFit-append [] more t h k = k
AllFit-append (o ∷ os) more t (h, hs) k = (h, AllFit-append os more (effect o t) hs k)

effects-append :
    (os more : List Op) (t : Target) → effects (os ++ more) t ≡ effects more (effects os t)
effects-append [] more t = refl
effects-append (o ∷ os) more t = effects-append os more (effect o t)

-- Pages that lie in the application region.
erase_pages-AllFit :
    (n a : ℕ) (t : Target)
    → app_flash_start ≤ a
    → a + n * flash_page_size ≤ app_flash_end + 1
    → AllFit (erase_pages n a) t
erase_pages-AllFit zero a t lo hi = tt
erase_pages-AllFit (suc n) a t lo hi = (
  (omega arith, omega arith),
  erase_pages-AllFit n (a + flash_page_size) (effect (erase_page a) t) (omega arith) (omega arith),
)

wiped_page :
    (m : ℕ → ℕ) (n a x : ℕ)
    → a % flash_page_size ≡ 0
    → wiped (page_erased m (page_base a)) (a + flash_page_size) (n * flash_page_size) x
      ≡ wiped m a (suc n * flash_page_size) x
unfolding page_base
wiped_page m n a x h =
    let e : page_base a ≡ a = omega arith in
    let k : suc n * flash_page_size ≡ flash_page_size + n * flash_page_size = omega arith in
    rw (e, k) (ground arith)

erase_pages_lem :
    (n a : ℕ) (t : Target) (x : ℕ)
    → a % flash_page_size ≡ 0
    → (effects (erase_pages n a) t).memory x ≡ wiped t.memory a (n * flash_page_size) x
erase_pages_lem zero a t x h = ground arith
erase_pages_lem (suc n) a t x h =
    erase_pages_lem n (a + flash_page_size) (effect (erase_page a) t) x (omega arith)
    ∙ wiped_page t.memory n a x h

erase_pages-pointer : (n a : ℕ) (t : Target) → (effects (erase_pages n a) t).pointer ≡ t.pointer
erase_pages-pointer zero a t = refl
erase_pages-pointer (suc n) a t =
    erase_pages-pointer n (a + flash_page_size) (effect (erase_page a) t)

-- Blocks for erased memory: the host's memory then holds their bytes in one piece.
write_blocks_lem :
    (block : ℕ) (blocks : List (List (List ℕ))) (t : Target)
    → IsFirmware blocks
    → 2 ≤ block
    → t.pointer % 2 ≡ 0
    → app_flash_start ≤ block_place t block
    → block_place t block + length (firmware blocks) ≤ app_flash_end + 1
    → IsErased t.memory
        (block_place t block)
        (block_place t block + padded (length (firmware blocks)))
    → AllFit (write_blocks block blocks) t
      × ((x : ℕ)
          → (effects (write_blocks block blocks) t).memory x
            ≡ stored t.memory (block_place t block) (firmware blocks) x)
write_blocks_lem block [] t i b even lo hi erased = (tt, λ x. ground arith)
write_blocks_lem block (ps ∷ []) t (a, ok, some, most) b even lo hi erased =
    let e : concat ps ++ [] ≡ concat ps = append-nil (concat ps) in
    let n : length (concat ps ++ []) ≡ length (concat ps) = ap length e in
    (
      (
        record {
          packets = a;
          bytes = ok;
          block_lo = b;
          some = some;
          most = most;
          even = omega arith;
          lo = lo;
          hi = omega (arith, n);
          erased = λ x l k. erased x l (omega (arith, n));
        },
        tt,
      ),
      λ x. ap (λ l. stored t.memory (block_place t block) l x) (sym e),
    )
write_blocks_lem block (ps ∷ qs ∷ more) t ((a, ok, some, most), full, i) b even lo hi erased =
    let bs = qs ∷ more in
    let bytes = concat ps in
    let place = block_place t block in
    let n : length (firmware (ps ∷ bs)) ≡ length bytes + length (firmware bs) =
      length-append {0} bytes (firmware bs) in
    let next = effect (write_block block ps) t in
    let step : block_place next (suc block) ≡ place + length bytes = omega arith in
    let ih =
      write_blocks_lem (suc block) (qs ∷ more) next i (omega arith) even (omega arith)
        (omega (arith, n))
        (λ x l k.
          stored_above t.memory place bytes x (omega arith)
          ∙ erased x (omega arith) (omega (arith, n))) in
    (
      (
        record {
          packets = a;
          bytes = ok;
          block_lo = b;
          some = some;
          most = most;
          even = omega arith;
          lo = lo;
          hi = omega (arith, n);
          erased = λ x l k. erased x l (omega (arith, n));
        },
        ih.0,
      ),
      λ x.
          ih.1 x
          ∙ ap (λ c. stored next.memory c (firmware bs) x) step
          ∙ stored-append t.memory place bytes (firmware bs) x,
    )

-- A firmware that fits into the first `n` pages of the region: the host may do all of it, and it
-- ends with the pages erased and the firmware at their start.
pub update_lem :
    (n : ℕ) (blocks : List (List (List ℕ))) (t : Target)
    → IsFirmware blocks
    → padded (length (firmware blocks)) ≤ n * flash_page_size
    → app_start_address + n * flash_page_size ≤ app_flash_end + 1
    → AllFit (update n blocks) t
      × ((x : ℕ)
          → (effects (update n blocks) t).memory x
            ≡ stored
                (wiped t.memory app_start_address (n * flash_page_size))
                app_start_address
                (firmware blocks)
                x)
update_lem n blocks t i fits hi =
    let wipe = effects (erase_pages n app_start_address) t in
    let next = effect (point_to app_start_address) wipe in
    let m = λ (x : ℕ). erase_pages_lem n app_start_address t x refl in
    let w =
      write_blocks_lem 2 blocks next i (omega arith) refl (omega arith) (omega arith)
        (λ x l k. m x ∙ ground arith) in
    (
      AllFit-append (erase_pages n app_start_address)
          (point_to app_start_address ∷ write_blocks 2 blocks) t
          (erase_pages-AllFit n app_start_address t (omega arith) hi) (omega arith, w.0),
      λ x.
          ap (λ (k : Target). k.memory x)
            (effects-append (erase_pages n app_start_address)
              (point_to app_start_address ∷ write_blocks 2 blocks) t)
          ∙ w.1 x
          ∙ stored-cong wipe.memory (wiped t.memory app_start_address (n * flash_page_size))
              app_start_address (firmware blocks) x (m x),
    )
