-- ===== src/Dfu/Host/Programs.antt =====
-- A host operation on the machine of events, and what it calls of src/flash_if.c.
use nova_voyager_bootloader.Base.{
  ℕ, ◌+◌, ◌-◌, ◌*◌, ◌^◌, ◌≤◌, ◌<◌, ◌≡◌, inr, refl, ap, ◌∙◌, true, false, Bool, List, [], ◌∷◌, ◌++◌,
  length, length-append, length-splice, u32, arith,
}
use nova_voyager_bootloader.Flash.Interface.{FlashIf, done}
use nova_voyager_bootloader.Dfu.State.{
  ok, dnload_sync, dnload_idle, Dfu, dfuse_cmd_set_address, dfuse_cmd_erase_page,
}
use nova_voyager_bootloader.Dfu.Status.{getstatus_transition}
use nova_voyager_bootloader.Dfu.Requests.{start_download}
use nova_voyager_bootloader.Dfu.Dispatch.{take_packet}
use nova_voyager_bootloader.Dfu.Download.{
  concat, take_packets, take_packet-IsExtended, getstatus_twice, filled-Writes,
}
use nova_voyager_bootloader.Dfu.Commands.{decoded}
use nova_voyager_bootloader.Dfu.Bus.{
  given, offered, stepped, requested, requested_by, serve, serve_all,
}
use nova_voyager_bootloader.Dfu.Bus.Refinement.{serve_all-append}
use nova_voyager_bootloader.Dfu.Host.{
  le32, le32_arg, write_block, outs, twice, command, op_events, AllSome, IsFree,
}

-- A command with its operand, once its packet has been decoded.
pub record IsLoaded (c a address : ℕ) (d : Dfu) : Type 0 where
  pub state : d.context.state ≡ dnload_sync
  pub status : d.context.status ≡ ok
  pub command : d.dfuse_cmd_pending ≡ c
  pub has_arg : d.dfuse_cmd_has_arg ≡ true
  pub arg : d.dfuse_cmd_arg ≡ a
  pub pointer : d.dfuse_address_ptr ≡ address
  pub size : length d.dfu_buffer ≡ 1024

pub loaded :
    (c a address : ℕ) (d : Dfu)
    → a < 2 ^ 32
    → IsFree address d
    → IsLoaded c a address (take_packet (c ∷ le32 a) (start_download 0 5 d)).0
unfolding take_packet start_download
loaded c a address d lt h =
    let s = start_download 0 5 d in
    let e =
      decoded (c ∷ le32 a) s refl
        (record { size = h.size; state = refl; block = refl; announced = refl; empty = refl }) in
    record {
      state = ap (λ k. k.state) e.0;
      status = ap (λ k. k.status) e.0 ∙ h.status;
      command = e.1;
      has_arg = e.2;
      arg = e.3 ∙ le32_arg c a lt;
      pointer = e.4 ∙ h.pointer;
      size = length-splice d.dfu_buffer 0 (c ∷ le32 a) ∙ h.size;
    }

-- What an operation leaves, field by field.
abbrev pub Freed : ℕ → Dfu → Type 0
Freed address d =
    (d.context.state ≡ dnload_idle)
    × (d.context.status ≡ ok)
    × (d.dfuse_address_ptr ≡ address)
    × (d.dfuse_cmd_pending ≡ 0)
    × (length d.dfu_buffer ≡ 1024)

pub Freed-IsFree : {address : ℕ} {d : Dfu} → Freed address d → IsFree address d
Freed-IsFree h = record { state = inr h.0; status = h.1; pointer = h.2; pending = h.3; size = h.4 }

given_sync :
    (packet : List ℕ) (d : Dfu)
    → d.context.state ≡ dnload_sync
    → 0 < length packet
    → given packet d ≡ (take_packet packet d).0
unfolding given
given_sync packet d s n = ground arith

pub offered_free :
    (block len address : ℕ) (d : Dfu)
    → IsFree address d
    → 2 ≤ block
    → 0 < len
    → len ≤ 1024
    → offered block len d ≡ start_download block len d
unfolding offered
offered_free block len address d h lo some most = ground (arith, h.state)

module _ {F : Type 0} (flash_if : FlashIf F) where
  -- The end of an operation.
  pub serve_twice :
      (d : Dfu) (f : F)
      → serve_all flash_if twice d f
        ≡ ((getstatus_twice flash_if d f).1.1, (getstatus_twice flash_if d f).1.2)
  unfolding serve_all serve requested_by requested stepped getstatus_twice
  serve_twice d f = refl

  pub serve_command :
      (c a address : ℕ) (d : Dfu) (f : F)
      → IsFree address d
      → serve_all flash_if (command c a) d f
        ≡ serve_all flash_if twice (take_packet (c ∷ le32 a) (start_download 0 5 d)).0 f
  unfolding serve_all serve requested_by requested offered given start_download
  serve_command c a address d f h = ground (arith, h.state)

  pub ran_point_to :
      (a address : ℕ) (d : Dfu) (f : F)
      → IsLoaded dfuse_cmd_set_address a address d
      → let second = (getstatus_twice flash_if d f).1 in Freed a second.1 × (second.2 ≡ f)
  unfolding getstatus_twice getstatus_transition
  ran_point_to a address d f h =
      ground (arith, h.state, h.status, h.command, h.has_arg, h.arg, h.pointer, h.size)

  pub ran_erase_page :
      (a address : ℕ) (d : Dfu) (f : F)
      → IsLoaded dfuse_cmd_erase_page a address d
      → (flash_if.flash_erase_page a f).0 ≡ done
      → let second = (getstatus_twice flash_if d f).1 in
        Freed address second.1 × (second.2 ≡ (flash_if.flash_erase_page a f).1)
  unfolding getstatus_twice getstatus_transition
  ran_erase_page a address d f h e =
      ground (arith, h.state, h.status, h.command, h.has_arg, h.arg, h.pointer, h.size)

  -- A data stage on the machine of events.
  pub serve_outs :
      (ps : List (List ℕ)) (d : Dfu) (f : F) (acked : Bool)
      → AllSome ps
      → d.context.state ≡ dnload_sync
      → length d.dfu_buffer ≡ 1024
      → d.dfu_buffer_len + length (concat ps) ≤ 1024
      → 2 ≤ d.context.block_num
      → serve_all flash_if (outs ps) d f ≡ ((take_packets ps (d, acked)).0, f)
  unfolding serve_all serve given take_packets
  serve_outs [] d f acked a s size fits block = refl
  serve_outs (p ∷ ps) d f acked (n, a) s size fits block =
      let total = length-append {0} p (concat ps) in
      let e = (take_packet-IsExtended p d size (omega (arith, total)) block).0 in
      let r = take_packet p d in
      ap (λ k. serve_all flash_if (outs ps) k f) (given_sync p d s n)
      ∙ serve_outs ps r.0 f r.1 a (ap (λ c. c.state) e.context ∙ s) (e.size ∙ size)
          (omega (arith, total, e.len)) (omega (arith, ap (λ c. c.block_num) e.context))

  -- The events of a block lead to the two status requests on the filled buffer.
  pub serve_write_block :
      (block : ℕ) (ps : List (List ℕ)) (address : ℕ) (d : Dfu) (f : F)
      → IsFree address d
      → AllSome ps
      → 2 ≤ block
      → 0 < length (concat ps)
      → length (concat ps) ≤ 1024
      → let filled = (take_packets ps (start_download block (length (concat ps)) d, false)).0 in
        let second = (getstatus_twice flash_if filled f).1 in
        serve_all flash_if (op_events (write_block block ps)) d f ≡ (second.1, second.2)
  unfolding serve_all serve requested_by requested start_download
  serve_write_block block ps address d f h a lo some most =
      let len = length (concat ps) in
      let started = start_download block len d in
      ap (λ k. serve_all flash_if (outs ps ++ twice) k f)
        (offered_free block len address d h lo some most)
      ∙ serve_all-append flash_if (outs ps) twice started f
      ∙ ap (λ (k : Dfu × F). serve_all flash_if twice k.0 k.1)
          (serve_outs ps started f false a refl h.size (omega arith) lo)
      ∙ serve_twice _ f

  -- A data block and its two status requests.
  pub ran_write_block :
      (block : ℕ) (ps : List (List ℕ)) (address place : ℕ) (d : Dfu) (f : F)
      → IsFree address d
      → AllSome ps
      → 2 ≤ block
      → 0 < length (concat ps)
      → length (concat ps) ≤ 1024
      → u32 (address + (block - 2) * 1024) ≡ place
      → (flash_if.flash_write place (concat ps) f).0 ≡ done
      → let filled = (take_packets ps (start_download block (length (concat ps)) d, false)).0 in
        let second = (getstatus_twice flash_if filled f).1 in
        (serve_all flash_if (op_events (write_block block ps)) d f ≡ (second.1, second.2))
        × (Freed address second.1 × (second.2 ≡ (flash_if.flash_write place (concat ps) f).1))
  ran_write_block block ps address place d f h a lo some most at e =
      let w = (filled-Writes flash_if d f block ps h.size h.pending lo some most).1 in
      let q : u32 (d.dfuse_address_ptr + (block - 2) * 1024) ≡ place =
        ap (λ k. u32 (k + (block - 2) * 1024)) h.pointer ∙ at in
      let ends = w.5 (ap (λ k. (flash_if.flash_write k (concat ps) f).0) q ∙ e) in
      (
        serve_write_block block ps address d f h a lo some most,
        (
          (ends.0, ends.1 ∙ h.status, ends.3 ∙ h.pointer, ends.4, ends.5),
          w.4 ∙ ap (λ k. (flash_if.flash_write k (concat ps) f).1) q,
        ),
      )
