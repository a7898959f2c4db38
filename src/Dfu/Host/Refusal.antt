-- ===== src/Dfu/Host/Refusal.antt =====
-- Host operations that reach outside the application region: src/usb_dfu.c on src/flash_if.c
-- refuses them, and CLRSTATUS makes the device usable again.
use nova_voyager_bootloader.Base.{
  ℕ, ◌+◌, ◌-◌, ◌*◌, ◌^◌, ◌≤◌, ◌<◌, Option, some, ◌≡◌, ◌⊎◌, inl, inr, refl, sym, ap, ◌∙◌, false,
  List, [], ◌∷◌, length, take, ◌==◌, u32, Bool-cases, arith,
}
use mathlib.Core.Path.{subst}
use nova_voyager_bootloader.Usb.Regs.{UsbRegs, UsbPort}
use nova_voyager_bootloader.Flash.Region.{InApp, flash_is_address_valid, flash_is_address_valid_iff}
use nova_voyager_bootloader.Flash.Interface.{FlashIf, Outcome, failed}
use nova_voyager_bootloader.Flash.Port.{FlashPort}
use nova_voyager_bootloader.Flash.Ops.{flash_write, flash_erase_page}
use nova_voyager_bootloader.Flash.Confined.{flash_of, returned}
use nova_voyager_bootloader.Flash.Working.{IsRested}
use nova_voyager_bootloader.Dfu.State.{
  ok, idle, dnload_sync, error, DfuStatus, err_erase, err_write, err_address, Dfu, Device,
  dfuse_cmd_erase_page,
}
use nova_voyager_bootloader.Dfu.Status.{getstatus_transition}
use nova_voyager_bootloader.Dfu.Requests.{start_download}
use nova_voyager_bootloader.Dfu.Dispatch.{SetupPacket, take_packet}
use nova_voyager_bootloader.Dfu.Download.{
  concat, take_packets, take_packets-IsExtended, getstatus_twice,
}
use nova_voyager_bootloader.Dfu.Bus.{
  setup, all_heard, telling, cleared, requested, requested_by, serve, serve_all,
}
use nova_voyager_bootloader.Dfu.Bus.Refinement.{view, polls, polls-telling}
use nova_voyager_bootloader.Dfu.Host.{
  le32, Op, erase_page, point_to, write_block, op_events, Target, block_place, AllSome, IsFree,
  Meets,
}
use nova_voyager_bootloader.Dfu.Host.Programs.{
  IsLoaded, loaded, serve_twice, serve_command, serve_write_block,
}

-- A page erase, or a block of 1 to 1024 bytes of which the first or the last, outside the region.
abbrev pub Refused : Op → Target → Type 0
Refused (erase_page a) t = (a < 2 ^ 32) × (¬ InApp a)
Refused (point_to a) t = ⊥
Refused (write_block block ps) t =
    let place = block_place t block in
    let len = length (concat ps) in
    AllSome ps
    × (2 ≤ block)
    × (0 < len)
    × (len ≤ 1024)
    × (place + len ≤ 2 ^ 32)
    × ((¬ InApp place) ⊎ (¬ InApp (place + len - 1)))

-- What the host is told.
abbrev pub reason : Op → DfuStatus
reason (erase_page a) = err_erase
reason (point_to a) = err_address
reason (write_block block ps) = err_write

-- The SETUP packet of a CLRSTATUS.
abbrev pub clrstatus_packet : SetupPacket
clrstatus_packet = record {
  bm_request_type = 0x21;
  b_request = 0x04;
  w_value = 0;
  w_index = 0;
  w_length = 0;
}

invalid : (a : ℕ) → ¬ InApp a → flash_is_address_valid a ≡ false
invalid a h = elim (Bool-cases (flash_is_address_valid a)) [
  | inl e ↦ absurd (h ((flash_is_address_valid_iff a).0 e))
  | inr e ↦ e
]

-- The error state, field by field.
abbrev Failed : ℕ → DfuStatus → Dfu → Type 0
Failed address e d =
    (d.context.state ≡ error)
    × (d.context.status ≡ e)
    × (d.dfuse_address_ptr ≡ address)
    × (d.dfuse_cmd_pending ≡ 0)
    × (length d.dfu_buffer ≡ 1024)

cleared-IsFree :
    (address : ℕ) (e : DfuStatus) (d : Dfu) → Failed address e d → IsFree address (cleared d)
unfolding cleared
cleared-IsFree address e d h =
    let q : cleared d ≡ record d { context = record d.context { status = ok; state = idle } } =
      ground (arith, h.0) in
    rw q (record { state = inl refl; status = refl; pointer = h.2; pending = h.3; size = h.4 })

module _ {D : Type 0} (flash : FlashPort D) where
  flash_erase_page-refused : (a : ℕ) (d : D) → ¬ InApp a → flash_erase_page flash a d ≡ (failed, d)
  unfolding flash_erase_page
  flash_erase_page-refused a d h = rw (invalid a h) refl

  flash_write-refused :
      (a : ℕ) (bytes : List ℕ) (d : D)
      → 0 < length bytes
      → (¬ InApp a) ⊎ (¬ InApp (u32 (a + length bytes - 1)))
      → flash_write flash a bytes d ≡ (some failed, d)
  unfolding flash_write
  flash_write-refused a bytes d n (inl h) =
      let e : (length bytes == 0) ≡ false = ground arith in rw (e, invalid a h) refl
  flash_write-refused a bytes d n (inr h) =
      let e : (length bytes == 0) ≡ false = ground arith in
      elim (Bool-cases (flash_is_address_valid a)) [
        | inl b ↦ rw (e, b, invalid _ h, flash_write) refl
        | inr b ↦ rw (e, b, flash_write) refl
      ]

module _ {F : Type 0} (flash_if : FlashIf F) where
  erase_page-Failed :
      (a address : ℕ) (d : Dfu) (f : F)
      → IsLoaded dfuse_cmd_erase_page a address d
      → flash_if.flash_erase_page a f ≡ (failed, f)
      → let second = (getstatus_twice flash_if d f).1 in
        Failed address err_erase second.1 × (second.2 ≡ f)
  unfolding getstatus_twice getstatus_transition
  erase_page-Failed a address d f h e = ground (
    arith,
    h.state,
    h.status,
    h.command,
    h.has_arg,
    h.arg,
    h.pointer,
    h.size,
    ap (λ k. k.0) e,
    ap (λ k. k.1) e,
  )

  write-Failed :
      (d : Dfu) (f : F) (place : ℕ) (bytes : List ℕ) (address : ℕ)
      → d.context.state ≡ dnload_sync
      → d.dfuse_cmd_pending ≡ 0
      → 0 < d.dfu_buffer_len
      → d.context.address ≡ place
      → take d.dfu_buffer_len d.dfu_buffer ≡ bytes
      → d.dfuse_address_ptr ≡ address
      → length d.dfu_buffer ≡ 1024
      → flash_if.flash_write place bytes f ≡ (failed, f)
      → let second = (getstatus_twice flash_if d f).1 in
        Failed address err_write second.1 × (second.2 ≡ f)
  unfolding getstatus_twice getstatus_transition
  write-Failed d f place bytes address s p n a b t l e =
      let e0 : (flash_if.flash_write d.context.address (take d.dfu_buffer_len d.dfu_buffer) f).0
          ≡ failed =
        rw (a, b) (ap (λ k. k.0) e) in
      let e1 : (flash_if.flash_write d.context.address (take d.dfu_buffer_len d.dfu_buffer) f).1
          ≡ f =
        rw (a, b) (ap (λ k. k.1) e) in
      ground (arith, e0, e1)

module _ {D : Type 0} (flash : FlashPort D) where
  op-Failed :
      (o : Op) (t : Target) (d : Dfu) (f : D)
      → IsFree t.pointer d
      → Refused o t
      → let (d', f') = serve_all (flash_of flash) (op_events o) d f in
        Failed t.pointer (reason o) d' × (f' ≡ f)
  unfolding start_download
  op-Failed (point_to a) t d f h no_way = absurd no_way
  op-Failed (erase_page a) t d f h (lt, out) =
      let s = (take_packet (dfuse_cmd_erase_page ∷ le32 a) (start_download 0 5 d)).0 in
      subst (λ (k : Dfu × D). Failed t.pointer err_erase k.0 × (k.1 ≡ f))
        (sym (
          serve_command (flash_of flash) dfuse_cmd_erase_page a t.pointer d f h
          ∙ serve_twice (flash_of flash) s f))
        (erase_page-Failed (flash_of flash) a t.pointer s f
          (loaded dfuse_cmd_erase_page a t.pointer d lt h) (flash_erase_page-refused flash a f out))
  op-Failed (write_block block ps) t d f h (packets, lo, filled, most, room, out) =
      let bytes = concat ps in
      let place = block_place t block in
      let started = start_download block (length bytes) d in
      let e = take_packets-IsExtended ps (started, false) h.size (omega arith) lo in
      let at : u32 (d.dfuse_address_ptr + (block - 2) * 1024) ≡ place =
        ap (λ k. u32 (k + (block - 2) * 1024)) h.pointer ∙ omega (arith, room) in
      let last : u32 (place + length bytes - 1) ≡ place + length bytes - 1 = omega (arith, room) in
      subst (λ (k : Dfu × D). Failed t.pointer err_write k.0 × (k.1 ≡ f))
        (sym (serve_write_block (flash_of flash) block ps t.pointer d f h packets lo filled most))
        (write-Failed (flash_of flash) (take_packets ps (started, false)).0 f place bytes t.pointer
          (ap (λ c. c.state) e.context) (e.pending ∙ h.pending) (omega (arith, e.len))
          (ap (λ c. c.address) e.context ∙ ground (arith, at)) e.bytes (e.pointer ∙ h.pointer)
          (e.size ∙ h.size)
          (ap (λ (r : Option Outcome × D). (returned r.0, r.1))
            (flash_write-refused flash place bytes f filled (rw last out))))

  -- A device that meets what the host reckons with hears an operation that reaches outside the
  -- application region: an erase of a page there, or a block whose first or last byte is there. Of
  -- the rest that the bus brings meanwhile, empty packets, requests other than the DFU ones and
  -- GETSTATE make no difference.
  -- Then it is in dfuERROR, with errERASE or errWRITE, and the flash controller has not been
  -- touched. Once it has heard a CLRSTATUS too, it again meets what the host reckons with: the
  -- memory, the address pointer and the readiness for the next operation are as before.
  pub polls-refuses :
      (port : UsbPort) (o : Op) (t : Target) (rs more : List UsbRegs) (v : Device D)
      → Meets flash t v.dfu v.flash
      → Refused o t
      → telling (all_heard rs) ≡ op_events o
      → telling (all_heard more) ≡ setup clrstatus_packet ∷ []
      → let w = polls (flash_of flash) port rs v in
        let u = polls (flash_of flash) port more w in
        (w.dfu.context.state ≡ error)
        × (w.dfu.context.status ≡ reason o)
        × (w.flash ≡ v.flash)
        × Meets flash t u.dfu u.flash
  unfolding serve_all serve requested_by requested
  polls-refuses port o t rs more v m r heard cleared_heard =
      let w = polls (flash_of flash) port rs v in
      let a : view (flash_of flash) port w
          ≡ serve_all (flash_of flash) (op_events o) v.dfu v.flash =
        polls-telling (flash_of flash) port rs v (op_events o) heard in
      let k =
        subst (λ (k : Dfu × D). Failed t.pointer (reason o) k.0 × (k.1 ≡ v.flash)) (sym a)
          (op-Failed o t v.dfu v.flash m.free r) in
      let b : view (flash_of flash) port (polls (flash_of flash) port more w)
          ≡ (cleared w.dfu, w.flash) =
        polls-telling (flash_of flash) port more w (setup clrstatus_packet ∷ []) cleared_heard in
      (
        k.0.0,
        k.0.1,
        k.1,
        subst (λ (e : Dfu × D). Meets flash t e.0 e.1) (sym b)
            (record {
              free = cleared-IsFree t.pointer (reason o) w.dfu k.0;
              rested = subst (IsRested flash) (sym k.1) m.rested;
              same = λ x. ap (λ g. flash.byte g x) k.1 ∙ m.same x;
            }),
      )
