-- ===== src/Dfu/Commands.antt =====
-- DfuSe commands: block 0 from its packet to its effect.
use nova_voyager_bootloader.Base.{
  ℕ, ◌+◌, ◌*◌, ◌^◌, ◌<◌, ◌≡◌, ◌≢◌, refl, ap, ◌∙◌, true, List, [], ◌∷◌, length, get_or, splice,
  get_or-splice, arith,
}
use nova_voyager_bootloader.Usb.Regs.{UsbRegs, UsbPort}
use nova_voyager_bootloader.Flash.Interface.{FlashIf, done, failed}
use nova_voyager_bootloader.Dfu.State.{
  dnload_sync, dnbusy, dnload_idle, error, err_erase, err_vendor, Dfu, Device,
}
use nova_voyager_bootloader.Dfu.Status.{getstatus_transition, handle_dfu_getstatus}
use nova_voyager_bootloader.Dfu.Dispatch.{command_arg, take_packet, handle_ep0_out}
use nova_voyager_bootloader.Dfu.Download.{getstatus_twice}
use nova_voyager_bootloader.Dfu.Transfer.{IsDelivered, out-dfu}

-- The device waits for the first packet of block 0, of which `len` bytes are announced.
pub record AwaitsCommand (len : ℕ) (d : Dfu) : Type 0 where
  pub size : length d.dfu_buffer ≡ 1024
  pub state : d.context.state ≡ dnload_sync
  pub block : d.context.block_num ≡ 0
  pub announced : d.context.xfer_len ≡ len
  pub empty : d.dfu_buffer_len ≡ 0

-- What the command `c` with the operand `arg` does to the variables, to the address pointer and to
-- the flash `f`: 0x21 sets the pointer, 0x41 erases a page, and any other command is an error.
abbrev pub Commanded : {F : Type 0} → FlashIf F → ℕ → ℕ → ℕ → F → Dfu → F → Type 0
Commanded flash_if c arg pointer f d f' =
    let (r, erased) = flash_if.flash_erase_page arg f in
    (c ≡ 0x21 → (d.context.state ≡ dnload_idle) × (d.dfuse_address_ptr ≡ arg) × (f' ≡ f))
    × (c ≡ 0x41
        → (d.dfuse_address_ptr ≡ pointer)
          × (f' ≡ erased)
          × (r ≡ done → d.context.state ≡ dnload_idle)
          × (r ≡ failed → (d.context.state ≡ error) × (d.context.status ≡ err_erase)))
    × (c ≢ 0x21
        → c ≢ 0x41
        → (d.context.state ≡ error)
          × (d.context.status ≡ err_vendor)
          × (d.dfuse_address_ptr ≡ pointer)
          × (f' ≡ f))

-- A command with its operand is decoded from its packet.
pub decoded :
    (packet : List ℕ) (d : Dfu)
    → length packet ≡ 5
    → AwaitsCommand 5 d
    → let e = (take_packet packet d).0 in
      (e.context ≡ d.context)
      × (e.dfuse_cmd_pending ≡ get_or packet 0 0)
      × (e.dfuse_cmd_has_arg ≡ true)
      × (e.dfuse_cmd_arg ≡ command_arg packet)
      × (e.dfuse_address_ptr ≡ d.dfuse_address_ptr)
      × (e.dfu_buffer_len ≡ 0)
unfolding take_packet
decoded packet d n w =
    let at : (j : ℕ) → j < 5 → get_or (splice d.dfu_buffer 0 packet) j 0 ≡ get_or packet j 0 =
      λ j h.
        ap (λ k. get_or (splice d.dfu_buffer 0 packet) k 0) {x = j} {y = 0 + j} (omega arith)
        ∙ get_or-splice d.dfu_buffer 0 packet j 0 (omega (arith, w.size)) (omega arith) in
    rw w.empty (
      ground (
        arith,
        w.announced,
        w.block,
        at 0 (omega arith),
        at 1 (omega arith),
        at 2 (omega arith),
        at 3 (omega arith),
        at 4 (omega arith),
      ))

module _ {F : Type 0} (flash_if : FlashIf F) where
  -- Two status requests with the command `c` pending.
  pub commanded :
      (c arg pointer : ℕ) (d : Dfu) (f : F)
      → 0 < c
      → d.context.state ≡ dnload_sync
      → d.dfuse_cmd_pending ≡ c
      → d.dfuse_cmd_has_arg ≡ true
      → d.dfuse_cmd_arg ≡ arg
      → d.dfuse_address_ptr ≡ pointer
      → let (first, second) = getstatus_twice flash_if d f in
        (first.1.context.state ≡ dnbusy)
        × (first.2 ≡ f)
        × Commanded flash_if c arg pointer f second.1 second.2
  unfolding getstatus_twice getstatus_transition
  commanded c arg pointer d f n s p a q r = rw (← q, ← r) (ground arith)

  module _ (port : UsbPort) where
    pub statuses :
        (w : Device F) (d : Dfu) (f : F) (c arg pointer : ℕ)
        → w.dfu ≡ d
        → w.flash ≡ f
        → (let (first, second) = getstatus_twice flash_if d f in
            (first.1.context.state ≡ dnbusy)
            × (first.2 ≡ f)
            × Commanded flash_if c arg pointer f second.1 second.2)
        → let busy = handle_dfu_getstatus flash_if port w in
          let end = handle_dfu_getstatus flash_if port busy in
          (busy.dfu.context.state ≡ dnbusy)
          × (busy.flash ≡ f)
          × Commanded flash_if c arg pointer f end.dfu end.flash
    unfolding handle_dfu_getstatus getstatus_twice
    statuses w d f c arg pointer e q h = rw (e, q) h

    -- The packet c a0 a1 a2 a3 of block 0, with c not 0 and all of what is announced, arrives on a
    -- device that waits for it, and two status requests follow. The first enters dfuDNBUSY and
    -- does not touch the flash. With the second, command 0x21 sets the address pointer to the
    -- little-endian word a0 a1 a2 a3; command 0x41 erases the page at that word, keeps the
    -- pointer, and reports errERASE if the erase fails; any other command is errVENDOR and changes
    -- neither the pointer nor the flash.
    pub command_block :
        (c a0 a1 a2 a3 : ℕ) (r : UsbRegs) (v : Device F)
        → AwaitsCommand 5 v.dfu
        → IsDelivered (c ∷ a0 ∷ a1 ∷ a2 ∷ a3 ∷ []) r
        → 0 < c
        → let filled = handle_ep0_out flash_if port (record v { ep0 = record v.ep0 { usb = r } }) in
          let busy = handle_dfu_getstatus flash_if port filled in
          let end = handle_dfu_getstatus flash_if port busy in
          let arg = a0 + a1 * 2 ^ 8 + a2 * 2 ^ 16 + a3 * 2 ^ 24 in
          (busy.dfu.context.state ≡ dnbusy)
          × (busy.flash ≡ v.flash)
          × Commanded flash_if c arg v.dfu.dfuse_address_ptr v.flash end.dfu end.flash
    command_block c a0 a1 a2 a3 r v w h n =
        let packet = c ∷ a0 ∷ a1 ∷ a2 ∷ a3 ∷ [] in
        let o = out-dfu flash_if port packet r v h (omega arith) w.state in
        let e = decoded packet v.dfu refl w in
        statuses _ (take_packet packet v.dfu).0 v.flash c _ _ o.0 o.1 (
          commanded c _ _ (take_packet packet v.dfu).0 v.flash n (ap (λ k. k.state) e.0 ∙ w.state)
            e.1 e.2 e.3 e.4)
