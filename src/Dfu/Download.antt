-- ===== src/Dfu/Download.antt =====
-- The variables through a data block: the packets of its data stage, and the two status requests
-- after it.
use nova_voyager_bootloader.Base.{
  ℕ, ◌+◌, ◌-◌, ◌*◌, ◌≤◌, ◌<◌, ◌≡◌, ◌⊎◌, refl, sym, ap, ◌∙◌, Bool, true, false, List, [], ◌∷◌, ◌++◌,
  length, length-append, take, take-splice, length-splice, leb, append-nil, append_assoc, u32,
  arith,
}
use nova_voyager_bootloader.Usb.Regs.{UsbPort}
use nova_voyager_bootloader.Flash.Interface.{FlashIf, done, failed}
use nova_voyager_bootloader.Dfu.State.{
  DfuStatus, idle, dnload_sync, dnbusy, dnload_idle, error, err_write, Dfu, Device,
}
use nova_voyager_bootloader.Dfu.Status.{getstatus_transition}
use nova_voyager_bootloader.Dfu.Requests.{start_download, handle_dfu_dnload}
use nova_voyager_bootloader.Dfu.Dispatch.{take_packet}

-- The data stage: each packet in turn, with whether the last one completed the transfer.
unfoldable pub take_packets : List (List ℕ) → Dfu × Bool → Dfu × Bool
take_packets [] r = r
take_packets (p ∷ ps) r = take_packets ps (take_packet p r.0)

abbrev pub concat : List (List ℕ) → List ℕ
concat [] = []
concat (p ∷ ps) = p ++ concat ps

-- Within a data block a packet only extends the buffer.
pub record IsExtended (d : Dfu) (packet : List ℕ) (r : Dfu × Bool) : Type 0 where
  pub context : r.0.context ≡ d.context
  pub bytes : take r.0.dfu_buffer_len r.0.dfu_buffer ≡ take d.dfu_buffer_len d.dfu_buffer ++ packet
  pub len : r.0.dfu_buffer_len ≡ d.dfu_buffer_len + length packet
  pub size : length r.0.dfu_buffer ≡ length d.dfu_buffer
  pub pending : r.0.dfuse_cmd_pending ≡ d.dfuse_cmd_pending
  pub has_arg : r.0.dfuse_cmd_has_arg ≡ d.dfuse_cmd_has_arg
  pub arg : r.0.dfuse_cmd_arg ≡ d.dfuse_cmd_arg
  pub pointer : r.0.dfuse_address_ptr ≡ d.dfuse_address_ptr

pub take_packet-IsExtended :
    (packet : List ℕ) (d : Dfu)
    → length d.dfu_buffer ≡ 1024
    → d.dfu_buffer_len + length packet ≤ 1024
    → 2 ≤ d.context.block_num
    → IsExtended d packet (take_packet packet d)
      × ((take_packet packet d).1 ≡ leb d.context.xfer_len (d.dfu_buffer_len + length packet))
unfolding take_packet
take_packet-IsExtended packet d size fits block = ground (
  arith,
  take-splice d.dfu_buffer d.dfu_buffer_len packet,
  length-splice d.dfu_buffer d.dfu_buffer_len packet,
)

-- A data stage that delivers exactly the bytes announced leaves them at the front of the buffer,
-- and its last packet completes the transfer.
pub take_packets-IsExtended :
    (ps : List (List ℕ)) (r : Dfu × Bool)
    → length r.0.dfu_buffer ≡ 1024
    → r.0.dfu_buffer_len + length (concat ps) ≤ 1024
    → 2 ≤ r.0.context.block_num
    → IsExtended r.0 (concat ps) (take_packets ps r)
unfolding take_packets
take_packets-IsExtended [] r size fits block = record {
  context = refl;
  bytes = sym (append-nil _);
  len = omega arith;
  size = refl;
  pending = refl;
  has_arg = refl;
  arg = refl;
  pointer = refl;
}
take_packets-IsExtended (p ∷ ps) r size fits block =
    let e =
      (take_packet-IsExtended p r.0 size (omega (arith, length-append {0} p (concat ps)))
        block).0 in
    let ih =
      take_packets-IsExtended ps (take_packet p r.0) (e.size ∙ size)
        (omega (arith, length-append {0} p (concat ps), e.len)) (rw e.context block) in
    record {
      context = ih.context ∙ e.context;
      bytes =
          ih.bytes
          ∙ ap (λ l. l ++ concat ps) e.bytes
          ∙ append_assoc (take r.0.dfu_buffer_len r.0.dfu_buffer) p (concat ps);
      len = omega (arith, ih.len, e.len, length-append {0} p (concat ps));
      size = ih.size ∙ e.size;
      pending = ih.pending ∙ e.pending;
      has_arg = ih.has_arg ∙ e.has_arg;
      arg = ih.arg ∙ e.arg;
      pointer = ih.pointer ∙ e.pointer;
    }

nonempty : (ps : List (List ℕ)) → 0 < length (concat ps) → 0 < length ps
nonempty [] h = absurd (omega arith)
nonempty (p ∷ ps) h = omega arith

-- The flag of the last packet tells whether the announced length is reached.
take_packets_last :
    (ps : List (List ℕ)) (r : Dfu × Bool)
    → length r.0.dfu_buffer ≡ 1024
    → r.0.dfu_buffer_len + length (concat ps) ≤ 1024
    → 2 ≤ r.0.context.block_num
    → 0 < length ps
    → r.0.context.xfer_len ≤ r.0.dfu_buffer_len + length (concat ps)
    → (take_packets ps r).1 ≡ true
unfolding take_packets
take_packets_last [] r size fits block some full = absurd (omega arith)
take_packets_last (p ∷ []) r size fits block some full =
    (take_packet-IsExtended p r.0 size (omega (arith, length-append {0} p [])) block).1
    ∙ ground (arith, length-append {0} p [])
take_packets_last (p ∷ q ∷ ps) r size fits block some full =
    let e =
      (take_packet-IsExtended p r.0 size (omega (arith, length-append {0} p (concat (q ∷ ps))))
        block).0 in
    take_packets_last (q ∷ ps) (take_packet p r.0) (e.size ∙ size)
      (omega (arith, length-append {0} p (concat (q ∷ ps)), e.len)) (rw e.context block)
      (omega arith)
      (omega (arith, length-append {0} p (concat (q ∷ ps)), e.len, ap (λ c. c.xfer_len) e.context))

module _ {F : Type 0} (flash_if : FlashIf F) where
  -- Two status requests, one after the other.
  unfoldable pub getstatus_twice : Dfu → F → (ℕ × Dfu × F) × (ℕ × Dfu × F)
  getstatus_twice d f =
      let first = getstatus_transition flash_if d.context.state d f in
      (first, getstatus_transition flash_if first.1.context.state first.1 first.2)

  -- The first status request reports dfuDNBUSY and leaves the flash `f`; the second writes `bytes`
  -- at `address`, and reports the outcome.
  abbrev pub Writes : ℕ → List ℕ → DfuStatus → ℕ → F → (ℕ × Dfu × F) × (ℕ × Dfu × F) → Type 0
  Writes address bytes status pointer f (first, second) =
      let (r, f') = flash_if.flash_write address bytes f in
      (first.0 ≡ 100)
      × (first.1.context.state ≡ dnbusy)
      × (first.2 ≡ f)
      × (second.0 ≡ 0)
      × (second.2 ≡ f')
      × (r ≡ done
          → (second.1.context.state ≡ dnload_idle)
            × (second.1.context.status ≡ status)
            × (second.1.dfu_buffer_len ≡ 0)
            × (second.1.dfuse_address_ptr ≡ pointer)
            × (second.1.dfuse_cmd_pending ≡ 0)
            × (length second.1.dfu_buffer ≡ 1024))
      × (r ≡ failed → (second.1.context.state ≡ error) × (second.1.context.status ≡ err_write))

  pub getstatus_twice_write :
      (d : Dfu) (f : F) (address : ℕ) (bytes : List ℕ) (status : DfuStatus) (pointer : ℕ)
      → d.context.state ≡ dnload_sync
      → d.dfuse_cmd_pending ≡ 0
      → 0 < d.dfu_buffer_len
      → d.context.address ≡ address
      → take d.dfu_buffer_len d.dfu_buffer ≡ bytes
      → d.context.status ≡ status
      → d.dfuse_address_ptr ≡ pointer
      → length d.dfu_buffer ≡ 1024
      → Writes address bytes status pointer f (getstatus_twice d f)
  unfolding getstatus_twice getstatus_transition
  getstatus_twice_write d f address bytes status pointer s p n a b t q l =
      rw (← a, ← b) (ground arith)

  -- The start of a data block in an accepting state.
  pub dnload-start :
      (port : UsbPort) (block len : ℕ) (v : Device F)
      → (v.dfu.context.state ≡ idle) ⊎ (v.dfu.context.state ≡ dnload_idle)
      → 2 ≤ block
      → 0 < len
      → len ≤ 1024
      → let w = handle_dfu_dnload flash_if port block len v in
        (w.dfu ≡ start_download block len v.dfu) × (w.flash ≡ v.flash)
  unfolding handle_dfu_dnload
  dnload-start port block len v s b lo hi = ground arith

  -- The data stage and two status requests, after an accepted request.
  pub filled-Writes :
      (d : Dfu) (f : F) (block : ℕ) (ps : List (List ℕ))
      → length d.dfu_buffer ≡ 1024
      → d.dfuse_cmd_pending ≡ 0
      → 2 ≤ block
      → 0 < length (concat ps)
      → length (concat ps) ≤ 1024
      → let (filled, acked) =
          take_packets ps (start_download block (length (concat ps)) d, false) in
        (acked ≡ true)
        × Writes
            (u32 (d.dfuse_address_ptr + (block - 2) * 1024))
            (concat ps)
            d.context.status
            d.dfuse_address_ptr
            f
            (getstatus_twice filled f)
  unfolding start_download
  filled-Writes d f block ps size p b lo hi =
      let started = start_download block (length (concat ps)) d in
      let e = take_packets-IsExtended ps (started, false) size (omega arith) b in
      (
        take_packets_last ps (started, false) size (omega arith) b (nonempty ps lo) (omega arith),
        getstatus_twice_write (take_packets ps (started, false)).0 f _ _ _ _
            (ap (λ c. c.state) e.context) (e.pending ∙ p) (omega (arith, e.len))
            (ap (λ c. c.address) e.context ∙ ground arith) e.bytes (ap (λ c. c.status) e.context)
            e.pointer (e.size ∙ size),
      )
