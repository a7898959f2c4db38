-- ===== src/Dfu/Stale.antt =====
-- A DfuSe command that is decoded, but not yet executed, outlives an error of
-- handle_dfu_dnload and handle_dfu_clrstatus.
use nova_voyager_bootloader.Base.{ℕ, ◌≤◌, ◌<◌, ◌≡◌, inl, ap, ◌∙◌, true, false, List, length, arith}
use nova_voyager_bootloader.Usb.Regs.{UsbRegs, UsbPort}
use nova_voyager_bootloader.Flash.Interface.{FlashIf}
use nova_voyager_bootloader.Dfu.State.{idle, Device}
use nova_voyager_bootloader.Dfu.Status.{handle_dfu_getstatus}
use nova_voyager_bootloader.Dfu.Requests.{start_download, handle_dfu_dnload, handle_dfu_clrstatus}
use nova_voyager_bootloader.Dfu.Download.{
  concat, take_packets, take_packets-IsExtended, dnload-start,
}
use nova_voyager_bootloader.Dfu.Transfer.{AllDelivered, payloads, receive_all, receive_all_lem}
use nova_voyager_bootloader.Dfu.Commands.{Commanded, commanded, statuses}

module _ {F : Type 0} (flash_if : FlashIf F) (port : UsbPort) where
  -- A request that is too long, and the CLRSTATUS after it.
  abbrev pub cleared : ℕ → ℕ → Device F → Device F
  cleared block long v =
      handle_dfu_clrstatus flash_if port (handle_dfu_dnload flash_if port block long v)

  cleared_lem :
      (block long : ℕ) (v : Device F)
      → 1024 < long
      → let w = cleared block long v in
        (w.dfu.context.state ≡ idle)
        × (w.dfu.dfuse_cmd_pending ≡ v.dfu.dfuse_cmd_pending)
        × (w.dfu.dfuse_cmd_has_arg ≡ v.dfu.dfuse_cmd_has_arg)
        × (w.dfu.dfuse_cmd_arg ≡ v.dfu.dfuse_cmd_arg)
        × (w.dfu.dfuse_address_ptr ≡ v.dfu.dfuse_address_ptr)
        × (w.dfu.dfu_buffer ≡ v.dfu.dfu_buffer)
        × (w.flash ≡ v.flash)
  unfolding handle_dfu_clrstatus handle_dfu_dnload
  cleared_lem block long v h = ground arith

  -- A data block while the command `c` is pending.
  pending_block :
      (v : Device F) (c arg pointer block : ℕ) (f : F) (ps : List (List ℕ × UsbRegs))
      → AllDelivered ps
      → length v.dfu.dfu_buffer ≡ 1024
      → v.dfu.context.state ≡ idle
      → v.dfu.dfuse_cmd_pending ≡ c
      → 0 < c
      → v.dfu.dfuse_cmd_has_arg ≡ true
      → v.dfu.dfuse_cmd_arg ≡ arg
      → v.dfu.dfuse_address_ptr ≡ pointer
      → v.flash ≡ f
      → 2 ≤ block
      → 0 < length (concat (payloads ps))
      → length (concat (payloads ps)) ≤ 1024
      → let bytes = concat (payloads ps) in
        let filled =
          receive_all flash_if port ps (handle_dfu_dnload flash_if port block (length bytes) v) in
        let end = handle_dfu_getstatus flash_if port (handle_dfu_getstatus flash_if port filled) in
        Commanded flash_if c arg pointer f end.dfu end.flash
  unfolding start_download
  pending_block v c arg pointer block f ps h size s p n a g t k b lo hi =
      let bytes = concat (payloads ps) in
      let started = handle_dfu_dnload flash_if port block (length bytes) v in
      let begun = start_download block (length bytes) v.dfu in
      let q = dnload-start flash_if port block (length bytes) v (inl s) b lo hi in
      let r =
        receive_all_lem flash_if port ps started false h (ap (λ d. d.context.state) q.0)
          (ap (λ d. length d.dfu_buffer) q.0 ∙ size) (omega (arith, ap (λ d. d.dfu_buffer_len) q.0))
          (omega (arith, ap (λ d. d.context.block_num) q.0)) in
      let e = take_packets-IsExtended (payloads ps) (begun, false) size (omega arith) b in
      (statuses flash_if port (receive_all flash_if port ps started)
        (take_packets (payloads ps) (begun, false)).0 f c arg pointer
        (r.0 ∙ ap (λ d. (take_packets (payloads ps) (d, false)).0) q.0) (r.1 ∙ q.1 ∙ k)
        (commanded flash_if c arg pointer _ f n (ap (λ x. x.state) e.context) (e.pending ∙ p)
          (e.has_arg ∙ a) (e.arg ∙ g) (e.pointer ∙ t))).2

  -- The buffer has 1024 bytes, and a command with an operand is pending when a DNLOAD of more than
  -- 1024 bytes, in any state, puts the device into dfuERROR. CLRSTATUS, and then a data block of 1
  -- to 1024 bytes with two status requests, execute the command instead of writing the block: 0x41
  -- erases the page that the operand names, 0x21 sets the address pointer, and any other command
  -- is errVENDOR.
  pub stale_command :
      (v : Device F) (c any long block : ℕ) (ps : List (List ℕ × UsbRegs))
      → AllDelivered ps
      → length v.dfu.dfu_buffer ≡ 1024
      → v.dfu.dfuse_cmd_pending ≡ c
      → 0 < c
      → v.dfu.dfuse_cmd_has_arg ≡ true
      → 1024 < long
      → 2 ≤ block
      → 0 < length (concat (payloads ps))
      → length (concat (payloads ps)) ≤ 1024
      → let bytes = concat (payloads ps) in
        let w = cleared any long v in
        let filled =
          receive_all flash_if port ps (handle_dfu_dnload flash_if port block (length bytes) w) in
        let end = handle_dfu_getstatus flash_if port (handle_dfu_getstatus flash_if port filled) in
        Commanded flash_if c v.dfu.dfuse_cmd_arg v.dfu.dfuse_address_ptr v.flash end.dfu end.flash
  stale_command v c any long block ps h size p n a o b lo hi =
      let e = cleared_lem any long v o in
      pending_block (cleared any long v) c _ _ block v.flash ps h (ap length e.5 ∙ size) e.0
        (e.1 ∙ p) n (e.2 ∙ a) e.3 e.4 e.6 b lo hi
