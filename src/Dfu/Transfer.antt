-- ===== src/Dfu/Transfer.antt =====
-- A data block from its DNLOAD request to the flash, on the whole device.
use nova_voyager_bootloader.Base.{
  ℕ, ◌+◌, ◌-◌, ◌*◌, ◌≤◌, ◌<◌, ◌≡◌, ◌⊎◌, refl, ap, ◌∙◌, true, false, ◌&&◌, List, [], ◌∷◌, length,
  length-append, bit_and, lt→ltb, ltb, Bool, u32, arith,
}
use nova_voyager_bootloader.Usb.Regs.{UsbRegs, UsbPort}
use nova_voyager_bootloader.Usb.Pma.{pma_read, pma_get}
use nova_voyager_bootloader.Usb.Ep0.{btable_offset, ep0_rx_offset}
use nova_voyager_bootloader.Flash.Interface.{FlashIf, done, failed}
use nova_voyager_bootloader.Dfu.State.{
  in_state, DfuStatus, idle, dnload_sync, dnbusy, dnload_idle, error, err_write, Dfu, Device,
}
use nova_voyager_bootloader.Dfu.Status.{handle_dfu_getstatus}
use nova_voyager_bootloader.Dfu.Requests.{start_download, handle_dfu_dnload}
use nova_voyager_bootloader.Dfu.Dispatch.{take_packet, handle_ep0_out}
use nova_voyager_bootloader.Dfu.Download.{
  take_packets, concat, take_packet-IsExtended, getstatus_twice, Writes, dnload-start,
  filled-Writes,
}

-- The peripheral after the hardware has received a packet: COUNT_RX and the receive buffer hold it.
abbrev pub IsDelivered : List ℕ → UsbRegs → Type 0
IsDelivered packet r =
    (bit_and (pma_get (btable_offset + 6) r.pma) 0x3FF ≡ length packet)
    × (pma_read ep0_rx_offset (length packet) r.pma ≡ packet)

-- A data stage: each packet with the peripheral as the hardware leaves it.
abbrev pub AllDelivered : List (List ℕ × UsbRegs) → Type 0
AllDelivered [] = Unit
AllDelivered ((p, r) ∷ ps) = IsDelivered p r × (0 < length p) × AllDelivered ps

abbrev pub payloads : List (List ℕ × UsbRegs) → List (List ℕ)
payloads [] = []
payloads ((p, r) ∷ ps) = p ∷ payloads ps

-- In download-idle for the next block, with the address pointer at `pointer`.
abbrev pub IsReady : ℕ → Dfu → Type 0
IsReady pointer d =
    (d.context.state ≡ dnload_idle)
    × (d.dfuse_address_ptr ≡ pointer)
    × (d.dfuse_cmd_pending ≡ 0)
    × (length d.dfu_buffer ≡ 1024)

module _ {F : Type 0} (flash_if : FlashIf F) (port : UsbPort) where
  -- The device takes the packets one by one.
  pub receive_all : List (List ℕ × UsbRegs) → Device F → Device F
  receive_all [] v = v
  receive_all ((p, r) ∷ ps) v =
      receive_all ps (handle_ep0_out flash_if port (record v { ep0 = record v.ep0 { usb = r } }))

  pub out-dfu :
      (packet : List ℕ) (r : UsbRegs) (v : Device F)
      → IsDelivered packet r
      → 0 < length packet
      → v.dfu.context.state ≡ dnload_sync
      → let w = handle_ep0_out flash_if port (record v { ep0 = record v.ep0 { usb = r } }) in
        (w.dfu ≡ (take_packet packet v.dfu).0) × (w.flash ≡ v.flash)
  unfolding handle_ep0_out
  out-dfu packet r v h n s = rw (accepted, h.0, h.1, handle_ep0_out) (refl, refl)
    where
      accepted :
          (in_state v.dfu.context.state dnload_sync
            && ltb 0 (bit_and (pma_get (btable_offset + 6) r.pma) 0x3FF))
          ≡ true
      accepted = rw (s, h.0, lt→ltb 0 (length packet) n)

  -- The data stage of a data block, through the handlers.
  pub receive_all_lem :
      (ps : List (List ℕ × UsbRegs)) (v : Device F) (acked : Bool)
      → AllDelivered ps
      → v.dfu.context.state ≡ dnload_sync
      → length v.dfu.dfu_buffer ≡ 1024
      → v.dfu.dfu_buffer_len + length (concat (payloads ps)) ≤ 1024
      → 2 ≤ v.dfu.context.block_num
      → ((receive_all ps v).dfu ≡ (take_packets (payloads ps) (v.dfu, acked)).0)
        × ((receive_all ps v).flash ≡ v.flash)
  unfolding receive_all take_packets
  receive_all_lem [] v acked h s size fits block = (refl, refl)
  receive_all_lem ((p, r) ∷ ps) v acked (h, n, hs) s size fits block =
      let o = out-dfu p r v h n s in
      let total = length-append {0} p (concat (payloads ps)) in
      let e = (take_packet-IsExtended p v.dfu size (omega (arith, total)) block).0 in
      let flag = (take_packet p v.dfu).1 in
      let ih =
        receive_all_lem ps
          (handle_ep0_out flash_if port (record v { ep0 = record v.ep0 { usb = r } })) flag hs
          (ap (λ d. d.context.state) o.0 ∙ ap (λ c. c.state) e.context ∙ s)
          (ap (λ d. length d.dfu_buffer) o.0 ∙ e.size ∙ size)
          (omega (arith, total, ap (λ d. d.dfu_buffer_len) o.0, e.len))
          (omega (arith, ap (λ d. d.context.block_num) o.0, ap (λ c. c.block_num) e.context)) in
      (ih.0 ∙ ap (λ d. (take_packets (payloads ps) (d, flag)).0) o.0, ih.1 ∙ o.1)

  -- Two status requests on a device with variables `d` and flash `f`.
  pub statuses :
      (w : Device F) (d : Dfu) (f : F) (address : ℕ) (bytes : List ℕ) (status : DfuStatus)
      (pointer : ℕ)
      → w.dfu ≡ d
      → w.flash ≡ f
      → Writes flash_if address bytes status pointer f (getstatus_twice flash_if d f)
      → let busy = handle_dfu_getstatus flash_if port w in
        let end = handle_dfu_getstatus flash_if port busy in
        let (r, f') = flash_if.flash_write address bytes f in
        (busy.dfu.context.state ≡ dnbusy)
        × (busy.flash ≡ f)
        × (end.flash ≡ f')
        × (r ≡ done → IsReady pointer end.dfu)
        × (r ≡ failed → (end.dfu.context.state ≡ error) × (end.dfu.context.status ≡ err_write))
  unfolding handle_dfu_getstatus getstatus_twice
  statuses w d f address bytes status pointer e q h =
      rw (e, q) (h.1, h.2, h.4, λ k. ((h.5 k).0, (h.5 k).3, (h.5 k).4, (h.5 k).5), h.6)

  -- A data block of 1 to 1024 bytes, numbered 2 or more, whose packets, none of them empty, the
  -- hardware delivers one by one to an idle or download-idle device with no command pending and a
  -- buffer of 1024 bytes. The first status request after it enters dfuDNBUSY and does not touch
  -- the flash. The second writes exactly the bytes sent, at the address pointer plus 1024 for each
  -- block above 2. If the write is done, the state is dfuDNLOAD-IDLE, the pointer stays, no
  -- command is pending, and the buffer keeps its size, as the next block needs it; if it fails, it
  -- is dfuERROR with errWRITE.
  pub download_block :
      (v : Device F) (block : ℕ) (ps : List (List ℕ × UsbRegs))
      → AllDelivered ps
      → length v.dfu.dfu_buffer ≡ 1024
      → (v.dfu.context.state ≡ idle) ⊎ (v.dfu.context.state ≡ dnload_idle)
      → v.dfu.dfuse_cmd_pending ≡ 0
      → 2 ≤ block
      → 0 < length (concat (payloads ps))
      → length (concat (payloads ps)) ≤ 1024
      → let bytes = concat (payloads ps) in
        let pointer = v.dfu.dfuse_address_ptr in
        let filled = receive_all ps (handle_dfu_dnload flash_if port block (length bytes) v) in
        let busy = handle_dfu_getstatus flash_if port filled in
        let end = handle_dfu_getstatus flash_if port busy in
        let (r, f) = flash_if.flash_write (u32 (pointer + (block - 2) * 1024)) bytes v.flash in
        (busy.dfu.context.state ≡ dnbusy)
        × (busy.flash ≡ v.flash)
        × (end.flash ≡ f)
        × (r ≡ done → IsReady pointer end.dfu)
        × (r ≡ failed → (end.dfu.context.state ≡ error) × (end.dfu.context.status ≡ err_write))
  unfolding start_download
  download_block v block ps h size s p b lo hi =
      let started = handle_dfu_dnload flash_if port block (length (concat (payloads ps))) v in
      let q = dnload-start flash_if port block (length (concat (payloads ps))) v s b lo hi in
      let r =
        receive_all_lem ps started false h (ap (λ d. d.context.state) q.0)
          (ap (λ d. length d.dfu_buffer) q.0 ∙ size) (omega (arith, ap (λ d. d.dfu_buffer_len) q.0))
          (omega (arith, ap (λ d. d.context.block_num) q.0)) in
      statuses (receive_all ps started) _ v.flash _ _ _ _
        (r.0 ∙ ap (λ d. (take_packets (payloads ps) (d, false)).0) q.0) (r.1 ∙ q.1)
        (filled-Writes flash_if v.dfu v.flash block (payloads ps) size p b lo hi).1
