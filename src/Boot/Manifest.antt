-- ===== src/Boot/Manifest.antt =====
-- The end of a download, from the DNLOAD of no bytes to the reset: src/usb_dfu.c under the loop of
-- run_dfu_mode in src/main.c.
use nova_voyager_bootloader.Base.{
  Bool-cases, inl, inr, ℕ, ◌-◌, ◌≤◌, ◌≡◌, refl, sym, ap, ◌∙◌, Bool, true, false, List, [], ◌∷◌,
  ◌++◌, length, has_bits, bit_and, ◌==◌, arith,
}
use mathlib.Core.Path.{subst}
use nova_voyager_bootloader.Usb.Regs.{
  UsbRegs, UsbPort, usb_ep_ctr_rx, usb_ep_ctr_tx, usb_ep_setup, usb_istr_ctr, usb_istr_reset,
  usb_istr_ep_id,
}
use nova_voyager_bootloader.Usb.Pma.{pma_read}
use nova_voyager_bootloader.Usb.Ep0.{ep0_rx_offset}
use nova_voyager_bootloader.Flash.Interface.{FlashIf}
use nova_voyager_bootloader.Dfu.State.{
  dnload_idle, manifest_sync, manifest_wait_reset, Dfu, Device, enter,
}
use nova_voyager_bootloader.Dfu.Status.{handle_dfu_getstatus, getstatus_transition}
use nova_voyager_bootloader.Dfu.Requests.{handle_dfu_dnload}
use nova_voyager_bootloader.Dfu.Dispatch.{
  SetupPacket, to_setup, class_request, typed_request, handle_request, handle_setup, serve_rx,
  serve_tx, serve_ep0, poll_by, usb_poll,
}
use nova_voyager_bootloader.Dfu.Host.{dnload_packet, getstatus_packet}
use nova_voyager_bootloader.Dfu.Bus.{heard, telling}
use nova_voyager_bootloader.Dfu.Bus.Refinement.{view, polls, round-quiet}
use nova_voyager_bootloader.Boot.Loop.{
  Run, was_reset, running, round, is_waiting, count_down, dfu_loop, StaysWaiting, NeverWaiting,
  Resets, dfu_loop-Resets,
}

-- The SETUP packet of a DNLOAD of no bytes.
abbrev pub finish_packet : ℕ → SetupPacket
finish_packet block = dnload_packet block 0

-- The peripheral has received a SETUP packet, and there was no bus reset.
abbrev pub HasSetup : SetupPacket → UsbRegs → Type 0
HasSetup p r =
    (has_bits r.istr usb_istr_reset ≡ false)
    × (has_bits r.istr usb_istr_ctr ≡ true)
    × ((bit_and r.istr usb_istr_ep_id == 0) ≡ true)
    × (has_bits r.ep0r usb_ep_ctr_rx ≡ true)
    × (has_bits r.ep0r usb_ep_setup ≡ true)
    × (to_setup (pma_read ep0_rx_offset 8 r.pma) ≡ p)

-- In no round does anything that matters reach the DFU half.
abbrev pub AllQuiet : List UsbRegs → Type 0
AllQuiet [] = Unit
AllQuiet (r ∷ rs) = (telling (heard r) ≡ []) × AllQuiet rs

module _ {F : Type 0} (flash_if : FlashIf F) (port : UsbPort) where
  abbrev with_usb : UsbRegs → Device F → Device F
  with_usb r v = record v { ep0 = record v.ep0 { usb = r } }

  tx-same :
      (b : Bool) (v : Device F)
      → ((serve_tx flash_if port b v).dfu ≡ v.dfu) × ((serve_tx flash_if port b v).flash ≡ v.flash)
  unfolding serve_tx
  tx-same true v = (refl, refl)
  tx-same false v = (refl, refl)

  round-setup :
      (p : SetupPacket) (r : UsbRegs) (v : Device F)
      → HasSetup p r
      → let w = handle_request flash_if port p (with_usb r v) in
        ((round flash_if port r v).dfu ≡ w.dfu) × ((round flash_if port r v).flash ≡ w.flash)
  unfolding usb_poll poll_by serve_ep0 serve_rx handle_setup
  round-setup p r v h =
      rw (h.0, h.1, h.2, h.3, h.4, h.5)
        (tx-same (has_bits r.ep0r usb_ep_ctr_tx) (handle_request flash_if port p (with_usb r v)))

  -- Quiet rounds keep the variables and the flash.
  polls-quiet :
      (rs : List UsbRegs) (v : Device F)
      → AllQuiet rs
      → view flash_if port (polls flash_if port rs v) ≡ view flash_if port v
  unfolding polls
  polls-quiet [] v h = refl
  polls-quiet (r ∷ rs) v h =
      polls-quiet rs (round flash_if port r v) h.1 ∙ round-quiet flash_if port r v h.0

  quiet-state :
      (r : UsbRegs) (v : Device F)
      → telling (heard r) ≡ []
      → (round flash_if port r v).dfu.context.state ≡ v.dfu.context.state
  quiet-state r v h = ap (λ (k : Dfu × F). k.0.context.state) (round-quiet flash_if port r v h)

  quiet-StaysWaiting :
      (rs : List UsbRegs) (v : Device F)
      → AllQuiet rs
      → v.dfu.context.state ≡ manifest_wait_reset
      → StaysWaiting flash_if port rs v
  quiet-StaysWaiting [] v h s = tt
  quiet-StaysWaiting (r ∷ rs) v h s =
      let e = quiet-state r v h.0 ∙ s in
      (rw e refl, quiet-StaysWaiting rs (round flash_if port r v) h.1 e)

  quiet-NeverWaiting :
      (rs : List UsbRegs) (v : Device F)
      → AllQuiet rs
      → v.dfu.context.state ≡ manifest_sync
      → NeverWaiting flash_if port rs v
  quiet-NeverWaiting [] v h s = tt
  quiet-NeverWaiting (r ∷ rs) v h s =
      let e = quiet-state r v h.0 ∙ s in
      (rw e refl, quiet-NeverWaiting rs (round flash_if port r v) h.1 e)

  -- Rounds in which the device does not wait for its reset come before the rest.
  pub dfu_loop-append :
      (rs more : List UsbRegs) (v : Device F)
      → NeverWaiting flash_if port rs v
      → dfu_loop flash_if port (rs ++ more) 0 v
        ≡ dfu_loop flash_if port more 0 (polls flash_if port rs v)
  unfolding dfu_loop count_down polls
  dfu_loop-append [] more v h = refl
  dfu_loop-append (r ∷ rs) more v h = rw h.0 (dfu_loop-append rs more (round flash_if port r v) h.1)

  finish-requested :
      (block : ℕ) (v : Device F)
      → v.dfu.context.state ≡ dnload_idle
      → let w = handle_request flash_if port (finish_packet block) v in
        (w.dfu ≡ enter manifest_sync v.dfu) × (w.flash ≡ v.flash)
  unfolding handle_request typed_request class_request handle_dfu_dnload
  finish-requested block v s = ground arith

  status-requested :
      (v : Device F)
      → v.dfu.context.state ≡ manifest_sync
      → let w = handle_request flash_if port getstatus_packet v in
        (w.dfu ≡ enter manifest_wait_reset v.dfu) × (w.flash ≡ v.flash)
  unfolding handle_request typed_request class_request handle_dfu_getstatus getstatus_transition
  status-requested v s = rw s (refl, refl)

  -- A round that does not end in dfuMANIFEST-WAIT-RESET.
  skips :
      (r : UsbRegs) (rs : List UsbRegs) (v : Device F)
      → is_waiting flash_if port (round flash_if port r v) ≡ false
      → dfu_loop flash_if port (r ∷ rs) 0 v ≡ dfu_loop flash_if port rs 0 (round flash_if port r v)
  unfolding dfu_loop count_down
  skips r rs v h = rw h refl

  -- The device that is reset, or that the loop still has, holds the flash `f`.
  abbrev pub Keeps : F → Run F → Type 0
  Keeps f (was_reset rs v) = v.flash ≡ f
  Keeps f (running count v) = v.flash ≡ f

  dfu_loop-step :
      (r : UsbRegs) (rs : List UsbRegs) (count : ℕ) (v : Device F) (f : F)
      → (round flash_if port r v).flash ≡ f
      → ((next : ℕ) → Keeps f (dfu_loop flash_if port rs next (round flash_if port r v)))
      → Keeps f (dfu_loop flash_if port (r ∷ rs) count v)
  unfolding dfu_loop
  dfu_loop-step r rs count v f e k =
      let w = round flash_if port r v in
      let (next, reset) = count_down (is_waiting flash_if port w) count in
      elim (Bool-cases reset) [ inl b ↦ rw (b, dfu_loop) e | inr b ↦ rw (b, dfu_loop) (k next) ]

  quiet-Keeps :
      (rs : List UsbRegs) (count : ℕ) (v : Device F)
      → AllQuiet rs
      → Keeps v.flash (dfu_loop flash_if port rs count v)
  unfolding dfu_loop
  quiet-Keeps [] count v h = refl
  quiet-Keeps (r ∷ rs) count v h =
      let w = round flash_if port r v in
      let e = ap (λ (k : Dfu × F). k.1) (round-quiet flash_if port r v h.0) in
      dfu_loop-step r rs count v v.flash e (λ next.
        subst (λ f. Keeps f (dfu_loop flash_if port rs next w)) e (quiet-Keeps rs next w h.1))

  -- From dfuMANIFEST-SYNC on, with a round that receives a GETSTATUS.
  manifests :
      (r : UsbRegs) (rs : List UsbRegs) (v : Device F)
      → v.dfu.context.state ≡ manifest_sync
      → HasSetup getstatus_packet r
      → AllQuiet rs
      → 49 ≤ length rs
      → let end = dfu_loop flash_if port (r ∷ rs) 0 v in
        Resets flash_if port (length rs - 49) end × Keeps v.flash end
  manifests r rs v s h q n =
      let c = round-setup getstatus_packet r v h in
      let d = status-requested (with_usb r v) s in
      let f = ap (λ x. x.context.state) (c.0 ∙ d.0) in
      let g = c.1 ∙ d.1 in
      let waits : StaysWaiting flash_if port (r ∷ rs) v =
        (rw f refl, quiet-StaysWaiting rs (round flash_if port r v) q f) in
      (
        subst (λ k. Resets flash_if port k (dfu_loop flash_if port (r ∷ rs) 0 v))
            {x = length (r ∷ rs) - 50} (omega arith)
            (dfu_loop-Resets flash_if port (r ∷ rs) v (omega arith) waits),
        dfu_loop-step r rs 0 v v.flash g (λ more.
            subst (λ f. Keeps f (dfu_loop flash_if port rs more (round flash_if port r v))) g
              (quiet-Keeps rs more (round flash_if port r v) q)),
      )

  -- In dfuDNLOAD-IDLE, a round receives a DNLOAD of no bytes, a later one a GETSTATUS, and 49 or
  -- more rounds follow. Between the two and afterwards, nothing that matters reaches the device:
  -- the bus may bring nothing, packets sent, empty packets that end control reads, requests other
  -- than the DFU ones, and GETSTATE. The loop resets the device in the 49th of the rounds that
  -- follow, with the flash as it was.
  pub dfu_loop-manifests :
      (block : ℕ) (r1 : UsbRegs) (between : List UsbRegs) (r2 : UsbRegs) (rs : List UsbRegs)
      (v : Device F)
      → v.dfu.context.state ≡ dnload_idle
      → HasSetup (finish_packet block) r1
      → AllQuiet between
      → HasSetup getstatus_packet r2
      → AllQuiet rs
      → 49 ≤ length rs
      → let end = dfu_loop flash_if port (r1 ∷ (between ++ (r2 ∷ rs))) 0 v in
        Resets flash_if port (length rs - 49) end × Keeps v.flash end
  dfu_loop-manifests block r1 between r2 rs v s h1 b h2 q n =
      let w = round flash_if port r1 v in
      let u = polls flash_if port between w in
      let a = round-setup (finish_packet block) r1 v h1 in
      let f = finish-requested block (with_usb r1 v) s in
      let e = ap (λ d. d.context.state) (a.0 ∙ f.0) in
      let k = polls-quiet between w b in
      let state = ap (λ (x : Dfu × F). x.0.context.state) k ∙ e in
      let same = ap (λ (x : Dfu × F). x.1) k ∙ a.1 ∙ f.1 in
      let step =
        skips r1 (between ++ (r2 ∷ rs)) v (rw e refl)
        ∙ dfu_loop-append between (r2 ∷ rs) w (quiet-NeverWaiting between w b e) in
      let r = manifests r2 rs u state h2 q n in
      subst (λ x. Resets flash_if port (length rs - 49) x × Keeps v.flash x) (sym step)
        (r.0, subst (λ x. Keeps x (dfu_loop flash_if port (r2 ∷ rs) 0 u)) same r.1)
