-- ===== src/Dfu/Host/Memory.antt =====
-- A session of host operations: src/usb_dfu.c on a working src/flash_if.c is a memory.
use nova_voyager_bootloader.Base.{
  ℕ, ◌<◌, ◌≡◌, sym, ap, ◌∙◌, false, List, [], ◌∷◌, length, append-nil, arith,
}
use mathlib.Core.Path.{subst}
use nova_voyager_bootloader.Usb.Regs.{UsbRegs, UsbPort}
use nova_voyager_bootloader.Flash.Region.{page_base}
use nova_voyager_bootloader.Flash.Port.{FlashPort}
use nova_voyager_bootloader.Flash.Controller.{IsController}
use nova_voyager_bootloader.Flash.Confined.{flash_of, returned}
use nova_voyager_bootloader.Flash.Working.{IsWorking, IsRested}
use nova_voyager_bootloader.Flash.Program.{flash_write-stored}
use nova_voyager_bootloader.Flash.Erase.{page_erased, flash_erase_page-erased}
use nova_voyager_bootloader.Dfu.State.{
  dnload_idle, Dfu, Device, dfuse_cmd_set_address, dfuse_cmd_erase_page,
}
use nova_voyager_bootloader.Dfu.Requests.{start_download}
use nova_voyager_bootloader.Dfu.Dispatch.{take_packet}
use nova_voyager_bootloader.Dfu.Download.{concat, take_packets, getstatus_twice}
use nova_voyager_bootloader.Dfu.Image.{stored-cong}
use nova_voyager_bootloader.Dfu.Bus.{all_heard, telling, serve_all}
use nova_voyager_bootloader.Dfu.Bus.Refinement.{view, polls, polls-telling, serve_all-append}
use nova_voyager_bootloader.Dfu.Host.{
  le32, Op, erase_page, point_to, write_block, op_events, session, Target, block_place, effect,
  effects, Fits, AllFit, Meets,
}
use nova_voyager_bootloader.Dfu.Host.Programs.{
  loaded, Freed, Freed-IsFree, serve_twice, serve_command, ran_point_to, ran_erase_page,
  ran_write_block,
}

page_erased-cong :
    (m m' : ℕ → ℕ) (page x : ℕ) → m x ≡ m' x → page_erased m page x ≡ page_erased m' page x
page_erased-cong m m' page x h = ground arith

module _ {D : Type 0} (flash : FlashPort D) {doc : IsController flash}
    (w : IsWorking flash doc) where
  -- The memory after an operation, from the memory that the host reckons with.
  Meets-after :
      (u : Target) (r : Dfu × D) (d' : Dfu) (g' g : D)
      → r ≡ (d', g')
      → g' ≡ g
      → Freed u.pointer d'
      → IsRested flash g
      → ((x : ℕ) → flash.byte g x ≡ u.memory x)
      → Meets flash u r.0 r.1 × (r.0.context.state ≡ dnload_idle)
  Meets-after u r d' g' g e q h rested same =
      rw (e, q) (record { free = Freed-IsFree h; rested = rested; same = same }, h.0)

  pub op-Meets :
      (o : Op) (t : Target) (d : Dfu) (f : D)
      → Meets flash t d f
      → Fits o t
      → let (d', f') = serve_all (flash_of flash) (op_events o) d f in
        Meets flash (effect o t) d' f' × (d'.context.state ≡ dnload_idle)
  op-Meets (point_to a) t d f m lt =
      let l = loaded dfuse_cmd_set_address a t.pointer d lt m.free in
      let s = (take_packet (dfuse_cmd_set_address ∷ le32 a) (start_download 0 5 d)).0 in
      let r = ran_point_to (flash_of flash) a t.pointer s f l in
      let end = (getstatus_twice (flash_of flash) s f).1 in
      Meets-after (effect (point_to a) t) _ end.1 end.2 f
        (serve_command (flash_of flash) dfuse_cmd_set_address a t.pointer d f m.free
          ∙ serve_twice (flash_of flash) s f)
        r.1 r.0 m.rested m.same
  op-Meets (erase_page a) t d f m inside =
      let l = loaded dfuse_cmd_erase_page a t.pointer d (omega (arith, inside)) m.free in
      let s = (take_packet (dfuse_cmd_erase_page ∷ le32 a) (start_download 0 5 d)).0 in
      let e = (flash_erase_page-erased flash w a f m.rested).0 inside in
      let r = ran_erase_page (flash_of flash) a t.pointer s f l e.0 in
      let end = (getstatus_twice (flash_of flash) s f).1 in
      Meets-after (effect (erase_page a) t) _ end.1 end.2 ((flash_of flash).flash_erase_page a f).1
        (serve_command (flash_of flash) dfuse_cmd_erase_page a t.pointer d f m.free
          ∙ serve_twice (flash_of flash) s f)
        r.1 r.0 e.2
        (λ x. e.1 x ∙ page_erased-cong (flash.byte f) t.memory (page_base a) x (m.same x))
  op-Meets (write_block block ps) t d f m fits =
      let place = block_place t block in
      let e =
        flash_write-stored flash w place (concat ps) f m.rested fits.even fits.lo fits.hi
          (λ x l k. m.same x ∙ fits.erased x l k) fits.bytes in
      let r =
        ran_write_block (flash_of flash) block ps t.pointer place d f m.free fits.packets
          fits.block_lo fits.some fits.most (omega (arith, fits.hi)) (ap returned e.0) in
      let filled = (take_packets ps (start_download block (length (concat ps)) d, false)).0 in
      let end = (getstatus_twice (flash_of flash) filled f).1 in
      Meets-after (effect (write_block block ps) t) _ end.1 end.2
        ((flash_of flash).flash_write place (concat ps) f).1 r.0 r.1.1 r.1.0 e.2
        (λ x. e.1 x ∙ stored-cong (flash.byte f) t.memory place (concat ps) x (m.same x))

  -- A session leaves the device as the host reckons, and in dfuDNLOAD-IDLE if it did anything.
  pub session-Meets :
      (os : List Op) (t : Target) (d : Dfu) (f : D)
      → Meets flash t d f
      → AllFit os t
      → let (d', f') = serve_all (flash_of flash) (session os) d f in
        Meets flash (effects os t) d' f' × (0 < length os → d'.context.state ≡ dnload_idle)
  unfolding serve_all
  session-Meets [] t d f m fits = (m, λ n. absurd (omega arith))
  session-Meets (o ∷ []) t d f m (h, hs) =
      let e = append-nil (op_events o) in let r = op-Meets o t d f m h in rw e (r.0, λ n. r.1)
  session-Meets (o ∷ p ∷ os) t d f m (h, hs) =
      let (d1, f1) = serve_all (flash_of flash) (op_events o) d f in
      let r = session-Meets (p ∷ os) (effect o t) d1 f1 (op-Meets o t d f m h).0 hs in
      rw (serve_all-append (flash_of flash) (op_events o) (session (p ∷ os)) d f)
        (r.0, λ n. r.1 (omega arith))

  -- The bootloader is a memory that the host programs. A working flash controller at rest, and a
  -- device that is idle or download-idle with no command pending and no error status. The rounds of
  -- usb_poll hear the events of a session: page erases in the application region, settings of the
  -- address pointer, and blocks of 1 to 1024 bytes for erased memory at an even address of the
  -- region, each ending with two status requests. Between these events they hear what else the bus
  -- brings in any number and order: nothing, packets sent, the empty packets that end control
  -- reads, requests other than the DFU ones, and GETSTATE, but no other DFU request and no bus
  -- reset. Then the bytes of the flash and the address pointer are those of the operations done one
  -- by one on a plain memory, the device can take the next operation with no error status, and it
  -- is in dfuDNLOAD-IDLE unless the session was empty.
  pub polls-Meets :
      (port : UsbPort) (os : List Op) (t : Target) (rs : List UsbRegs) (v : Device D)
      → telling (all_heard rs) ≡ session os
      → Meets flash t v.dfu v.flash
      → AllFit os t
      → let w = polls (flash_of flash) port rs v in
        Meets flash (effects os t) w.dfu w.flash
        × (0 < length os → w.dfu.context.state ≡ dnload_idle)
  polls-Meets port os t rs v e m fits =
      let q : view (flash_of flash) port (polls (flash_of flash) port rs v)
          ≡ serve_all (flash_of flash) (session os) v.dfu v.flash =
        polls-telling (flash_of flash) port rs v (session os) e in
      subst
        (λ (k : Dfu × D).
          Meets flash (effects os t) k.0 k.1 × (0 < length os → k.0.context.state ≡ dnload_idle))
        (sym q) (session-Meets os t v.dfu v.flash m fits)
