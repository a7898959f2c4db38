-- ===== src/Boot/Update.antt =====
-- A firmware update under the loop of run_dfu_mode in src/main.c: from the first erase to the
-- reset.
use nova_voyager_bootloader.Base.{
  ℕ, ◌+◌, ◌-◌, ◌*◌, ◌≤◌, ◌<◌, ◌≡◌, ◌⊎◌, sym, ap, ◌∙◌, true, false, List, [], ◌∷◌, ◌++◌, length,
  length-append, arith,
}
use mathlib.Core.Path.{subst}
use nova_voyager_bootloader.Usb.Regs.{UsbRegs, UsbPort}
use nova_voyager_bootloader.Flash.Region.{app_flash_end, flash_page_size}
use nova_voyager_bootloader.Flash.Interface.{FlashIf}
use nova_voyager_bootloader.Flash.Port.{FlashPort}
use nova_voyager_bootloader.Flash.Controller.{IsController}
use nova_voyager_bootloader.Flash.Confined.{flash_of}
use nova_voyager_bootloader.Flash.Working.{IsWorking}
use nova_voyager_bootloader.Flash.Program.{stored, padded}
use nova_voyager_bootloader.Dfu.State.{
  idle, dnload_idle, DfuState, manifest_wait_reset, in_state, Dfu, Device, app_start_address,
}
use nova_voyager_bootloader.Dfu.Bus.{Event, heard, all_heard, telling, serve_all}
use nova_voyager_bootloader.Dfu.Bus.Refinement.{
  polls, usb_poll-serve_all, polls-telling, serve_all-append,
}
use nova_voyager_bootloader.Dfu.Host.{point_to, Target, session, Meets, getstatus_packet}
use nova_voyager_bootloader.Dfu.Host.Memory.{session-Meets}
use nova_voyager_bootloader.Dfu.Host.Preamble.{IsPreamble, preamble-NoFinish, preamble-Meets}
use nova_voyager_bootloader.Dfu.Host.Away.{
  is_away, NoFinish, serve_all-is_away, NoFinish-split, NoFinish-telling, session-NoFinish,
}
use nova_voyager_bootloader.Dfu.Host.Update.{
  update, firmware, IsFirmware, wiped, update_lem, erase_pages, write_blocks,
}
use nova_voyager_bootloader.Boot.Loop.{
  Run, was_reset, running, round, dfu_loop, NeverWaiting, Resets,
}
use nova_voyager_bootloader.Boot.Manifest.{
  HasSetup, AllQuiet, finish_packet, Keeps, dfu_loop-append, dfu_loop-manifests,
}

is_away-in_state : (s : DfuState) → is_away s ≡ true → in_state s manifest_wait_reset ≡ false
is_away-in_state s h = ground arith

accepting-is_away : (s : DfuState) → (s ≡ idle) ⊎ (s ≡ dnload_idle) → is_away s ≡ true
accepting-is_away s h = ground arith

module _ {F : Type 0} (flash_if : FlashIf F) (port : UsbPort) where
  -- Rounds that hear no end of a download.
  away-NeverWaiting :
      (rs : List UsbRegs) (v : Device F)
      → is_away v.dfu.context.state ≡ true
      → NoFinish (all_heard rs)
      → NeverWaiting flash_if port rs v
  away-NeverWaiting [] v h n = tt
  away-NeverWaiting (r ∷ rs) v h n =
      let w = round flash_if port r v in
      let (here, later) = NoFinish-split (heard r) (all_heard rs) n in
      let away : is_away w.dfu.context.state ≡ true =
        subst (λ (k : Dfu × F). is_away k.0.context.state ≡ true)
          (sym (usb_poll-serve_all flash_if port (record v { ep0 = record v.ep0 { usb = r } })))
          (serve_all-is_away flash_if (heard r) v.dfu v.flash h here) in
      (is_away-in_state w.dfu.context.state away, away-NeverWaiting rs w away later)

-- The memory `m` with the first `n` pages of the application region erased, and the firmware there.
abbrev pub updated : (ℕ → ℕ) → ℕ → List (List (List ℕ)) → ℕ → ℕ
updated m n blocks =
    stored (wiped m app_start_address (n * flash_page_size)) app_start_address (firmware blocks)

update_some : (n : ℕ) (blocks : List (List (List ℕ))) → 0 < length (update n blocks)
update_some n blocks = omega (
  arith,
  length-append {0} (erase_pages n app_start_address)
      (point_to app_start_address ∷ write_blocks 2 blocks),
)

-- What the bus brings before each round. In `rounds`, a preamble of bus resets and of GETSTATUS,
-- CLRSTATUS and ABORT requests, and then a session that updates the first `n` pages to the
-- firmware, which fits there; `finish` is a DNLOAD of no bytes, `status` a GETSTATUS, and 49 rounds
-- and `left` more follow. Anywhere among these the bus may bring what does not matter to the DFU
-- half: the requests of the enumeration, the empty packets that end control reads, packets sent.
pub record IsUpdate (n : ℕ) (blocks : List (List (List ℕ))) (bus : List UsbRegs) (left : ℕ)
    : Type 0 where
  pub payload : IsFirmware blocks
  pub fits : padded (length (firmware blocks)) ≤ n * flash_page_size
  pub room : app_start_address + n * flash_page_size ≤ app_flash_end + 1
  pub rounds : List UsbRegs
  pub preamble : List Event
  pub block : ℕ
  pub finish : UsbRegs
  pub between : List UsbRegs
  pub status : UsbRegs
  pub still : List UsbRegs
  pub split : bus ≡ rounds ++ (finish ∷ (between ++ (status ∷ still)))
  pub prepared : IsPreamble preamble
  pub heard : telling (all_heard rounds) ≡ preamble ++ session (update n blocks)
  pub finished : HasSetup (finish_packet block) finish
  pub pause : AllQuiet between
  pub asked : HasSetup getstatus_packet status
  pub quiet : AllQuiet still
  pub enough : length still ≡ left + 49

module _ {D : Type 0} (flash : FlashPort D) {doc : IsController flash} (w : IsWorking flash doc)
    (port : UsbPort) where
  -- The loop resets the device with `left` rounds to come, and the bytes of the flash are `m`.
  abbrev pub ResetsWith : ℕ → (ℕ → ℕ) → Run D → Type 0
  ResetsWith left m (was_reset rs v) = (length rs ≡ left) × ((x : ℕ) → flash.byte v.flash x ≡ m x)
  ResetsWith left m (running count v) = ⊥

  Resets-ResetsWith :
      (left : ℕ) (f : D) (m : ℕ → ℕ) (run : Run D)
      → Resets (flash_of flash) port left run
      → Keeps (flash_of flash) port f run
      → ((x : ℕ) → flash.byte f x ≡ m x)
      → ResetsWith left m run
  Resets-ResetsWith left f m (was_reset rs v) h k same =
      (h, λ x. ap (λ g. flash.byte g x) k ∙ same x)
  Resets-ResetsWith left f m (running count v) h k same = h

  -- The rounds up to the end of the session.
  rounds-Meets :
      (n : ℕ) (blocks : List (List (List ℕ))) (bus : List UsbRegs) (left : ℕ) (t : Target)
      (v : Device D)
      → (u : IsUpdate n blocks bus left) → t.pointer ≡ app_start_address
      → Meets flash t v.dfu v.flash
      → let end = polls (flash_of flash) port u.rounds v in
        (end.dfu.context.state ≡ dnload_idle)
        × ((x : ℕ) → flash.byte end.flash x ≡ updated t.memory n blocks x)
  rounds-Meets n blocks bus left t v u p m =
      let os = update n blocks in
      let (fit, memory) = update_lem n blocks t u.payload u.fits u.room in
      let (d, f) = serve_all (flash_of flash) u.preamble v.dfu v.flash in
      let (met, at_rest) =
        session-Meets flash w os t d f
          (preamble-Meets flash u.preamble t v.dfu v.flash p m u.prepared) fit in
      let q =
        polls-telling (flash_of flash) port u.rounds v (u.preamble ++ session os) u.heard
        ∙ serve_all-append (flash_of flash) u.preamble (session os) v.dfu v.flash in
      (
        ap (λ (k : Dfu × D). k.0.context.state) q ∙ at_rest (update_some n blocks),
        λ x. ap (λ (k : Dfu × D). flash.byte k.1 x) q ∙ met.same x ∙ memory x,
      )

  -- The loop takes the update, ends in the 49th round after the last request, and the flash holds
  -- the firmware.
  pub dfu_loop-ResetsWith :
      (n : ℕ) (blocks : List (List (List ℕ))) (bus : List UsbRegs) (left : ℕ) (t : Target)
      (v : Device D)
      → IsUpdate n blocks bus left
      → t.pointer ≡ app_start_address
      → Meets flash t v.dfu v.flash
      → ResetsWith left (updated t.memory n blocks) (dfu_loop (flash_of flash) port bus 0 v)
  dfu_loop-ResetsWith n blocks bus left t v u p m =
      let fit = (update_lem n blocks t u.payload u.fits u.room).0 in
      let more = u.finish ∷ (u.between ++ (u.status ∷ u.still)) in
      let end = polls (flash_of flash) port u.rounds v in
      let (state, memory) = rounds-Meets n blocks bus left t v u p m in
      let e = dfu_loop-append (flash_of flash) port u.rounds more v (
        away-NeverWaiting (flash_of flash) port u.rounds v
          (accepting-is_away v.dfu.context.state m.free.state)
          (NoFinish-telling (all_heard u.rounds) (
            rw u.heard (
              preamble-NoFinish u.preamble (session (update n blocks)) u.prepared
                (session-NoFinish (update n blocks) t fit))))) in
      let r =
        dfu_loop-manifests (flash_of flash) port u.block u.finish u.between u.status u.still end
          state u.finished u.pause u.asked u.quiet (omega (arith, u.enough)) in
      let k : length u.still - 49 ≡ left = omega (arith, u.enough) in
      rw (u.split, e)
        (subst
          (λ j.
            ResetsWith j (updated t.memory n blocks) (dfu_loop (flash_of flash) port more 0 end))
          k
          (Resets-ResetsWith (length u.still - 49) end.flash (updated t.memory n blocks) _ r.0 r.1
            memory))
