-- ===== src/Dfu/Confined.antt =====
-- No session changes the flash outside the application region.
use nova_voyager_bootloader.Base.{
  AllBytes, ℕ, zero, suc, ◌≤◌, ◌≡◌, ◌∙◌, refl, length, take, replicate, length-take, ◌⊎◌, inl, inr,
  arith,
}
use nova_voyager_bootloader.Usb.Regs.{UsbPort}
use nova_voyager_bootloader.Usb.Init.{Board}
use nova_voyager_bootloader.Flash
use nova_voyager_bootloader.Flash.Port.{FlashPort}
use nova_voyager_bootloader.Flash.Controller.{IsController}
use nova_voyager_bootloader.Flash.Confined.{flash_of, flash_of-IsConfined}
use nova_voyager_bootloader.Flash.Region.{InApp}
use nova_voyager_bootloader.Flash.Interface.{FlashIf, IsConfined}
use nova_voyager_bootloader.Dfu.State.{Dfu, Device}
use nova_voyager_bootloader.Dfu.Status.{getstatus_transition, handle_dfu_getstatus}
use nova_voyager_bootloader.Dfu.Requests.{
  handle_dfu_getstate, handle_dfu_dnload, handle_dfu_upload, handle_dfu_clrstatus, handle_dfu_abort,
}
use nova_voyager_bootloader.Dfu.Dispatch.{
  SetupPacket, DfuRequest, getstatus, getstate, dnload, upload, clrstatus, abort, unknown,
  class_request, usb_poll,
}
use nova_voyager_bootloader.Dfu.Preservation.{usb_poll_keeps}
use nova_voyager_bootloader.Dfu.Invariant.{
  IsValid, take_packet-IsValid, reset_dfu-IsValid, class_request-IsValid,
}
use nova_voyager_bootloader.Dfu.Session.{
  zero_dfu, init_dfu, dfu_init, Step, poll, host, Reach, here, next,
}

zeros-AllBytes : (n : ℕ) → AllBytes (replicate n 0)
zeros-AllBytes zero = tt
zeros-AllBytes (suc n) = (omega arith, zeros-AllBytes n)

pub zero-IsValid : IsValid (init_dfu zero_dfu)
unfolding init_dfu
zero-IsValid = record {
  buffer_size = refl;
  buffer_bytes = zeros-AllBytes 1024;
  buffer_fits = omega arith;
  xfer_fits = omega arith;
  used = refl;
  error_has_status = refl;
  arg_range = omega arith;
  pointer_range = omega arith;
  address_range = omega arith;
}

module _ {F : Type 0} (flash_if : FlashIf F) (port : UsbPort) where
  flash-dnload :
      (block len : ℕ) (v : Device F) → (handle_dfu_dnload flash_if port block len v).flash ≡ v.flash
  unfolding handle_dfu_dnload
  flash-dnload block len v = ground arith

  flash-upload :
      (block len : ℕ) (v : Device F) → (handle_dfu_upload flash_if port block len v).flash ≡ v.flash
  unfolding handle_dfu_upload
  flash-upload block len v = ground arith

  flash-clrstatus : (v : Device F) → (handle_dfu_clrstatus flash_if port v).flash ≡ v.flash
  unfolding handle_dfu_clrstatus
  flash-clrstatus v = ground arith

module _ {F : Type 0} (flash_if : FlashIf F) (IsReady : F → Type 0)
    (confined : IsConfined flash_if IsReady) where
  -- The flash is ready, and its byte at `x` is that of `f`.
  abbrev IsFramed : ℕ → F → F → Type 0
  IsFramed x f f' = (flash_if.byte f' x ≡ flash_if.byte f x) × IsReady f'

  -- A status request leaves the flash alone, or makes one call on it.
  getstatus_calls :
      (d : Dfu) (f : F)
      → let f' = (getstatus_transition flash_if d.context.state d f).2 in
        (f' ≡ f)
        ⊎ ((f' ≡ (flash_if.flash_erase_page d.dfuse_cmd_arg f).1)
            ⊎ (f'
                ≡ (flash_if.flash_write d.context.address
                    (take d.dfu_buffer_len d.dfu_buffer)
                    f).1))
  unfolding getstatus_transition
  getstatus_calls d f = ground arith

  getstatus-IsFramed :
      (d : Dfu) (f : F) (x : ℕ)
      → IsValid d
      → IsReady f
      → ¬ InApp x
      → IsFramed x f (getstatus_transition flash_if d.context.state d f).2
  getstatus-IsFramed d f x v r out =
      let bytes = take d.dfu_buffer_len d.dfu_buffer in
      let short : length bytes ≤ 1024 = omega (arith, length-take d.dfu_buffer_len d.dfu_buffer) in
      elim (getstatus_calls d f) [
        | inl e ↦ rw e (refl, r)
        | inr (inl e) ↦ rw e (
          confined.erase_confined d.dfuse_cmd_arg f x r out,
          confined.erase_ready d.dfuse_cmd_arg f r,
        )
        | inr (inr e) ↦ rw e (
          confined.write_confined d.context.address bytes f x short r out,
          confined.write_ready d.context.address bytes f short r,
        )
      ]

  module _ (port : UsbPort) (m : ℕ → ℕ) where
    -- The variables are valid, and outside the application region the flash is `m`.
    pub record IsKept (v : Device F) : Type 0 where
      pub valid : IsValid v.dfu
      pub ready : IsReady v.flash
      pub kept : (x : ℕ) → ¬ InApp x → flash_if.byte v.flash x ≡ m x

    request-IsFramed :
        (r : DfuRequest) (p : SetupPacket) (v : Device F) (x : ℕ)
        → IsValid v.dfu
        → IsReady v.flash
        → ¬ InApp x
        → IsFramed x v.flash (class_request flash_if port r p v).flash
    unfolding class_request handle_dfu_getstatus handle_dfu_getstate handle_dfu_abort
    request-IsFramed getstatus p v x h k out = getstatus-IsFramed v.dfu v.flash x h k out
    request-IsFramed getstate p v x h k out = (refl, k)
    request-IsFramed dnload p v x h k out = rw flash-dnload (refl, k)
    request-IsFramed upload p v x h k out = rw flash-upload (refl, k)
    request-IsFramed clrstatus p v x h k out = rw flash-clrstatus (refl, k)
    request-IsFramed abort p v x h k out = (refl, k)
    request-IsFramed unknown p v x h k out = (refl, k)

    usb_poll-IsKept : (v : Device F) → IsKept v → IsKept (usb_poll flash_if port v)
    usb_poll-IsKept v k =
        usb_poll_keeps flash_if port IsKept
          (λ w s h. record { valid = h.valid; ready = h.ready; kept = h.kept })
          (λ r p w h. record {
            valid = class_request-IsValid flash_if port r p w h.valid;
            ready = (request-IsFramed r p w 0 h.valid h.ready (λ z. omega arith)).1;
            kept = λ x out. (request-IsFramed r p w x h.valid h.ready out).0 ∙ h.kept x out;
          })
          (λ packet w bytes h. record {
            valid = take_packet-IsValid packet w.dfu bytes h.valid;
            ready = h.ready;
            kept = h.kept;
          })
          (λ w h. record {
            valid = reset_dfu-IsValid w.dfu h.valid;
            ready = h.ready;
            kept = h.kept;
          })
          v k

    Step-IsKept : {v w : Device F} → Step flash_if port v w → IsKept v → IsKept w
    Step-IsKept (poll v) k = usb_poll-IsKept v k
    Step-IsKept (host v r) k = record { valid = k.valid; ready = k.ready; kept = k.kept }

    Reach-IsKept : {v w : Device F} → IsKept v → Reach flash_if port v w → IsKept w
    Reach-IsKept k here = k
    Reach-IsKept k (next r s) = Step-IsKept s (Reach-IsKept k r)

  pub session-IsKept :
      (port : UsbPort) (b : Board) (v : Device F) {w : Device F}
      → v.dfu ≡ zero_dfu
      → IsReady v.flash
      → Reach flash_if port (dfu_init flash_if port b v).1 w
      → IsKept port (flash_if.byte v.flash) w
  unfolding dfu_init
  session-IsKept port b v e k r =
      Reach-IsKept port (flash_if.byte v.flash)
        (record { valid = rw e zero-IsValid; ready = k; kept = λ y o. refl }) r

-- From dfu_init on, with the variables zero before it, however the host drives the bus and for any
-- number of polls, every byte of flash outside the application region, the bootloader's own and
-- the settings page among them, is what it was; the controller behaves as documented, and MER is
-- clear at the start.
pub bootloader_untouched :
    {D : Type 0} (port : FlashPort D) (doc : IsController port) (usb : UsbPort) (b : Board)
    (v : Device D) {w : Device D} (x : ℕ)
    → v.dfu ≡ zero_dfu
    → Flash.Frame.IsReady port v.flash
    → Reach (flash_of port) usb (dfu_init (flash_of port) usb b v).1 w
    → ¬ InApp x
    → port.byte w.flash x ≡ port.byte v.flash x
bootloader_untouched port doc usb b v x e k r out =
    (session-IsKept (flash_of port) (Flash.Frame.IsReady port) (flash_of-IsConfined port doc) usb b
        v e k r).kept
      x out
