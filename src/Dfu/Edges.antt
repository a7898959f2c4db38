-- ===== src/Dfu/Edges.antt =====
-- The state machine of DFU 1.1, as the bootloader runs it, and that a poll follows it.
use nova_voyager_bootloader.Base.{
  ℕ, ap, ◌≡◌, ◌⊎◌, inl, refl, ◌∙◌, Bool, true, ◌&&◌, ◌||◌, List, arith,
}
use mathlib.Core.Path.{subst}
use nova_voyager_bootloader.Usb.Regs.{UsbPort}
use nova_voyager_bootloader.Flash.Interface.{FlashIf}
use nova_voyager_bootloader.Dfu.State.{
  DfuState, idle, dnload_sync, dnbusy, dnload_idle, manifest_sync, manifest_wait_reset, upload_idle,
  error, in_state, Dfu, Device,
}
use nova_voyager_bootloader.Dfu.Status.{getstatus_transition, handle_dfu_getstatus}
use nova_voyager_bootloader.Dfu.Requests.{
  start_download, handle_dfu_getstate, handle_dfu_dnload, handle_dfu_upload, handle_dfu_clrstatus,
  handle_dfu_abort,
}
use nova_voyager_bootloader.Dfu.Dispatch.{
  SetupPacket, DfuRequest, getstatus, getstate, dnload, upload, clrstatus, abort, unknown,
  take_packet, reset_dfu, class_request, usb_poll,
}
use nova_voyager_bootloader.Dfu.Preservation.{usb_poll_leads}

-- From `a` to `b` in one step: back to dfuIDLE or into dfuERROR from anywhere; on with a download
-- or an upload; or no change.
abbrev pub is_edge : DfuState → DfuState → Bool
is_edge a b =
    in_state a b
    || in_state b idle
    || in_state b error
    || (in_state b dnload_sync && (in_state a idle || in_state a dnload_idle))
    || (in_state a dnload_sync && in_state b dnbusy)
    || (in_state a dnbusy && in_state b dnload_idle)
    || (in_state a dnload_idle && in_state b manifest_sync)
    || (in_state a manifest_sync && in_state b manifest_wait_reset)
    || (in_state a idle && in_state b upload_idle)

module _ {F : Type 0} where
  -- A step from state `s` and flash `f`: an edge, and the flash stays unless it leaves dfuDNBUSY,
  -- for dfuDNLOAD-IDLE or dfuERROR.
  abbrev pub IsStep : DfuState → F → Dfu → F → Type 0
  IsStep s f d f' =
      (is_edge s d.context.state ≡ true)
      × ((f' ≡ f)
          ⊎ ((s ≡ dnbusy)
              × ((in_state d.context.state dnload_idle || in_state d.context.state error) ≡ true)))

stays-IsStep :
    {F : Type 0} (s : DfuState) (d : Dfu) (f f' : F)
    → d.context.state ≡ s
    → f' ≡ f
    → IsStep s f d f'
stays-IsStep s d f f' e q = (ground arith, inl q)

resets-IsStep :
    {F : Type 0} (s : DfuState) (d : Dfu) (f f' : F) → f' ≡ f → IsStep s f (reset_dfu d) f'
resets-IsStep s d f f' q = (ground arith, inl q)

-- From a start that is the same.
IsStep-from :
    {F : Type 0} {s s' : DfuState} {f f' : F} (d : Dfu) (g : F)
    → s' ≡ s
    → f' ≡ f
    → IsStep s' f' d g
    → IsStep s f d g
IsStep-from {s' = s'} {f} d g e q h =
    subst (λ t. IsStep t f d g) e (subst (λ x. IsStep s' x d g) q h)

take_packet-context : (packet : List ℕ) (d : Dfu) → (take_packet packet d).0.context ≡ d.context
unfolding take_packet
take_packet-context packet d = ground arith

module _ {F : Type 0} (flash_if : FlashIf F) (port : UsbPort) where
  transition-IsStep :
      (s : DfuState) (d : Dfu) (f : F)
      → d.context.state ≡ s
      → let (t, d', f') = getstatus_transition flash_if s d f in IsStep s f d' f'
  unfolding getstatus_transition
  transition-IsStep dnload_sync d f e = (refl, inl refl)
  transition-IsStep dnbusy d f e = ground arith
  transition-IsStep manifest_sync d f e = (refl, inl refl)
  transition-IsStep s d f e = stays-IsStep s d f f e refl

  dnload-IsStep :
      (block len : ℕ) (v : Device F)
      → let w = handle_dfu_dnload flash_if port block len v in
        IsStep v.dfu.context.state v.flash w.dfu w.flash
  unfolding handle_dfu_dnload start_download
  dnload-IsStep block len v = ground arith

  upload-IsStep :
      (block len : ℕ) (v : Device F)
      → let w = handle_dfu_upload flash_if port block len v in
        IsStep v.dfu.context.state v.flash w.dfu w.flash
  unfolding handle_dfu_upload
  upload-IsStep block len v = ground arith

  class-IsStep :
      (r : DfuRequest) (p : SetupPacket) (v : Device F)
      → let w = class_request flash_if port r p v in
        IsStep v.dfu.context.state v.flash w.dfu w.flash
  unfolding class_request handle_dfu_getstatus handle_dfu_getstate handle_dfu_clrstatus
      handle_dfu_abort
  class-IsStep getstatus p v = transition-IsStep v.dfu.context.state v.dfu v.flash refl
  class-IsStep dnload p v = dnload-IsStep p.w_value p.w_length v
  class-IsStep upload p v = upload-IsStep p.w_value p.w_length v
  class-IsStep clrstatus p v = ground arith
  class-IsStep abort p v = ground arith
  class-IsStep getstate p v = stays-IsStep v.dfu.context.state v.dfu v.flash v.flash refl refl
  class-IsStep unknown p v = stays-IsStep v.dfu.context.state v.dfu v.flash v.flash refl refl

  -- Whatever the host sends, a poll moves the state along an edge of the state machine or leaves
  -- it, and it changes the flash only if it leaves dfuDNBUSY, for dfuDNLOAD-IDLE or dfuERROR.
  pub usb_poll-IsStep :
      (v : Device F)
      → let w = usb_poll flash_if port v in IsStep v.dfu.context.state v.flash w.dfu w.flash
  usb_poll-IsStep v =
      usb_poll_leads flash_if port
        (λ w. (w.dfu.context.state ≡ v.dfu.context.state) × (w.flash ≡ v.flash))
        (λ w. IsStep v.dfu.context.state v.flash w.dfu w.flash) (λ w s h. h) (λ w s h. h)
        (λ w h. stays-IsStep v.dfu.context.state w.dfu v.flash w.flash h.0 h.1)
        (λ r p w h.
          IsStep-from (class_request flash_if port r p w).dfu _ h.0 h.1 (class-IsStep r p w))
        (λ packet w b h.
          stays-IsStep v.dfu.context.state (take_packet packet w.dfu).0 v.flash w.flash
            (ap (λ c. c.state) (take_packet-context packet w.dfu) ∙ h.0) h.1)
        (λ w h. resets-IsStep v.dfu.context.state w.dfu v.flash w.flash h.1) v (refl, refl)
