-- ===== src/Dfu/Invariant.antt =====
-- The invariant of the DFU variables, and that every operation keeps it.
use nova_voyager_bootloader.Base.{
  AllBytes, ℕ, zero, suc, ◌^◌, ◌≤◌, ◌<◌, ◌≡◌, Bool, true, false, not, List, [], ◌∷◌, length, get_or,
  set, splice, length-splice, ◌==◌, arith,
}
use nova_voyager_bootloader.Usb.Regs.{UsbPort}
use nova_voyager_bootloader.Flash.Interface.{FlashIf}
use nova_voyager_bootloader.Dfu.State.{
  DfuState, app_idle, app_detach, manifest, error, status_code, in_state, Dfu, Device,
}
use nova_voyager_bootloader.Dfu.Status.{getstatus_transition, handle_dfu_getstatus}
use nova_voyager_bootloader.Dfu.Requests.{
  handle_dfu_getstate, handle_dfu_dnload, handle_dfu_upload, handle_dfu_clrstatus, handle_dfu_abort,
}
use nova_voyager_bootloader.Dfu.Dispatch.{
  SetupPacket, DfuRequest, getstatus, getstate, dnload, upload, clrstatus, abort, unknown,
  command_arg, take_packet, reset_dfu, class_request, usb_poll,
}
use nova_voyager_bootloader.Dfu.Preservation.{usb_poll_keeps}

-- The states that the bootloader takes: not those of a run-time application, nor dfuMANIFEST.
abbrev pub is_used : DfuState → Bool
is_used app_idle = false
is_used app_detach = false
is_used manifest = false
is_used _ = true

pub record IsValid (d : Dfu) : Type 0 where
  pub buffer_size : length d.dfu_buffer ≡ 1024
  pub buffer_bytes : AllBytes d.dfu_buffer
  pub buffer_fits : d.dfu_buffer_len ≤ 1024
  pub xfer_fits : d.context.xfer_len ≤ 1024
  pub used : is_used d.context.state ≡ true
  pub error_has_status : in_state d.context.state error ≡ not (status_code d.context.status == 0)
  pub arg_range : d.dfuse_cmd_arg < 2 ^ 32
  pub pointer_range : d.dfuse_address_ptr < 2 ^ 32
  pub address_range : d.context.address < 2 ^ 32

set-AllBytes : (xs : List ℕ) (i v : ℕ) → AllBytes xs → v < 256 → AllBytes (set xs i v)
set-AllBytes [] i v h k = tt
set-AllBytes (x ∷ xs) zero v h k = (k, h.1)
set-AllBytes (x ∷ xs) (suc i) v h k = (h.0, set-AllBytes xs i v h.1 k)

splice-AllBytes :
    (xs : List ℕ) (i : ℕ) (ys : List ℕ) → AllBytes xs → AllBytes ys → AllBytes (splice xs i ys)
splice-AllBytes xs i [] h k = h
splice-AllBytes xs i (y ∷ ys) h k =
    splice-AllBytes (set xs i y) (suc i) ys (set-AllBytes xs i y h k.0) k.1

pub get_or_byte : (xs : List ℕ) (i : ℕ) → AllBytes xs → get_or xs i 0 < 256
get_or_byte [] i h = omega arith
get_or_byte (x ∷ xs) zero h = h.0
get_or_byte (x ∷ xs) (suc i) h = get_or_byte xs i h.1

command_arg-lt : (xs : List ℕ) → AllBytes xs → command_arg xs < 2 ^ 32
command_arg-lt xs h =
    omega (arith, get_or_byte xs 1 h, get_or_byte xs 2 h, get_or_byte xs 3 h, get_or_byte xs 4 h)

pub take_packet-IsValid :
    (packet : List ℕ) (d : Dfu) → AllBytes packet → IsValid d → IsValid (take_packet packet d).0
unfolding take_packet
take_packet-IsValid packet d h v = ground (
  arith,
  length-splice d.dfu_buffer d.dfu_buffer_len packet,
  splice-AllBytes d.dfu_buffer d.dfu_buffer_len packet v.buffer_bytes h,
  command_arg-lt d.dfu_buffer v.buffer_bytes,
  command_arg-lt (splice d.dfu_buffer d.dfu_buffer_len packet),
)

pub reset_dfu-IsValid : (d : Dfu) → IsValid d → IsValid (reset_dfu d)
reset_dfu-IsValid d h = ground arith

module _ {F : Type 0} (flash_if : FlashIf F) where
  getstatus_transition-IsValid :
      (d : Dfu) (f : F) → IsValid d → IsValid (getstatus_transition flash_if d.context.state d f).1
  unfolding getstatus_transition
  getstatus_transition-IsValid d f v = ground arith

  module _ (port : UsbPort) where
    dnload-IsValid :
        (block len : ℕ) (v : Device F)
        → IsValid v.dfu
        → IsValid (handle_dfu_dnload flash_if port block len v).dfu
    unfolding handle_dfu_dnload
    dnload-IsValid block len v h = ground arith

    upload-IsValid :
        (block len : ℕ) (v : Device F)
        → IsValid v.dfu
        → IsValid (handle_dfu_upload flash_if port block len v).dfu
    unfolding handle_dfu_upload
    upload-IsValid block len v h = ground arith

    pub class_request-IsValid :
        (r : DfuRequest) (p : SetupPacket) (v : Device F)
        → IsValid v.dfu
        → IsValid (class_request flash_if port r p v).dfu
    unfolding class_request handle_dfu_getstatus handle_dfu_getstate handle_dfu_clrstatus
        handle_dfu_abort
    class_request-IsValid getstatus p v h = getstatus_transition-IsValid v.dfu v.flash h
    class_request-IsValid getstate p v h = h
    class_request-IsValid dnload p v h = dnload-IsValid p.w_value p.w_length v h
    class_request-IsValid upload p v h = upload-IsValid p.w_value p.w_length v h
    class_request-IsValid clrstatus p v h = ground arith
    class_request-IsValid abort p v h = ground arith
    class_request-IsValid unknown p v h = h

    -- One poll keeps the invariant of the DFU variables, whatever the host has sent and whatever
    -- the flash answers: the buffer holds 1024 values below 256, of which at most 1024 are
    -- counted, no transfer is longer, the state is one that the bootloader uses, the status is an
    -- error exactly in dfuERROR, and the address, the pointer and the operand are 32-bit words.
    pub usb_poll-IsValid : (v : Device F) → IsValid v.dfu → IsValid (usb_poll flash_if port v).dfu
    usb_poll-IsValid v h =
        usb_poll_keeps flash_if port (λ w. IsValid w.dfu) (λ w s k. k) class_request-IsValid
          (λ packet w bytes k. take_packet-IsValid packet w.dfu bytes k)
          (λ w k. reset_dfu-IsValid w.dfu k) v h
