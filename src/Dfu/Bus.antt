-- ===== src/Dfu/Bus.antt =====
-- The DFU half of src/usb_dfu.c as the host sees it: a machine that takes the events on the bus and
-- has no endpoint 0, and what the rounds of usb_poll have to do with it.
pub mod Refinement
use nova_voyager_bootloader.Base.{
  ℕ, zero, suc, ◌+◌, ◌*◌, ◌≡◌, refl, ap, ◌∙◌, Bool, true, false, ◌&&◌, ◌||◌, not, List, [], ◌∷◌,
  ◌++◌, length, ltb, leb, has_bits, bit_and, ◌==◌, if◌then◌else◌, arith, Bool-cases, inl, inr,
}
use nova_voyager_bootloader.Usb.Regs.{
  UsbRegs, UsbPort, usb_ep_ctr_rx, usb_ep_ctr_tx, usb_ep_setup, usb_istr_ctr, usb_istr_reset,
  usb_istr_ep_id,
}
use nova_voyager_bootloader.Usb.Pma.{pma_read, pma_get, read_halfwords}
use nova_voyager_bootloader.Usb.Ep0.{btable_offset, ep0_rx_offset}
use nova_voyager_bootloader.Usb.Descriptors.{dfu_xfer_size, find_descriptor}
use nova_voyager_bootloader.Flash.Region.{app_flash_start, app_flash_end}
use nova_voyager_bootloader.Flash.Interface.{FlashIf}
use nova_voyager_bootloader.Dfu.State.{
  idle, dnload_sync, dnload_idle, manifest_sync, upload_idle, error, ok, err_unknown, in_state, Dfu,
  Device, app_start_address, enter, fail,
}
use nova_voyager_bootloader.Dfu.Status.{getstatus_transition, handle_dfu_getstatus}
use nova_voyager_bootloader.Dfu.Requests.{
  block_address, start_download, handle_dfu_getstate, handle_dfu_dnload, handle_dfu_upload,
  handle_dfu_clrstatus, handle_dfu_abort,
}
use nova_voyager_bootloader.Dfu.Dispatch.{
  SetupPacket, to_setup, RequestType, standard, class, reserved, to_type, StandardRequest,
  get_descriptor, set_address, set_configuration, get_configuration, get_status, other, to_standard,
  DfuRequest, getstatus, getstate, dnload, upload, clrstatus, abort, unknown, to_dfu, take_packet,
  reset_dfu, handle_get_descriptor, standard_request, class_request, typed_request, handle_request,
  handle_setup, receive, handle_ep0_out, usb_reset, serve_rx, serve_tx, serve_ep0, poll_reset,
  poll_by, usb_poll,
}

-- What a round hears: a bus reset, a SETUP packet, or a packet of data.
pub data Event : Type 0 where
  bus_reset : Event
  setup : SetupPacket → Event
  out : List ℕ → Event

-- The packet in the receive buffer of endpoint 0.
abbrev pub packet : Bool → UsbRegs → Event
packet is_setup r =
    if is_setup
    then setup (to_setup (pma_read ep0_rx_offset 8 r.pma))
    else out (pma_read ep0_rx_offset (bit_and (pma_get (btable_offset + 6) r.pma) 0x3FF) r.pma)

abbrev pub heard : UsbRegs → List Event
heard r =
    if has_bits r.istr usb_istr_reset
    then bus_reset ∷ []
    else if has_bits r.istr usb_istr_ctr
        && ((bit_and r.istr usb_istr_ep_id == 0) && has_bits r.ep0r usb_ep_ctr_rx)
    then packet (has_bits r.ep0r usb_ep_setup) r ∷ []
    else []

abbrev pub all_heard : List UsbRegs → List Event
all_heard [] = []
all_heard (r ∷ rs) = heard r ++ all_heard rs

-- The class requests that can change the DFU variables or the flash.
abbrev pub matters_by : RequestType → DfuRequest → Bool
matters_by standard q = false
matters_by class getstatus = true
matters_by class getstate = false
matters_by class dnload = true
matters_by class upload = true
matters_by class clrstatus = true
matters_by class abort = true
matters_by class unknown = false
matters_by reserved q = false

-- The events that can: neither an empty packet, which ends every control read, nor a request of the
-- enumeration, nor GETSTATE.
abbrev pub matters : Event → Bool
matters bus_reset = true
matters (setup p) = matters_by (to_type p.bm_request_type) (to_dfu p.b_request)
matters (out []) = false
matters (out (b ∷ bs)) = true

abbrev pub telling : List Event → List Event
telling [] = []
telling (e ∷ es) = if matters e then e ∷ telling es else telling es

-- DNLOAD on the variables.
unfoldable pub offered : ℕ → ℕ → Dfu → Dfu
unfolding start_download
offered block len d =
    let s = d.context.state in
    if len == 0
    then (if in_state s dnload_idle then enter manifest_sync d else d)
    else if ltb dfu_xfer_size len
    then fail err_unknown d
    else if not (block == 1) && (in_state s idle || in_state s dnload_idle)
    then start_download block len d
    else d

-- UPLOAD on the variables: beyond the application region the transfer is over.
unfoldable pub asked : ℕ → Dfu → Dfu
asked block d =
    let a = block_address d block in
    if (in_state d.context.state idle || in_state d.context.state upload_idle) && leb 2 block
    then (if leb app_flash_start a && leb a app_flash_end
        then enter upload_idle d
        else enter idle d)
    else d

-- CLRSTATUS.
unfoldable pub cleared : Dfu → Dfu
cleared d =
    if in_state d.context.state error
    then record d { context = record d.context { status = ok; state = idle } }
    else d

-- ABORT.
unfoldable pub aborted : Dfu → Dfu
aborted d = record d {
  context = record d.context { status = ok; state = idle; address = app_start_address };
  dfuse_address_ptr = app_start_address;
  dfuse_cmd_pending = 0;
  dfuse_cmd_has_arg = false;
}

-- A packet of data counts only in dfuDNLOAD-SYNC, and if it is not empty.
unfoldable pub given : List ℕ → Dfu → Dfu
given packet d =
    if in_state d.context.state dnload_sync && ltb 0 (length packet)
    then (take_packet packet d).0
    else d

module _ {F : Type 0} (flash_if : FlashIf F) where
  -- GETSTATUS without its reply.
  unfoldable pub stepped : Dfu → F → Dfu × F
  stepped d f = let (t, d', f') = getstatus_transition flash_if d.context.state d f in (d', f')

  -- A DFU request on the variables and the flash.
  unfoldable pub requested : DfuRequest → ℕ → ℕ → Dfu → F → Dfu × F
  requested getstatus value len d f = stepped d f
  requested getstate value len d f = (d, f)
  requested dnload value len d f = (offered value len d, f)
  requested upload value len d f = (asked value d, f)
  requested clrstatus value len d f = (cleared d, f)
  requested abort value len d f = (aborted d, f)
  requested unknown value len d f = (d, f)

  -- Only the class requests matter.
  unfoldable pub requested_by : RequestType → SetupPacket → Dfu → F → Dfu × F
  requested_by standard p d f = (d, f)
  requested_by class p d f = requested (to_dfu p.b_request) p.w_value p.w_length d f
  requested_by reserved p d f = (d, f)

  unfoldable pub serve : Event → Dfu → F → Dfu × F
  serve bus_reset d f = (reset_dfu d, f)
  serve (setup p) d f = requested_by (to_type p.bm_request_type) p d f
  serve (out packet) d f = (given packet d, f)

  unfoldable pub serve_all : List Event → Dfu → F → Dfu × F
  serve_all [] d f = (d, f)
  serve_all (e ∷ es) d f = let (d', f') = serve e d f in serve_all es d' f'
