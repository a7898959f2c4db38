-- ===== src/Dfu/Replies.antt =====
-- GET_DESCRIPTOR and GETSTATUS, from the request to the bytes that the host reads: handle_setup,
-- handle_get_descriptor and handle_dfu_getstatus of src/usb_dfu.c.
use nova_voyager_bootloader.Base.{
  ℕ, zero, suc, ◌+◌, ◌/◌, ◌≤◌, ◌<◌, min, ◌≡◌, refl, sym, ap, ◌∙◌, Option, none, some, false,
  bit_and, List, [], ◌∷◌, length, length-take, get_or, take, tabulate, splice, get_or-splice,
  AllBytes, ltb, if◌then◌else◌, arith,
}
use mathlib.Core.Path.{subst}
use nova_voyager_bootloader.Usb.Regs.{
  UsbPort, IsEndpointRegister, usb_ep_stat_tx, usb_ep_tx_stall, usb_ep_stat_rx, usb_ep_rx_valid,
}
use nova_voyager_bootloader.Usb.Ep0.Status.{ep_set_tx_status_lem, ep_set_rx_status_lem}
use nova_voyager_bootloader.Usb.Descriptors.{find_descriptor}
use nova_voyager_bootloader.Usb.Lookup.{find_descriptor-HasHeader}
use nova_voyager_bootloader.Usb.Ep0.{
  Ptr, Ep0, rodata, scratch, deref, ep0_send, ep0_stall, ep_set_tx_status,
}
use nova_voyager_bootloader.Usb.Ep0.DataStage.{host_read, ep0_send-host_read}
use nova_voyager_bootloader.Flash.Interface.{FlashIf}
use nova_voyager_bootloader.Dfu.State.{DfuState, DfuStatus, Dfu, Device, status_code, state_code}
use nova_voyager_bootloader.Dfu.Status.{getstatus_transition, handle_dfu_getstatus}
use nova_voyager_bootloader.Dfu.Dispatch.{
  SetupPacket, begin_setup, class_request, standard_request, typed_request, handle_get_descriptor,
  handle_request,
}
use nova_voyager_bootloader.Dfu.Host.{getstatus_packet}
use nova_voyager_bootloader.Dfu.Upload.{tabulate-eq}

-- The SETUP packet of a GET_DESCRIPTOR.
abbrev pub descriptor_packet : ℕ → ℕ → SetupPacket
descriptor_packet value len = record {
  bm_request_type = 0x80;
  b_request = 0x06;
  w_value = value;
  w_index = 0;
  w_length = len;
}

tabulate-get_or :
    (n : ℕ) (xs : List ℕ) → n ≤ length xs → tabulate n (λ i. get_or xs i 0) ≡ take n xs
tabulate-get_or zero xs h = refl
tabulate-get_or (suc n) [] h = absurd (omega arith)
tabulate-get_or (suc n) (x ∷ xs) h = ap (λ l. x ∷ l) (tabulate-get_or n xs (omega arith))

take-AllBytes : (n : ℕ) (xs : List ℕ) → AllBytes xs → AllBytes (take n xs)
take-AllBytes zero xs h = tt
take-AllBytes (suc n) [] h = tt
take-AllBytes (suc n) (x ∷ xs) h = (h.0, take-AllBytes n xs h.1)

-- What lies behind a pointer into an array.
tabulate-array :
    (n : ℕ) (xs : List ℕ) → n ≤ length xs → tabulate n (λ i. get_or xs (0 + i) 0) ≡ take n xs
tabulate-array n xs h =
    tabulate-eq n _ (λ i. get_or xs i 0) (λ i k. ap (λ j. get_or xs j 0) (omega arith))
    ∙ tabulate-get_or n xs h

-- The host reads `bytes` when it asks for `len`, and nothing is left to send.
abbrev pub Reads : {F : Type 0} → FlashIf F → UsbPort → Device F → ℕ → List ℕ → Type 0
Reads flash_if port w len bytes =
    (u : Ep0) × (host_read port (flash_if.byte w.flash) (length bytes / 64 + 1) len w.ep0
      ≡ some (bytes, u))
    × (u.ep0_tx_remaining ≡ 0)

-- An IN token is answered by a stall, a SETUP packet is received, and nothing is left to send.
abbrev pub IsStalled : Ep0 → Type 0
IsStalled s =
    (bit_and s.usb.ep0r usb_ep_stat_tx ≡ usb_ep_tx_stall)
    × (bit_and s.usb.ep0r usb_ep_stat_rx ≡ usb_ep_rx_valid)
    × (s.ep0_tx_remaining ≡ 0)
    × (s.ep0_tx_need_zlp ≡ false)

-- The answer to a request for `len` bytes of a descriptor: a stall if there is none.
abbrev pub Answers : {F : Type 0} → FlashIf F → UsbPort → ℕ → Option (List ℕ) → Device F → Type 0
Answers flash_if port len none w = IsStalled w.ep0
Answers flash_if port len (some desc) w = Reads flash_if port w len (take len desc)

take_none : (n : ℕ) → take {A = ℕ} n [] ≡ []
take_none zero = refl
take_none (suc n) = refl

take-min : (n : ℕ) (xs : List ℕ) → take (min (length xs) n) xs ≡ take n xs
take-min zero xs = let e : min (length xs) 0 ≡ 0 = omega arith in ap (λ k. take k xs) e
take-min (suc n) [] = take_none (min 0 (suc n))
take-min (suc n) (x ∷ xs) =
    let e : min (suc (length xs)) (suc n) ≡ suc (min (length xs) n) = omega arith in
    ap (λ k. take k (x ∷ xs)) e ∙ ap (λ l. x ∷ l) (take-min n xs)

-- What is behind the start of ep0_reply once `bytes` have been put there.
reply_bytes :
    (n : ℕ) (bytes rest : List ℕ) (k : ℕ)
    → k + n ≡ length bytes
    → length bytes ≤ length rest
    → tabulate n (λ i. get_or (splice rest 0 bytes) (k + i) 0)
      ≡ tabulate n (λ i. get_or bytes (k + i) 0)
reply_bytes n bytes rest k e h = tabulate-eq n _ _ (λ i l.
    ap (λ j. get_or (splice rest 0 bytes) j 0) {x = k + i} {y = 0 + (k + i)} (omega arith)
    ∙ get_or-splice rest 0 bytes (k + i) 0 (omega arith) (omega arith))

take_all : (xs : List ℕ) → take (length xs) xs ≡ xs
take_all [] = refl
take_all (x ∷ xs) = ap (λ l. x ∷ l) (take_all xs)

code_bytes : (a : DfuStatus) (b : DfuState) → (status_code a < 256) × (state_code b < 256)
code_bytes a b = ground arith

module _ {F : Type 0} (flash_if : FlashIf F) (port : UsbPort) (doc : IsEndpointRegister port) where
  -- `k` bytes behind a pointer are sent, of which the host asks for `len`.
  sent-Reads :
      (ptr : Ptr) (k len : ℕ) (bytes : List ℕ) (s : Ep0) (w : Device F)
      → w.ep0 ≡ ep0_send port (flash_if.byte w.flash) ptr k s
      → s.ep0_req_len ≡ len
      → length bytes ≡ min k s.ep0_req_len
      → tabulate (min k s.ep0_req_len) (deref (flash_if.byte w.flash) s.ep0_reply ptr) ≡ bytes
      → AllBytes bytes
      → Reads flash_if port w len bytes
  sent-Reads ptr k len bytes s w e q n t b =
      let mem = flash_if.byte w.flash in
      let (u, h, r, z) = ep0_send-host_read port doc mem ptr k s (subst AllBytes (sym t) b) in
      (
        u,
        ap (λ c. host_read port mem (c / 64 + 1) len w.ep0) n
            ∙ ap (λ l. host_read port mem (min k s.ep0_req_len / 64 + 1) l w.ep0) (sym q)
            ∙ ap (host_read port mem (min k s.ep0_req_len / 64 + 1) s.ep0_req_len) e
            ∙ h
            ∙ ap (λ l. some (l, u)) t,
        r,
      )

  -- An array, sent from its start.
  array-Reads :
      (desc : List ℕ) (k len : ℕ) (s : Ep0) (w : Device F)
      → w.ep0 ≡ ep0_send port (flash_if.byte w.flash) (rodata desc 0) k s
      → s.ep0_req_len ≡ len
      → min k s.ep0_req_len ≡ min (length desc) len
      → AllBytes desc
      → Reads flash_if port w len (take len desc)
  array-Reads desc k len s w e q n b =
      sent-Reads (rodata desc 0) k len (take len desc) s w e q
        (omega (arith, length-take len desc, n))
        (tabulate-array (min k s.ep0_req_len) desc (omega (arith, n))
          ∙ ap (λ c. take c desc) n
          ∙ take-min len desc)
        (take-AllBytes len desc b)

  ep0_stall-IsStalled : (s : Ep0) → IsStalled (ep0_stall port s)
  unfolding ep0_stall
  ep0_stall-IsStalled s =
      let r = ep_set_tx_status port usb_ep_tx_stall s.usb in
      (
        (ep_set_rx_status_lem port doc r usb_ep_rx_valid).1
            ∙ (ep_set_tx_status_lem port doc s.usb usb_ep_tx_stall).0,
        (ep_set_rx_status_lem port doc r usb_ep_rx_valid).0,
        refl,
        refl,
      )

  answered :
      (found : Option (List ℕ)) (value len : ℕ) (v : Device F)
      → find_descriptor value ≡ found
      → let w = handle_request flash_if port (descriptor_packet value len) v in
        (w.dfu ≡ v.dfu) × (w.flash ≡ v.flash) × Answers flash_if port len found w
  unfolding handle_request typed_request standard_request handle_get_descriptor begin_setup
  answered none value len v e =
      rw (e, handle_get_descriptor)
        (
          refl,
          refl,
          ep0_stall-IsStalled (begin_setup flash_if port (descriptor_packet value len) v.ep0),
        )
  answered (some desc) value len v e =
      let p = descriptor_packet value len in
      let s = begin_setup flash_if port p v.ep0 in
      let k = if ltb len (length desc) then len else length desc in
      let w = record v { ep0 = ep0_send port (flash_if.byte v.flash) (rodata desc 0) k s } in
      rw (e, handle_get_descriptor)
        (
          refl,
          refl,
          array-Reads desc k len s w refl refl (ground arith)
              (find_descriptor-HasHeader value desc e).3,
        )

  -- On a documented endpoint register, GET_DESCRIPTOR for any wValue and any wLength, whatever the
  -- device is doing. The variables of DFU and the flash stay. If the descriptor exists, the host,
  -- which fetches the packets that are armed until the data stage ends, reads exactly its bytes, or
  -- the first wLength of them if it asked for fewer, and nothing is left to send; if not, the
  -- transmit status is STALL, the endpoint still receives, and nothing is left to send.
  pub handle_request-Answers :
      (value len : ℕ) (v : Device F)
      → let w = handle_request flash_if port (descriptor_packet value len) v in
        (w.dfu ≡ v.dfu) × (w.flash ≡ v.flash) × Answers flash_if port len (find_descriptor value) w
  handle_request-Answers value len v = answered (find_descriptor value) value len v refl

  timeout_byte : (b : DfuState) (d : Dfu) (f : F) → (getstatus_transition flash_if b d f).0 < 256
  unfolding getstatus_transition
  timeout_byte b d f = ground arith

  -- The reply of GETSTATUS: bStatus, the three bytes of bwPollTimeout, bState and iString.
  abbrev pub status_reply : Device F → List ℕ
  status_reply v =
      let (timeout, d, f) = getstatus_transition flash_if v.dfu.context.state v.dfu v.flash in
      status_code d.context.status ∷ timeout ∷ 0 ∷ 0 ∷ state_code d.context.state ∷ 0 ∷ []

  -- On a documented endpoint register, GETSTATUS in any state. It makes the transition of the
  -- state, and the host, which asks for six bytes and fetches the packets that are armed, reads the
  -- status and the state that the device is in after the transition, with the poll timeout: so what
  -- the host is told is what is.
  pub handle_request-Reads :
      (v : Device F)
      → length v.ep0.ep0_reply ≡ 8
      → let (timeout, d, f) = getstatus_transition flash_if v.dfu.context.state v.dfu v.flash in
        let w = handle_request flash_if port getstatus_packet v in
        (w.dfu ≡ d) × (w.flash ≡ f) × Reads flash_if port w 6 (status_reply v)
  unfolding handle_request typed_request class_request handle_dfu_getstatus begin_setup
  handle_request-Reads v size =
      let (timeout, d, f) = getstatus_transition flash_if v.dfu.context.state v.dfu v.flash in
      let bytes = status_reply v in
      let b = code_bytes d.context.status d.context.state in
      (
        refl,
        refl,
        sent-Reads (scratch 0) 6 6 bytes _ (handle_request flash_if port getstatus_packet v) refl
            refl refl (reply_bytes 6 bytes v.ep0.ep0_reply 0 refl (omega (arith, size)))
            (
              b.0,
              (
                timeout_byte v.dfu.context.state v.dfu v.flash,
                (omega arith, (omega arith, (b.1, (omega arith, tt)))),
              ),
            ),
      )
