-- ===== src/Usb/Ep0/DataStage.antt =====
-- The data stage of a control-IN transfer, as the host sees it.
use nova_voyager_bootloader.Base.{
  AllBytes, AllBytes-take, AllBytes-drop, ℕ, zero, suc, ◌+◌, ◌-◌, ◌*◌, ◌/◌, ◌≤◌, ◌<◌, min, ◌≡◌, ◌⊎◌,
  refl, ap, ◌∙◌, Bool, true, false, ◌||◌, Option, none, some, List, [], ◌++◌, length, tabulate,
  tabulate-append, length-tabulate, ltb, bit_and, bit_or, bit_xor, if◌then◌else◌, ◌==◌, arith,
  lt→ltb, inl, inr,
}
use mathlib.Core.Option
use mathlib.Core.Path.{subst}
use native.Mathlib.Decide.{dec_lt}
use nova_voyager_bootloader.Usb.Regs.{
  UsbRegs, UsbPort, IsEndpointRegister, usb_ep_stat_tx, usb_ep_tx_valid,
}
use nova_voyager_bootloader.Usb.Ep0.Status.{ep_set_tx_status_lem}
use nova_voyager_bootloader.Usb.Pma.RoundTrip.{pma_read_none}
use nova_voyager_bootloader.Usb.Descriptors.{ep0_max_size}
use nova_voyager_bootloader.Usb.Ep0.{
  Ptr, Ep0, deref, write_ep0r, ep0_tx_chunk, ep0_send, handle_ep0_in,
}
use nova_voyager_bootloader.Usb.Ep0.Chunk.{
  IsArmed, queued, owes, IsSent, ep0_tx_chunk-IsSent, ep0_send-IsSent,
}

-- What an IN token fetches: nothing, unless the transmit status is VALID.
abbrev pub fetched : UsbRegs → Option (List ℕ)
fetched r = if bit_and r.ep0r usb_ep_stat_tx == usb_ep_tx_valid then some (queued r) else none

-- The endpoint once the host has taken the packet: CTR_TX is set, the transmit status is NAK, and
-- DTOG_TX has toggled.
abbrev pub taken : UsbRegs → UsbRegs
taken r = record r { ep0r = bit_or (bit_xor (bit_and r.ep0r 0xFFCF) 0x40) 0xA0 }

module _ (port : UsbPort) (mem : ℕ → ℕ) where
  -- handle_ep0_in after the host has taken the packet.
  abbrev pub after_token : Ep0 → Ep0
  after_token s = handle_ep0_in port mem (record s { usb = taken s.usb })

  -- The host's side of a data stage of which `want` bytes are still expected: it fetches a packet,
  -- the device takes the completion, and the stage ends with a short packet or with the last byte
  -- that was asked for. It gives the bytes received and the device's state; `none` if the endpoint
  -- is not armed, or if `n` packets do not end the stage.
  pub host_read : ℕ → ℕ → Ep0 → Option (List ℕ × Ep0)
  host_read zero want s = none
  host_read (suc n) want s =
      let s' = after_token s in
      elim (fetched s.usb) [
        | none ↦ none
        | some packet ↦ elim (ltb (length packet) ep0_max_size || (length packet == want)) [
          | true ↦ some (packet, s')
          | false ↦ Option.map (λ r. (packet ++ r.0, r.1)) (host_read n (want - length packet) s')
        ]
      ]

module _ (port : UsbPort) (doc : IsEndpointRegister port) (mem : ℕ → ℕ) where
  armed-fetched :
      (r : UsbRegs) (bytes : List ℕ) → IsArmed r → queued r ≡ bytes → fetched r ≡ some bytes
  armed-fetched r bytes v e = rw (v, e) refl

  -- handle_ep0_in once its CTR flag is cleared.
  abbrev ack : Ep0 → Ep0
  ack s = record s { usb = write_ep0r port 0x8200 (taken s.usb) }

  in_more :
      (t : Ep0) → 0 < t.ep0_tx_remaining → after_token port mem t ≡ ep0_tx_chunk port mem (ack t)
  unfolding handle_ep0_in
  in_more t h = rw (lt→ltb 0 t.ep0_tx_remaining h)

  -- With nothing left to send and no packet owed, a completion leaves it so.
  in_done :
      (t : Ep0)
      → t.ep0_tx_remaining ≡ 0
      → t.ep0_tx_need_zlp ≡ false
      → let u = after_token port mem t in (u.ep0_tx_remaining ≡ 0) × (u.ep0_tx_need_zlp ≡ false)
  unfolding handle_ep0_in
  in_done t h z = ground arith

  -- An owed zero-length packet is armed, and is then no longer owed.
  in_zlp :
      (t : Ep0)
      → t.ep0_tx_remaining ≡ 0
      → t.ep0_tx_need_zlp ≡ true
      → let u = after_token port mem t in
        IsArmed u.usb × (queued u.usb ≡ []) × (u.ep0_tx_remaining ≡ 0) × (u.ep0_tx_need_zlp ≡ false)
  unfolding handle_ep0_in queued
  in_zlp t h z =
      rw (h, z)
        (
          (ep_set_tx_status_lem port doc (ack t).usb usb_ep_tx_valid).0,
          pma_read_none _ _,
          refl,
          refl,
        )

  -- The result of a data stage: all the bytes, and nothing left in flight.
  abbrev Ends : Option (List ℕ × Ep0) → List ℕ → Type 0
  Ends r bytes =
      (u : Ep0) × (r ≡ some (bytes, u)) × (u.ep0_tx_remaining ≡ 0) × (u.ep0_tx_need_zlp ≡ false)

  host_read-last :
      (n want : ℕ) (t : Ep0) (bytes : List ℕ)
      → IsArmed t.usb
      → queued t.usb ≡ bytes
      → (length bytes < 64) ⊎ (length bytes ≡ want)
      → t.ep0_tx_remaining ≡ 0
      → t.ep0_tx_need_zlp ≡ false
      → Ends (host_read port mem (suc n) want t) bytes
  unfolding host_read
  host_read-last n want t bytes v e short r z =
      let d = in_done t r z in
      (after_token port mem t, rw (armed-fetched t.usb bytes v e, last, host_read) refl, d.0, d.1)
    where
      last : (ltb (length bytes) ep0_max_size || (length bytes == want)) ≡ true
      last = ground arith

  host_read-next :
      (n want : ℕ) (t : Ep0) (bytes rest : List ℕ)
      → IsArmed t.usb
      → queued t.usb ≡ bytes
      → length bytes ≡ 64
      → 64 < want
      → Ends (host_read port mem n (want - 64) (after_token port mem t)) rest
      → Ends (host_read port mem (suc n) want t) (bytes ++ rest)
  unfolding host_read
  host_read-next n want t bytes rest v e full more (u, q, r, z) =
      (u, rw (armed-fetched t.usb bytes v e, last, host_read) (rw (full, q)), r, z)
    where
      last : (ltb (length bytes) ep0_max_size || (length bytes == want)) ≡ false
      last = ground arith

  owed_stage :
      (n want : ℕ) (t : Ep0)
      → 0 < n
      → t.ep0_tx_remaining ≡ 0
      → t.ep0_tx_need_zlp ≡ true
      → Ends (host_read port mem n want (after_token port mem t)) []
  owed_stage zero want t h r z = absurd (omega arith)
  owed_stage (suc n) want t h r z =
      let (v, e, r', z') = in_zlp t r z in
      host_read-last n want (after_token port mem t) [] v e (inl (omega arith)) r' z'

  split64 :
      (r : ℕ) (f : ℕ → ℕ)
      → 64 ≤ r
      → tabulate 64 f ++ tabulate (r - 64) (λ i. f (64 + i)) ≡ tabulate r f
  split64 r f h = tabulate-append 64 (r - 64) f ∙ ap (λ k. tabulate k f) (omega arith)

  packet64 :
      {t : Ep0} {r : ℕ} {f : ℕ → ℕ} {z : Bool}
      → IsSent port doc mem t r f z
      → 64 ≤ r
      → queued t.usb ≡ tabulate 64 f
  packet64 {f = f} sent h = sent.packet ∙ ap (λ k. tabulate k f) {y = 64} (omega arith)

  -- After a full packet with more than that to go, the next packet is armed.
  next-IsSent :
      {t : Ep0} {r want : ℕ} {f : ℕ → ℕ}
      → IsSent port doc mem t r f (owes r want)
      → 64 < r
      → 64 < want
      → r ≤ want
      → AllBytes (tabulate r f)
      → IsSent port doc mem
          (ep0_tx_chunk port mem (ack t))
          (r - 64)
          (λ i. f (64 + i))
          (owes (r - 64) (want - 64))
  next-IsSent {t} {r} {want} {f} sent more h le b =
      ep0_tx_chunk-IsSent port doc mem (ack t) (r - 64) (λ i. f (64 + i))
        (omega (arith, sent.remaining)) (λ i. sent.left i ∙ ap (λ k. f (k + i)) (omega arith))
        (sent.need_zlp ∙ ground arith)
        (AllBytes-take (min (r - 64) 64) (r - 64) _ (omega arith)
          (AllBytes-drop 64 (r - 64) f (subst (λ k. AllBytes (tabulate k f)) (omega arith) b)))

  -- The stage from a state whose next packet is armed.
  stage :
      (n want r : ℕ) (f : ℕ → ℕ) (t : Ep0)
      → IsSent port doc mem t r f (owes r want)
      → r ≤ want
      → r < 64 * n
      → AllBytes (tabulate r f)
      → Ends (host_read port mem n want t) (tabulate r f)
  stage zero want r f t sent le fuel b = absurd (omega arith)
  stage (suc n) want r f t sent le fuel b = elim (dec_lt r 64) [
    | yes short ↦
        host_read-last n want t (tabulate r f) sent.valid
          (sent.packet ∙ ap (λ k. tabulate k f) (omega arith))
          (inl (omega (arith, length-tabulate r f))) (omega (arith, sent.remaining))
          (sent.need_zlp ∙ ground arith)
    | no full ↦ elim (dec_lt 64 want) [
      | no exact ↦
          host_read-last n want t (tabulate r f) sent.valid
            (sent.packet ∙ ap (λ k. tabulate k f) (omega arith))
            (inr (omega (arith, length-tabulate r f))) (omega (arith, sent.remaining))
            (sent.need_zlp ∙ ground arith)
      | yes more ↦ elim (dec_lt 64 r) [
        | yes rest ↦ subst (Ends (host_read port mem (suc n) want t)) (split64 r f (omega arith)) (
            host_read-next n want t _ _ sent.valid (packet64 sent (omega arith))
              (length-tabulate 64 f) more
              (rw (in_more t (omega (arith, sent.remaining))) (
                stage n (want - 64) (r - 64) (λ i. f (64 + i)) _ (next-IsSent sent rest more le b)
                  (omega arith) (omega arith)
                  (AllBytes-drop 64 (r - 64) f
                    (subst (λ k. AllBytes (tabulate k f)) (omega arith) b)))))
        | no last ↦ subst (Ends (host_read port mem (suc n) want t)) (split64 r f (omega arith)) (
            host_read-next n want t _ _ sent.valid (packet64 sent (omega arith))
              (length-tabulate 64 f) more
              (subst
                (λ k.
                  Ends (host_read port mem n (want - 64) (after_token port mem t))
                    (tabulate k (λ i. f (64 + i))))
                {x = 0} (omega arith)
                (owed_stage n (want - 64) t (omega arith) (omega (arith, sent.remaining))
                  (sent.need_zlp ∙ ground arith))))
      ]
    ]
  ]

  -- On a documented endpoint register, and where the bytes behind the pointer are bytes, a host
  -- that asked for `wLength` of them and fetches the packets that are armed until one is short, or
  -- until it has them all, receives exactly the first min(len, wLength) bytes behind the pointer,
  -- in order, and leaves the device with nothing in flight; one packet for each 64 bytes and one
  -- more suffice.
  pub ep0_send-host_read :
      (ptr : Ptr) (len : ℕ) (s : Ep0)
      → AllBytes (tabulate (min len s.ep0_req_len) (deref mem s.ep0_reply ptr))
      → let count = min len s.ep0_req_len in
        (u : Ep0) × (host_read port mem (count / 64 + 1) s.ep0_req_len (ep0_send port mem ptr len s)
          ≡ some (tabulate count (deref mem s.ep0_reply ptr), u))
        × (u.ep0_tx_remaining ≡ 0)
        × (u.ep0_tx_need_zlp ≡ false)
  ep0_send-host_read ptr len s b =
      stage (min len s.ep0_req_len / 64 + 1) s.ep0_req_len (min len s.ep0_req_len) _ _
        (ep0_send-IsSent port doc mem ptr len s b) (omega arith) (omega arith) b
