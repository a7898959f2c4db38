-- ===== src/Dfu/Host/Away.antt =====
-- Which events can lead the DFU half of src/usb_dfu.c towards the reset at the end of a download.
use nova_voyager_bootloader.Base.{
  ℕ, ◌≡◌, refl, Bool, true, false, List, [], ◌∷◌, ◌++◌, ◌==◌, arith, Bool-cases, inl, inr,
}
use mathlib.Core.Path.{subst}
use nova_voyager_bootloader.Flash.Interface.{FlashIf}
use nova_voyager_bootloader.Dfu.State.{manifest_sync, manifest_wait_reset, DfuState, Dfu}
use nova_voyager_bootloader.Dfu.Status.{getstatus_transition}
use nova_voyager_bootloader.Dfu.Requests.{start_download}
use nova_voyager_bootloader.Dfu.Dispatch.{
  SetupPacket, RequestType, standard, class, reserved, to_type, DfuRequest, getstatus, getstate,
  dnload, upload, clrstatus, abort, unknown, to_dfu, take_packet,
}
use nova_voyager_bootloader.Dfu.Bus.{
  Event, bus_reset, setup, out, offered, asked, cleared, aborted, given, stepped, requested,
  requested_by, serve, serve_all, matters, matters_by, telling,
}
use nova_voyager_bootloader.Dfu.Host.{
  Op, erase_page, point_to, write_block, outs, twice, op_events, session, Target, effect, AllFit,
  Fits,
}

-- Neither dfuMANIFEST-SYNC nor dfuMANIFEST-WAIT-RESET.
abbrev pub is_away : DfuState → Bool
is_away manifest_sync = false
is_away manifest_wait_reset = false
is_away _ = true

-- A DNLOAD of no bytes, which ends a download.
abbrev pub finishes_by : RequestType → DfuRequest → ℕ → Bool
finishes_by class dnload len = len == 0
finishes_by _ _ len = false

abbrev pub finishes : Event → Bool
finishes (setup p) = finishes_by (to_type p.bm_request_type) (to_dfu p.b_request) p.w_length
finishes _ = false

abbrev pub NoFinish : List Event → Type 0
NoFinish [] = Unit
NoFinish (e ∷ es) = (finishes e ≡ false) × NoFinish es

module _ {F : Type 0} (flash_if : FlashIf F) where
  stepped-is_away :
      (d : Dfu) (f : F)
      → is_away d.context.state ≡ true
      → is_away (stepped flash_if d f).0.context.state ≡ true
  unfolding stepped getstatus_transition
  stepped-is_away d f h = ground arith

  requested-is_away :
      (q : DfuRequest) (value len : ℕ) (d : Dfu) (f : F)
      → is_away d.context.state ≡ true
      → finishes_by class q len ≡ false
      → is_away (requested flash_if q value len d f).0.context.state ≡ true
  unfolding requested offered asked cleared aborted start_download
  requested-is_away getstatus value len d f h n = stepped-is_away d f h
  requested-is_away getstate value len d f h n = h
  requested-is_away dnload value len d f h n = ground arith
  requested-is_away upload value len d f h n = ground arith
  requested-is_away clrstatus value len d f h n = ground arith
  requested-is_away abort value len d f h n = refl
  requested-is_away unknown value len d f h n = h

  requested_by-is_away :
      (t : RequestType) (p : SetupPacket) (d : Dfu) (f : F)
      → is_away d.context.state ≡ true
      → finishes_by t (to_dfu p.b_request) p.w_length ≡ false
      → is_away (requested_by flash_if t p d f).0.context.state ≡ true
  unfolding requested_by
  requested_by-is_away standard p d f h n = h
  requested_by-is_away class p d f h n =
      requested-is_away (to_dfu p.b_request) p.w_value p.w_length d f h n
  requested_by-is_away reserved p d f h n = h

  serve-is_away :
      (e : Event) (d : Dfu) (f : F)
      → is_away d.context.state ≡ true
      → finishes e ≡ false
      → is_away (serve flash_if e d f).0.context.state ≡ true
  unfolding serve given take_packet
  serve-is_away bus_reset d f h n = refl
  serve-is_away (setup p) d f h n = requested_by-is_away (to_type p.bm_request_type) p d f h n
  serve-is_away (out packet) d f h n = ground arith

  -- Only a DNLOAD of no bytes leads towards the reset.
  pub serve_all-is_away :
      (es : List Event) (d : Dfu) (f : F)
      → is_away d.context.state ≡ true
      → NoFinish es
      → is_away (serve_all flash_if es d f).0.context.state ≡ true
  unfolding serve_all
  serve_all-is_away [] d f h n = h
  serve_all-is_away (e ∷ es) d f h (n, ns) =
      let (d', f') = serve flash_if e d f in serve_all-is_away es d' f' (serve-is_away e d f h n) ns

pub NoFinish-append : (es more : List Event) → NoFinish es → NoFinish more → NoFinish (es ++ more)
NoFinish-append [] more h k = k
NoFinish-append (e ∷ es) more (h, hs) k = (h, NoFinish-append es more hs k)

pub NoFinish-split : (es more : List Event) → NoFinish (es ++ more) → NoFinish es × NoFinish more
NoFinish-split [] more h = (tt, h)
NoFinish-split (e ∷ es) more (h, hs) = let (k, l) = NoFinish-split es more hs in ((h, k), l)

outs-NoFinish : (ps : List (List ℕ)) → NoFinish (outs ps)
outs-NoFinish [] = tt
outs-NoFinish (p ∷ ps) = (refl, outs-NoFinish ps)

op-NoFinish : (o : Op) (t : Target) → Fits o t → NoFinish (op_events o)
op-NoFinish (erase_page a) t h = (refl, (refl, (refl, (refl, tt))))
op-NoFinish (point_to a) t h = (refl, (refl, (refl, (refl, tt))))
op-NoFinish (write_block block ps) t h =
    (ground (arith, h.some), NoFinish-append (outs ps) twice (outs-NoFinish ps) (refl, (refl, tt)))

-- No operation of a session ends the download.
pub session-NoFinish : (os : List Op) (t : Target) → AllFit os t → NoFinish (session os)
session-NoFinish [] t h = tt
session-NoFinish (o ∷ os) t (h, hs) =
    NoFinish-append (op_events o) (session os) (op-NoFinish o t h)
      (session-NoFinish os (effect o t) hs)

finishes_by-matters_by :
    (t : RequestType) (q : DfuRequest) (len : ℕ)
    → matters_by t q ≡ false
    → finishes_by t q len ≡ false
finishes_by-matters_by t q len h = ground arith

finishes-matters : (e : Event) → matters e ≡ false → finishes e ≡ false
finishes-matters bus_reset h = refl
finishes-matters (setup p) h =
    finishes_by-matters_by (to_type p.bm_request_type) (to_dfu p.b_request) p.w_length h
finishes-matters (out packet) h = refl

-- The end of a download matters.
pub NoFinish-telling : (es : List Event) → NoFinish (telling es) → NoFinish es
NoFinish-telling [] h = tt
NoFinish-telling (e ∷ es) h = elim (Bool-cases (matters e)) [
  | inl b ↦
      let k : NoFinish (e ∷ telling es) = subst NoFinish {y = e ∷ telling es} (rw b refl) h in
      (k.0, NoFinish-telling es k.1)
  | inr b ↦
      (finishes-matters e b, NoFinish-telling es (subst NoFinish {y = telling es} (rw b refl) h))
]
