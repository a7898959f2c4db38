-- ===== src/Dfu/Host/Preamble.antt =====
-- How a host starts: bus resets, and requests that put src/usb_dfu.c into its idle state.
use nova_voyager_bootloader.Base.{
  ℕ, ◌≡◌, inl, inr, refl, Bool, true, false, List, [], ◌∷◌, ◌++◌, sym, ap, ◌∙◌, arith,
}
use mathlib.Core.Bool.{false≢true}
use mathlib.Core.Path.{subst}
use nova_voyager_bootloader.Flash.Working.{IsRested}
use nova_voyager_bootloader.Flash.Interface.{FlashIf}
use nova_voyager_bootloader.Flash.Port.{FlashPort}
use nova_voyager_bootloader.Flash.Confined.{flash_of}
use nova_voyager_bootloader.Dfu.State.{Dfu, app_start_address}
use nova_voyager_bootloader.Dfu.Status.{getstatus_transition}
use nova_voyager_bootloader.Dfu.Dispatch.{
  SetupPacket, RequestType, standard, class, reserved, to_type, DfuRequest, getstatus, getstate,
  dnload, upload, clrstatus, abort, unknown, to_dfu,
}
use nova_voyager_bootloader.Dfu.Bus.{
  Event, bus_reset, setup, out, cleared, aborted, stepped, requested, requested_by, serve,
  serve_all,
}
use nova_voyager_bootloader.Dfu.Host.{Target, IsFree, Meets}
use nova_voyager_bootloader.Dfu.Host.Away.{finishes, finishes_by, NoFinish}

-- GETSTATUS, CLRSTATUS and ABORT.
abbrev pub prepares_by : RequestType → DfuRequest → Bool
prepares_by class getstatus = true
prepares_by class clrstatus = true
prepares_by class abort = true
prepares_by _ q = false

abbrev pub prepares : Event → Bool
prepares bus_reset = true
prepares (setup p) = prepares_by (to_type p.bm_request_type) (to_dfu p.b_request)
prepares (out packet) = false

abbrev pub IsPreamble : List Event → Type 0
IsPreamble [] = Unit
IsPreamble (e ∷ es) = (prepares e ≡ true) × IsPreamble es

prepares_by-finishes_by :
    (t : RequestType) (q : DfuRequest) (len : ℕ)
    → prepares_by t q ≡ true
    → finishes_by t q len ≡ false
prepares_by-finishes_by t q len h = ground arith

prepares-finishes : (e : Event) → prepares e ≡ true → finishes e ≡ false
prepares-finishes bus_reset h = refl
prepares-finishes (setup p) h =
    prepares_by-finishes_by (to_type p.bm_request_type) (to_dfu p.b_request) p.w_length h
prepares-finishes (out packet) h = refl

pub preamble-NoFinish :
    (es more : List Event) → IsPreamble es → NoFinish more → NoFinish (es ++ more)
preamble-NoFinish [] more h k = k
preamble-NoFinish (e ∷ es) more (h, hs) k = (prepares-finishes e h, preamble-NoFinish es more hs k)

module _ {F : Type 0} (flash_if : FlashIf F) where
  -- The variables of a free device with the address pointer at the start of the region.
  abbrev Ready : F → Dfu × F → Type 0
  Ready f r = IsFree app_start_address r.0 × (r.1 ≡ f)

  stepped-Ready : (d : Dfu) (f : F) → IsFree app_start_address d → stepped flash_if d f ≡ (d, f)
  unfolding stepped getstatus_transition
  stepped-Ready d f h = elim h.state [ inl e ↦ rw e refl | inr e ↦ rw e refl ]

  cleared-free : (d : Dfu) → IsFree app_start_address d → cleared d ≡ d
  unfolding cleared
  cleared-free d h = elim h.state [ inl e ↦ rw e refl | inr e ↦ rw e refl ]

  asked_for :
      (q : DfuRequest) (value len : ℕ) (d : Dfu) (f : F)
      → IsFree app_start_address d
      → prepares_by class q ≡ true
      → Ready f (requested flash_if q value len d f)
  unfolding requested aborted
  asked_for getstatus value len d f h b = rw (stepped-Ready d f h) (h, refl)
  asked_for getstate value len d f h b = absurd (false≢true b)
  asked_for dnload value len d f h b = absurd (false≢true b)
  asked_for upload value len d f h b = absurd (false≢true b)
  asked_for clrstatus value len d f h b = rw (cleared-free d h) (h, refl)
  asked_for abort value len d f h b = (
    record { state = inl refl; status = refl; pointer = refl; pending = refl; size = h.size },
    refl,
  )
  asked_for unknown value len d f h b = absurd (false≢true b)

  requested-Ready :
      (t : RequestType) (p : SetupPacket) (d : Dfu) (f : F)
      → IsFree app_start_address d
      → prepares_by t (to_dfu p.b_request) ≡ true
      → Ready f (requested_by flash_if t p d f)
  unfolding requested_by
  requested-Ready standard p d f h b = absurd (false≢true b)
  requested-Ready reserved p d f h b = absurd (false≢true b)
  requested-Ready class p d f h b = asked_for (to_dfu p.b_request) p.w_value p.w_length d f h b

  serve-Ready :
      (e : Event) (d : Dfu) (f : F)
      → IsFree app_start_address d
      → prepares e ≡ true
      → Ready f (serve flash_if e d f)
  unfolding serve
  serve-Ready bus_reset d f h b = (
    record { state = inl refl; status = refl; pointer = refl; pending = refl; size = h.size },
    refl,
  )
  serve-Ready (setup p) d f h b = requested-Ready (to_type p.bm_request_type) p d f h b
  serve-Ready (out packet) d f h b = absurd (false≢true b)

  preamble-Ready :
      (es : List Event) (d : Dfu) (f : F)
      → IsFree app_start_address d
      → IsPreamble es
      → Ready f (serve_all flash_if es d f)
  unfolding serve_all
  preamble-Ready [] d f h b = (h, refl)
  preamble-Ready (e ∷ es) d f h (b, bs) =
      let r = serve-Ready e d f h b in
      let k = preamble-Ready es (serve flash_if e d f).0 (serve flash_if e d f).1 r.0 bs in
      (k.0, k.1 ∙ r.1)

module _ {D : Type 0} (flash : FlashPort D) where
  -- A preamble leaves the device as the host reckons.
  pub preamble-Meets :
      (es : List Event) (t : Target) (d : Dfu) (f : D)
      → t.pointer ≡ app_start_address
      → Meets flash t d f
      → IsPreamble es
      → let (d', f') = serve_all (flash_of flash) es d f in Meets flash t d' f'
  preamble-Meets es t d f p m b =
      let r = preamble-Ready (flash_of flash) es d f (subst (λ a. IsFree a d) p m.free) b in
      record {
        free = subst (λ a. IsFree a (serve_all (flash_of flash) es d f).0) (sym p) r.0;
        rested = subst (IsRested flash) (sym r.1) m.rested;
        same = λ x. ap (λ g. flash.byte g x) r.1 ∙ m.same x;
      }
