-- ===== src/Usb/Tests.antt =====
-- The USB half on concrete inputs.
use nova_voyager_bootloader.Base.{ℕ, ◌≡◌, false, some, [], ◌∷◌, replicate, bit_and, arith}
use nova_voyager_bootloader.Usb.Regs.{UsbRegs, usb_ep_tx_valid}
use nova_voyager_bootloader.Usb.Pma.{pma_write, pma_read}
use nova_voyager_bootloader.Usb.Pma.RoundTrip.{pma_read-pma_write}
use nova_voyager_bootloader.Usb.Descriptors.{device_descriptor}
use nova_voyager_bootloader.Usb.Ep0.{Ep0, null, rodata, ep_set_tx_status, ep0_send}
use nova_voyager_bootloader.Usb.Ep0.Status.{ep_set_tx_status_lem}
use nova_voyager_bootloader.Usb.Ep0.DataStage.{host_read, ep0_send-host_read}
use nova_voyager_bootloader.Usb.Sim.{silicon, silicon-IsEndpointRegister}

-- Receive VALID, transmit NAK, a control endpoint with a reception flagged.
abbrev regs : UsbRegs
regs = record { ep0r = 0xBA20; cntr = 0xBF00; istr = 0; daddr = 0x80; btable = 0; pma = λ a. 0 }

abbrev asked_64 : Ep0
asked_64 = record {
  usb = regs;
  ep0_tx_ptr = null;
  ep0_tx_remaining = 0;
  ep0_req_len = 64;
  ep0_tx_need_zlp = false;
  ep0_reply = replicate 8 0;
  pending_address = 0;
}

ep_set_tx_status_lem_example :
    let e = (ep_set_tx_status silicon usb_ep_tx_valid regs).ep0r in
    (bit_and e 0x0030 ≡ 0x0030)
    × (bit_and e 0x3000 ≡ 0x3000)
    × (bit_and e 0x4040 ≡ 0)
    × (bit_and e 0x8080 ≡ 0x8000)
    × (bit_and e 0x0800 ≡ 0x0800)
    × (bit_and e 0x070F ≡ 0x0200)
ep_set_tx_status_lem_example =
    ep_set_tx_status_lem silicon silicon-IsEndpointRegister regs usb_ep_tx_valid

-- An odd length, over memory that is not empty.
pma_read-pma_write_example :
    pma_read 64 3 (pma_write 64 (1 ∷ 2 ∷ 3 ∷ []) (λ a. 0xFFFF)) ≡ 1 ∷ 2 ∷ 3 ∷ []
pma_read-pma_write_example = pma_read-pma_write 64 (1 ∷ 2 ∷ 3 ∷ []) (λ a. 0xFFFF) (omega arith)

abbrev no_flash : ℕ → ℕ
no_flash a = 0xFF

-- The device descriptor, to a host that asks for 64 bytes.
ep0_send-host_read_example :
    (u : Ep0) × (host_read silicon no_flash 1 64
        (ep0_send silicon no_flash (rodata device_descriptor 0) 18 asked_64)
      ≡ some (device_descriptor, u))
    × (u.ep0_tx_remaining ≡ 0)
    × (u.ep0_tx_need_zlp ≡ false)
ep0_send-host_read_example =
    ep0_send-host_read silicon silicon-IsEndpointRegister no_flash (rodata device_descriptor 0) 18
      asked_64 (omega arith)
