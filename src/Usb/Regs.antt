-- ===== src/Usb/Regs.antt =====
-- include/usb_regs.h: the registers of the USB device peripheral and their bits.
use nova_voyager_bootloader.Base.{ℕ, ◌≡◌, bit_and, bit_xor}

-- The peripheral's registers and its packet memory. `pma` is read by the displacement from
-- USB_PMAADDR at which the CPU sees a half-word.
pub record UsbRegs : Type 0 where
  pub ep0r : ℕ
  pub cntr : ℕ
  pub istr : ℕ
  pub daddr : ℕ
  pub btable : ℕ
  pub pma : ℕ → ℕ

-- What the silicon makes of a write to a register whose bits are not plain storage: the value that
-- the register holds, the value written, and the value that it holds then.
pub record UsbPort : Type 0 where
  pub ep_write : ℕ → ℕ → ℕ
  pub istr_write : ℕ → ℕ → ℕ

abbrev pub usb_ep_ctr_rx : ℕ
usb_ep_ctr_rx = 0x8000

abbrev pub usb_ep_stat_rx : ℕ
usb_ep_stat_rx = 0x3000

abbrev pub usb_ep_setup : ℕ
usb_ep_setup = 0x0800

abbrev pub usb_ep_ctr_tx : ℕ
usb_ep_ctr_tx = 0x0080

abbrev pub usb_ep_stat_tx : ℕ
usb_ep_stat_tx = 0x0030

-- USB_EP_CTR_RX | USB_EP_TYPE | USB_EP_KIND | USB_EP_CTR_TX | USB_EP_EA
abbrev pub usb_ep_kept : ℕ
usb_ep_kept = 0x878F

abbrev pub usb_ep_rx_valid : ℕ
usb_ep_rx_valid = 0x3000

abbrev pub usb_ep_tx_stall : ℕ
usb_ep_tx_stall = 0x0010

abbrev pub usb_ep_tx_valid : ℕ
usb_ep_tx_valid = 0x0030

abbrev pub usb_istr_ctr : ℕ
usb_istr_ctr = 0x8000

abbrev pub usb_istr_reset : ℕ
usb_istr_reset = 0x0400

abbrev pub usb_istr_ep_id : ℕ
usb_istr_ep_id = 0x000F

abbrev pub usb_daddr_ef : ℕ
usb_daddr_ef = 0x0080

-- The documented behaviour of an endpoint register: the CTR bits are cleared by writing 0, the
-- status and data toggle bits are toggled by writing 1, SETUP is read only, the rest is stored.
pub record IsEndpointRegister (port : UsbPort) : Type 0 where
  pub ctr_bits : (e v : ℕ) → bit_and (port.ep_write e v) 0x8080 ≡ bit_and (bit_and e v) 0x8080
  pub toggled_bits : (e v : ℕ) → bit_and (port.ep_write e v) 0x7070 ≡ bit_and (bit_xor e v) 0x7070
  pub setup_bit : (e v : ℕ) → bit_and (port.ep_write e v) 0x0800 ≡ bit_and e 0x0800
  pub stored_bits : (e v : ℕ) → bit_and (port.ep_write e v) 0x070F ≡ bit_and v 0x070F
