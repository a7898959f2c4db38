-- ===== src/Usb/Init.antt =====
-- usb_init of src/usb_dfu.c: clocks, pins, and the peripheral.
use nova_voyager_bootloader.Base.{ℕ, ◌+◌, ◌-◌, bit_and, bit_or}
use nova_voyager_bootloader.Usb.Regs.{UsbRegs, UsbPort, usb_daddr_ef}
use nova_voyager_bootloader.Usb.Pma.{pma_put}
use nova_voyager_bootloader.Usb.Ep0.{btable_offset, ep0_tx_offset, ep0_rx_offset, write_ep0r}

-- The RCC and GPIO registers that usb_init touches; they store what is written.
pub record Board : Type 0 where
  pub rcc_apb2enr : ℕ
  pub rcc_apb1enr : ℕ
  pub gpioa_crl : ℕ
  pub gpioa_crh : ℕ
  pub gpioa_odr : ℕ
  pub gpioc_crh : ℕ
  pub gpioc_odr : ℕ

-- `(reg & ~mask) | bits` on a 32-bit register
abbrev pub change : ℕ → ℕ → ℕ → ℕ
change mask bits reg = bit_or (bit_and reg (0xFFFFFFFF - mask)) bits

-- The buffer table that usb_reset and usb_init write.
abbrev pub init_btable : (ℕ → ℕ) → ℕ → ℕ
init_btable pma = pma_put (btable_offset + 6) 0x8400 (
    pma_put (btable_offset + 4) ep0_rx_offset
      (pma_put (btable_offset + 2) 0 (pma_put (btable_offset + 0) ep0_tx_offset pma)))

-- The part on clocks and pins; the delay loops have no effect.
unfoldable pub init_board : Board → Board
init_board b = record b {
  rcc_apb2enr = bit_or b.rcc_apb2enr 0x15;
  rcc_apb1enr = bit_or b.rcc_apb1enr 0x800000;
  gpioa_crl = change 0xFFFF0000 0xB4B30000 b.gpioa_crl;
  gpioa_odr = bit_or b.gpioa_odr 0x10;
  gpioc_crh = change 0xF0 0x70 b.gpioc_crh;
  gpioc_odr = bit_and b.gpioc_odr (0xFFFFFFFF - 0x200);
  gpioa_crh = change 0xFF000 0x44000 b.gpioa_crh;
}

module _ (port : UsbPort) where
  -- The part on the peripheral. USB_CNTR takes 3, 1, 0 and 0xBF00 in turn and keeps the last.
  unfoldable pub init_peripheral : UsbRegs → UsbRegs
  init_peripheral r =
      let cleared = record r { cntr = 0; istr = port.istr_write r.istr 0 } in
      let table = record cleared {
        cntr = 0xBF00;
        btable = btable_offset;
        pma = init_btable r.pma;
      } in
      record (write_ep0r port 0xB2A0 table) { daddr = usb_daddr_ef }
