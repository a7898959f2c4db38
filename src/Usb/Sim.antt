-- ===== src/Usb/Sim.antt =====
-- A concrete endpoint register, and the USB half on concrete inputs.
use nova_voyager_bootloader.Base.{bit_and, bit_or, bit_xor, mask_laws}
use nova_voyager_bootloader.Usb.Regs.{UsbPort, IsEndpointRegister}

-- The register as the reference manual describes it; ISTR is cleared by writing 0.
abbrev pub silicon : UsbPort
silicon = record {
  ep_write = λ e v.
      bit_or (bit_or (bit_and (bit_and e v) 0x8080) (bit_and (bit_xor e v) 0x7070))
        (bit_or (bit_and e 0x0800) (bit_and v 0x070F));
  istr_write = bit_and;
}

pub silicon-IsEndpointRegister : IsEndpointRegister silicon
silicon-IsEndpointRegister = record {
  ctr_bits = λ e v. simp mask_laws;
  toggled_bits = λ e v. simp mask_laws;
  setup_bit = λ e v. simp mask_laws;
  stored_bits = λ e v. simp mask_laws;
}
