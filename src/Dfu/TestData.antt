-- ===== src/Dfu/TestData.antt =====
-- Concrete devices for the runs of the DFU half.
use nova_voyager_bootloader.Base.{ℕ, ◌+◌, false, replicate, ◌==◌, if◌then◌else◌}
use nova_voyager_bootloader.Usb.Regs.{UsbRegs}
use nova_voyager_bootloader.Usb.Ep0.{null}
use nova_voyager_bootloader.Flash.Interface.{FlashIf}
use nova_voyager_bootloader.Flash.Confined.{flash_of}
use nova_voyager_bootloader.Flash.Sim.{Sim, sim}
use nova_voyager_bootloader.Dfu.State.{idle, Device}
use nova_voyager_bootloader.Dfu.Session.{zero_dfu}

abbrev pub flash : FlashIf Sim
flash = flash_of sim

-- A peripheral with `count` bytes received, the first eight of which are the half-words a to d.
abbrev pub received : ℕ → ℕ → ℕ → ℕ → ℕ → ℕ → UsbRegs
received ep0r count a b c d = record {
  ep0r = ep0r;
  cntr = 0xBF00;
  istr = 0x8000;
  daddr = 0x80;
  btable = 0;
  pma = λ x.
      if x == 12
      then 0x8400 + count
      else if x == 256
      then a
      else if x == 260
      then b
      else if x == 264
      then c
      else if x == 268
      then d
      else 0;
}

abbrev pub blank : Device Sim
blank = record {
  dfu = zero_dfu;
  ep0 = record {
    usb = received 0 0 0 0 0 0;
    ep0_tx_ptr = null;
    ep0_tx_remaining = 0;
    ep0_req_len = 0;
    ep0_tx_need_zlp = false;
    ep0_reply = replicate 8 0;
    pending_address = 0;
  };
  flash = record { control = 0x80; page = 0; bytes = λ x. 0xFF };
}

-- Idle, as after dfu_init.
abbrev pub ready : Device Sim
ready = record blank {
  dfu = record zero_dfu {
    context = record zero_dfu.context { state = idle; address = 0x08003000 };
    dfuse_address_ptr = 0x08003000;
  };
}
