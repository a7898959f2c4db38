-- ===== src/Dfu/Host.antt =====
-- What a host asks of the DFU half of src/usb_dfu.c to program the flash: operations, the events
-- that each puts on the bus, and what it expects of the memory.
pub mod Programs
pub mod Memory
pub mod Away
pub mod Refusal
pub mod Readback
pub mod Preamble
pub mod Update
use nova_voyager_bootloader.Base.{
  ℕ, ◌+◌, ◌-◌, ◌*◌, ◌/◌, ◌%◌, ◌^◌, ◌≤◌, ◌<◌, ◌≡◌, ◌⊎◌, List, [], ◌∷◌, ◌++◌, length, AllBytes, arith,
}
use nova_voyager_bootloader.Flash.Region.{
  InApp, app_flash_start, app_flash_end, page_base, flash_page_size,
}
use nova_voyager_bootloader.Flash.Port.{FlashPort}
use nova_voyager_bootloader.Flash.Working.{IsRested}
use nova_voyager_bootloader.Flash.Program.{stored, IsErased, padded}
use nova_voyager_bootloader.Flash.Erase.{page_erased}
use nova_voyager_bootloader.Dfu.State.{
  ok, idle, dnload_idle, Dfu, dfuse_cmd_set_address, dfuse_cmd_erase_page,
}
use nova_voyager_bootloader.Dfu.Dispatch.{SetupPacket, command_arg}
use nova_voyager_bootloader.Dfu.Download.{concat}
use nova_voyager_bootloader.Dfu.Bus.{Event, setup, out}

-- The SETUP packets of a DNLOAD, of a GETSTATUS and of an ABORT.
abbrev pub dnload_packet : ℕ → ℕ → SetupPacket
dnload_packet block len = record {
  bm_request_type = 0x21;
  b_request = 0x01;
  w_value = block;
  w_index = 0;
  w_length = len;
}

abbrev pub getstatus_packet : SetupPacket
getstatus_packet = record {
  bm_request_type = 0xA1;
  b_request = 0x03;
  w_value = 0;
  w_index = 0;
  w_length = 6;
}

abbrev pub abort_packet : SetupPacket
abort_packet = record {
  bm_request_type = 0x21;
  b_request = 0x06;
  w_value = 0;
  w_index = 0;
  w_length = 0;
}

-- A word as a command carries it.
abbrev pub le32 : ℕ → List ℕ
le32 a = a % 256 ∷ a / 2 ^ 8 % 256 ∷ a / 2 ^ 16 % 256 ∷ a / 2 ^ 24 % 256 ∷ []

-- Erase the page of an address, set the address pointer, or write a block, given as the packets of
-- its data stage.
pub data Op : Type 0 where
  erase_page : ℕ → Op
  point_to : ℕ → Op
  write_block : ℕ → List (List ℕ) → Op

abbrev pub outs : List (List ℕ) → List Event
outs [] = []
outs (p ∷ ps) = out p ∷ outs ps

-- Two status requests: the first starts the work, the second does it and tells the outcome.
abbrev pub twice : List Event
twice = setup getstatus_packet ∷ setup getstatus_packet ∷ []

abbrev pub command : ℕ → ℕ → List Event
command c a = setup (dnload_packet 0 5) ∷ out (c ∷ le32 a) ∷ twice

abbrev pub op_events : Op → List Event
op_events (erase_page a) = command dfuse_cmd_erase_page a
op_events (point_to a) = command dfuse_cmd_set_address a
op_events (write_block block ps) =
    setup (dnload_packet block (length (concat ps))) ∷ (outs ps ++ twice)

abbrev pub session : List Op → List Event
session [] = []
session (o ∷ os) = op_events o ++ session os

-- What the host reckons with: the address pointer, and the bytes of the memory.
pub record Target : Type 0 where
  pub pointer : ℕ
  pub memory : ℕ → ℕ

abbrev pub block_place : Target → ℕ → ℕ
block_place t block = t.pointer + (block - 2) * 1024

abbrev pub effect : Op → Target → Target
effect (erase_page a) t = record t { memory = page_erased t.memory (page_base a) }
effect (point_to a) t = record t { pointer = a }
effect (write_block block ps) t = record t {
  memory = stored t.memory (block_place t block) (concat ps);
}

abbrev pub effects : List Op → Target → Target
effects [] t = t
effects (o ∷ os) t = effects os (effect o t)

abbrev pub AllSome : List (List ℕ) → Type 0
AllSome [] = Unit
AllSome (p ∷ ps) = (0 < length p) × AllSome ps

-- A block of 1 to 1024 bytes for an even address and memory in the application region that is
-- erased, in whole half-words.
pub record FitsBlock (block : ℕ) (ps : List (List ℕ)) (t : Target) : Type 0 where
  pub packets : AllSome ps
  pub bytes : AllBytes (concat ps)
  pub block_lo : 2 ≤ block
  pub some : 0 < length (concat ps)
  pub most : length (concat ps) ≤ 1024
  pub even : block_place t block % 2 ≡ 0
  pub lo : app_flash_start ≤ block_place t block
  pub hi : block_place t block + length (concat ps) ≤ app_flash_end + 1
  pub erased :
      IsErased t.memory (block_place t block) (block_place t block + padded (length (concat ps)))

-- The operations that the device is to carry out.
abbrev pub Fits : Op → Target → Type 0
Fits (erase_page a) t = InApp a
Fits (point_to a) t = a < 2 ^ 32
Fits (write_block block ps) t = FitsBlock block ps t

abbrev pub AllFit : List Op → Target → Type 0
AllFit [] t = Unit
AllFit (o ∷ os) t = Fits o t × AllFit os (effect o t)

-- The variables of a device that can take an operation, and shows no error to the host.
pub record IsFree (address : ℕ) (d : Dfu) : Type 0 where
  pub state : (d.context.state ≡ idle) ⊎ (d.context.state ≡ dnload_idle)
  pub status : d.context.status ≡ ok
  pub pointer : d.dfuse_address_ptr ≡ address
  pub pending : d.dfuse_cmd_pending ≡ 0
  pub size : length d.dfu_buffer ≡ 1024

module _ {D : Type 0} (flash : FlashPort D) where
  -- The device is what the host reckons with.
  pub record Meets (t : Target) (d : Dfu) (f : D) : Type 0 where
    pub free : IsFree t.pointer d
    pub rested : IsRested flash f
    pub same : (x : ℕ) → flash.byte f x ≡ t.memory x

pub le32_arg : (c a : ℕ) → a < 2 ^ 32 → command_arg (c ∷ le32 a) ≡ a
le32_arg c a h = omega arith
