-- ===== src/Dfu/State.antt =====
-- include/usb_dfu.h and the static variables of src/usb_dfu.c.
use nova_voyager_bootloader.Base.{ℕ, Bool, List, ◌==◌}
use nova_voyager_bootloader.Usb.Ep0.{Ep0}

-- DFU_State
pub data DfuState : Type 0 where
  app_idle app_detach idle dnload_sync dnbusy dnload_idle : DfuState
  manifest_sync manifest manifest_wait_reset upload_idle error : DfuState

-- DFU_Status
pub data DfuStatus : Type 0 where
  ok err_target err_file err_write err_erase err_check_erased err_prog err_verify : DfuStatus
  err_address err_notdone err_firmware err_vendor err_usbr err_por err_unknown : DfuStatus
  err_stalledpkt : DfuStatus

abbrev pub state_code : DfuState → ℕ
state_code app_idle = 0
state_code app_detach = 1
state_code idle = 2
state_code dnload_sync = 3
state_code dnbusy = 4
state_code dnload_idle = 5
state_code manifest_sync = 6
state_code manifest = 7
state_code manifest_wait_reset = 8
state_code upload_idle = 9
state_code error = 10

abbrev pub status_code : DfuStatus → ℕ
status_code ok = 0x00
status_code err_target = 0x01
status_code err_file = 0x02
status_code err_write = 0x03
status_code err_erase = 0x04
status_code err_check_erased = 0x05
status_code err_prog = 0x06
status_code err_verify = 0x07
status_code err_address = 0x08
status_code err_notdone = 0x09
status_code err_firmware = 0x0A
status_code err_vendor = 0x0B
status_code err_usbr = 0x0C
status_code err_por = 0x0D
status_code err_unknown = 0x0E
status_code err_stalledpkt = 0x0F

-- `dfu.state == s`
abbrev pub in_state : DfuState → DfuState → Bool
in_state a b = state_code a == state_code b

-- DFU_Context
pub record DfuContext : Type 0 where
  pub state : DfuState
  pub status : DfuStatus
  pub address : ℕ  -- uint32_t
  pub block_num : ℕ  -- uint16_t
  pub xfer_len : ℕ  -- uint16_t
  pub manifest_state : ℕ  -- uint8_t

-- The static variables of the DFU half of the file.
pub record Dfu : Type 0 where
  pub context : DfuContext
  pub dfu_buffer : List ℕ  -- uint8_t[DFU_XFER_SIZE]
  pub dfu_buffer_len : ℕ  -- uint16_t
  pub dfuse_cmd_pending : ℕ  -- uint8_t
  pub dfuse_cmd_has_arg : Bool
  pub dfuse_cmd_arg : ℕ  -- uint32_t
  pub dfuse_address_ptr : ℕ  -- uint32_t

-- All of the file's state, with the USB peripheral and a flash of state `F`.
pub record Device (F : Type 0) : Type 0 where
  pub dfu : Dfu
  pub ep0 : Ep0
  pub flash : F

abbrev pub dfuse_cmd_set_address : ℕ
dfuse_cmd_set_address = 0x21

abbrev pub dfuse_cmd_erase_page : ℕ
dfuse_cmd_erase_page = 0x41

abbrev pub app_start_address : ℕ
app_start_address = 0x08003000

-- `dfu.state = s`
abbrev pub enter : DfuState → Dfu → Dfu
enter s d = record d { context = record d.context { state = s } }

-- `dfu.status = e; dfu.state = DFU_STATE_ERROR`
abbrev pub fail : DfuStatus → Dfu → Dfu
fail e d = record d { context = record d.context { state = error; status = e } }
