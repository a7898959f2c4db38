-- ===== src/Lib.antt =====
-- The Nova Voyager bootloader: a USB DFU (DfuSe) bootloader for an STM32F103 or GD32F303, which a
-- host uses to erase, write and read the application's flash.
--
-- The program's parts and the files about them:
-- - Usb.Regs, Usb.Pma: include/usb_regs.h and pma_write, pma_read of src/usb_dfu.c. The peripheral's
--   registers are a record, and its packet memory is a function from the displacement at which the
--   CPU sees a half-word. What the silicon makes of a write to USB_EP0R or USB_ISTR is a parameter,
--   `UsbPort`, and IsEndpointRegister states what the reference manual says of it.
-- - Usb.Descriptors, Usb.Lookup: the descriptor arrays of src/usb_dfu.c and the lookup of
--   handle_get_descriptor.
-- - Usb.Ep0: ep_set_tx_status, ep_set_rx_status, ep0_tx_chunk, ep0_send, ep0_send_zlp, ep0_stall and
--   handle_ep0_in of src/usb_dfu.c. Its state, Ep0, holds the peripheral and the static variables of
--   the in-flight transfer; a C pointer is a value of Ptr.
-- - Usb.Init: usb_init of src/usb_dfu.c.
-- - Dfu.State, Dfu.Status, Dfu.Requests: the DFU state machine of src/usb_dfu.c and include/usb_dfu.h,
--   with one function for each class request. handle_dfu_getstatus executes pending work.
-- - Dfu.Dispatch: handle_setup, handle_ep0_out, usb_reset and usb_poll of src/usb_dfu.c. A device is
--   the DFU variables, endpoint 0 and the flash; each handler maps a device to a device.
-- - Dfu.Download, Dfu.Transfer, Dfu.Commands, Dfu.Stale, Dfu.Partial: a block from its request over its
--   data stage to the flash, through the handlers.
-- - Dfu.Image: the blocks of an image; Dfu.Upload: an UPLOAD from its request to what the host reads;
--   Dfu.RoundTrip: a download read back.
-- - Dfu.Bus: the DFU half as a machine that takes the events on the bus and has no endpoint 0.
--   Dfu.Host: what a host does to program the flash, as events, and the memory that it reckons with.
--   Its child modules are about one operation, a session of them, how a host starts, the end of an
--   update, operations outside the application region, and reading back. Between the events of a
--   session may lie what does not matter to the DFU half, such as the empty packet that ends every
--   control read.
-- - Dfu.Replies: GET_DESCRIPTOR and GETSTATUS, from the request to what the host reads.
-- - Dfu.Edges: the state machine as a table of edges; Dfu.Address: SET_ADDRESS; Dfu.Layout: the memory
--   layout string, read as a host reads it.
-- - Dfu.Session: dfu_init, and the relation of the devices that polls reach. Between two polls the host
--   may set the peripheral's registers and packet memory to anything.
-- - Flash.Region, Flash.Port, Flash.Ops: include/flash_if.h and src/flash_if.c. The controller is
--   hardware, a parameter `FlashPort`: a volatile read has a value and leaves a new state, since time
--   passes. Flash.Controller states what the documentation excludes, IsController; Flash.Working what
--   it promises of a controller without errors and write protection, IsWorking. Flash.Holding carries
--   the latter through the primitives, Flash.Program and Flash.Erase through the two operations, and
--   Flash.Unaligned is about a write that does not return.
-- - Flash.Options: wrp_is_clear and flash_disable_write_protection of src/flash_if.c; Flash.OptionLog
--   records its stores, Flash.OptionBytes states what the documentation promises of the option bytes
--   and follows it through the rewrite, Flash.Settled is about running it twice, and Flash.Unprotected
--   about a device on which it has nothing to do.
-- - Flash.Interface: the calls that src/usb_dfu.c makes on the flash, which the DFU half takes as a
--   parameter, and which Flash.Confined fills with the operations of Flash.Ops.
-- - Boot.App, Boot.Entry, Boot.Loop: app_valid, gpio_init and the entry decision of main in
--   src/main.c, and the loop of run_dfu_mode around usb_poll. What the pins read and the top of the
--   stack, a symbol of the linker, are parameters.
-- - Boot.Manifest: from the last DNLOAD to the reset, in rounds of that loop; Boot.Update: a whole
--   firmware update in that loop.
-- - Boot.Clock: rcc_wait, hse_start, clock_fallback_hsi and clock_init of src/main.c. The clock
--   registers are a parameter, `ClockPort`, of which Boot.Clock.State states the documented behaviour,
--   IsClock; USE_120MHZ and HSE_FAIL_TEST are the fields of a Build.
-- - Boot.Startup: the vector table and Reset_Handler of src/main.c, with the symbols of bootloader.ld.
-- - Boot.Main: boot_app_or_stop, jump_to_app, run_dfu_mode and main of src/main.c. A System is all that
--   a boot touches, and a boot ends in the application, in a stop, in a reset, or in the DFU loop.
-- - Base: the words, tests, arrays and bit operations of C that all parts share.
-- - Usb.Sim, Flash.Sim, Flash.OptionSim, Boot.Clock.Sim: a concrete endpoint register, flash
--   controllers and clock for the runs in the Tests modules.
--
-- Words are native numbers with the wrap-around written out. flash_wait, the only loop whose end
-- depends on hardware, runs on fuel: one more than the number of further reads of FLASH_SR for
-- which the controller can stay busy, which FlashPort bounds; rcc_wait runs on its own bound. A
-- pointer read past its array gives 0. The delay loops have no effect. The USB reset inside a poll
-- and the handling of a packet are single steps: the host does not act during a handler.
--
-- Not modelled: Default_Handler of src/main.c, which only loops, include/stm32f1xx.h, which nothing
-- includes, the host tests, and the build scripts. The loops of Reset_Handler run on fuel: one
-- round for each word of a section is enough. flash_write of an odd address hangs
-- the program: it takes a bus fault, whose handler is Default_Handler. Flash.Unaligned is about it, but
-- flash_of counts it as a failure, so that above the flash the model runs on where the program does
-- not. What is stated of every state that a device reaches holds of the program all the same; the
-- theorems that say what a host gets for its writes have even addresses.
pub mod Base
pub mod Usb
pub mod Flash
pub mod Dfu
pub mod Boot
