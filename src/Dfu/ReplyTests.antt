-- ===== src/Dfu/ReplyTests.antt =====
-- GET_DESCRIPTOR and GETSTATUS on a concrete device.
use nova_voyager_bootloader.Base.{◌≡◌, refl, [], ◌∷◌}
use nova_voyager_bootloader.Usb.Sim.{silicon, silicon-IsEndpointRegister}
use nova_voyager_bootloader.Base.{some}
use nova_voyager_bootloader.Usb.Descriptors.{device_descriptor, find_descriptor}
use nova_voyager_bootloader.Dfu.Dispatch.{handle_request}
use nova_voyager_bootloader.Dfu.Status.{getstatus_transition}
use nova_voyager_bootloader.Dfu.Host.{getstatus_packet}
use nova_voyager_bootloader.Dfu.Replies.{
  descriptor_packet, Answers, Reads, handle_request-Answers, handle_request-Reads,
}
use nova_voyager_bootloader.Dfu.TestData.{flash, ready}

-- 18 of the 255 bytes asked for of the device descriptor.
handle_request-Answers_example :
    let w = handle_request flash silicon (descriptor_packet 0x100 255) ready in
    (w.dfu ≡ ready.dfu)
    × (w.flash ≡ ready.flash)
    × Answers flash silicon 255 (some device_descriptor) w
unfolding find_descriptor
handle_request-Answers_example =
    handle_request-Answers flash silicon silicon-IsEndpointRegister 0x100 255 ready

handle_request-Reads_example :
    let w = handle_request flash silicon getstatus_packet ready in
    (w.dfu ≡ ready.dfu)
    × (w.flash ≡ ready.flash)
    × Reads flash silicon w 6 (0 ∷ 0 ∷ 0 ∷ 0 ∷ 2 ∷ 0 ∷ [])
unfolding getstatus_transition
handle_request-Reads_example =
    handle_request-Reads flash silicon silicon-IsEndpointRegister ready refl
