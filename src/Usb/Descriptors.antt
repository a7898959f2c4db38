-- ===== src/Usb/Descriptors.antt =====
-- The descriptors of src/usb_dfu.c, and the lookup of handle_get_descriptor.
use nova_voyager_bootloader.Base.{
  ℕ, ◌/◌, ◌%◌, Option, none, some, List, [], ◌∷◌, ◌==◌, if◌then◌else◌,
}

abbrev pub ep0_max_size : ℕ
ep0_max_size = 64

abbrev pub dfu_xfer_size : ℕ
dfu_xfer_size = 1024

abbrev pub usb_desc_type_device : ℕ
usb_desc_type_device = 0x01

abbrev pub usb_desc_type_configuration : ℕ
usb_desc_type_configuration = 0x02

abbrev pub usb_desc_type_string : ℕ
usb_desc_type_string = 0x03

abbrev pub usb_desc_type_interface : ℕ
usb_desc_type_interface = 0x04

abbrev pub usb_desc_type_dfu_functional : ℕ
usb_desc_type_dfu_functional = 0x21

abbrev pub usb_vid : ℕ
usb_vid = 0x0483

abbrev pub usb_pid : ℕ
usb_pid = 0xDF11

abbrev pub device_descriptor : List ℕ
device_descriptor =
    18
    ∷ usb_desc_type_device
    ∷ 0x00
    ∷ 0x02
    ∷ 0x00
    ∷ 0x00
    ∷ 0x00
    ∷ ep0_max_size
    ∷ (usb_vid % 256)
    ∷ (usb_vid / 256)
    ∷ (usb_pid % 256)
    ∷ (usb_pid / 256)
    ∷ 0x00
    ∷ 0x02
    ∷ 1
    ∷ 2
    ∷ 3
    ∷ 1
    ∷ []

-- DFU_ATTR_CAN_DNLOAD | DFU_ATTR_CAN_UPLOAD | DFU_ATTR_MANIFESTATION_TOL
abbrev pub dfu_attributes : ℕ
dfu_attributes = 0x07

abbrev pub config_descriptor : List ℕ
config_descriptor =
    9
    ∷ usb_desc_type_configuration
    ∷ 27
    ∷ 0
    ∷ 1
    ∷ 1
    ∷ 0
    ∷ 0x80
    ∷ 50
    ∷ 9
    ∷ usb_desc_type_interface
    ∷ 0
    ∷ 0
    ∷ 0
    ∷ 0xFE
    ∷ 0x01
    ∷ 0x02
    ∷ 4
    ∷ 9
    ∷ usb_desc_type_dfu_functional
    ∷ dfu_attributes
    ∷ 0xFF
    ∷ 0x00
    ∷ (dfu_xfer_size % 256)
    ∷ (dfu_xfer_size / 256)
    ∷ 0x1A
    ∷ 0x01
    ∷ []

-- The characters of a string descriptor, each widened to two bytes.
abbrev pub widen : List ℕ → List ℕ
widen [] = []
widen (c ∷ cs) = c ∷ 0 ∷ widen cs

-- English
abbrev pub string0 : List ℕ
string0 = 4 ∷ usb_desc_type_string ∷ 0x09 ∷ 0x04 ∷ []

-- "Teknatool"
abbrev pub string1 : List ℕ
string1 =
    20
    ∷ usb_desc_type_string
    ∷ widen (b'T' ∷ b'e' ∷ b'k' ∷ b'n' ∷ b'a' ∷ b't' ∷ b'o' ∷ b'o' ∷ b'l' ∷ [])

-- "Nova Voyager"
abbrev pub string2 : List ℕ
string2 =
    26
    ∷ usb_desc_type_string
    ∷ widen (b'N' ∷ b'o' ∷ b'v' ∷ b'a' ∷ b' ' ∷ b'V' ∷ b'o' ∷ b'y' ∷ b'a' ∷ b'g' ∷ b'e' ∷ b'r' ∷ [])

-- "0001"
abbrev pub string3 : List ℕ
string3 = 10 ∷ usb_desc_type_string ∷ widen (b'0' ∷ b'0' ∷ b'0' ∷ b'1' ∷ [])

-- "@Flash/0x08003000/121*2Kg", the DfuSe memory layout
abbrev pub memory_layout : List ℕ
memory_layout =
    b'@' ∷ b'F' ∷ b'l' ∷ b'a' ∷ b's' ∷ b'h' ∷ b'/' ∷ b'0' ∷ b'x' ∷ b'0' ∷ b'8' ∷ b'0' ∷ b'0' ∷ b'3'
    ∷ b'0' ∷ b'0' ∷ b'0' ∷ b'/' ∷ b'1' ∷ b'2' ∷ b'1' ∷ b'*' ∷ b'2' ∷ b'K' ∷ b'g' ∷ []

abbrev pub string4 : List ℕ
string4 = 52 ∷ usb_desc_type_string ∷ widen memory_layout

-- The inner `switch (index)`.
pub string_descriptor : ℕ → Option (List ℕ)
string_descriptor index =
    if index == 0
    then some string0
    else if index == 1
    then some string1
    else if index == 2
    then some string2
    else if index == 3
    then some string3
    else if index == 4
    then some string4
    else none

-- The `switch (type)` of handle_get_descriptor: the array that `desc` and `desc_len` name.
unfoldable pub find_descriptor : ℕ → Option (List ℕ)
unfolding string_descriptor
find_descriptor value =
    let type = value / 256 in
    let index = value % 256 in
    if type == usb_desc_type_device
    then some device_descriptor
    else if type == usb_desc_type_configuration
    then some config_descriptor
    else if type == usb_desc_type_string
    then string_descriptor index
    else none
