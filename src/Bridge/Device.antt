-- ===== src/Bridge/Device.antt =====
-- services/camera-edge-bridge/src/device.rs: the checks on a V4L2 device and the write of a frame.
-- What the kernel answers to an `ioctl`, an `open` or a `write` is a parameter. The host is little
-- endian, so `from_ne_bytes` is `from_le_bytes`. The shifts of `ioctl_number` are products.
use scrap_monitoring_simulat.Prelude.{
  ℕ, ◌+◌, ◌*◌, ◌%◌, get_or, take, drop, ◌⊎◌, ◌^◌, ◌≡◌, ◌≢◌, ◌↔◌, arith, bit_and, bit_or, Bool, true,
  false, ◌||◌, not, Option-cases, inl, inr, Option, none, some, List, [], ◌∷◌, ◌==◌, if◌then◌else◌,
  length, slice, from_le_bytes, leb, le_bytes, map,
}
use scrap_monitoring_simulat.Bridge.Limits.{frame_width, frame_height}

abbrev pub v4l2_cap_video_output : ℕ
v4l2_cap_video_output = 0x00000002

abbrev pub v4l2_cap_readwrite : ℕ
v4l2_cap_readwrite = 0x01000000

abbrev pub v4l2_cap_device_caps : ℕ
v4l2_cap_device_caps = 0x80000000

-- `u32::from_le_bytes(*b"MJPG")`.
abbrev pub v4l2_pix_fmt_mjpeg : ℕ
v4l2_pix_fmt_mjpeg = from_le_bytes (77 ∷ 74 ∷ 80 ∷ 71 ∷ [])

-- The size is cast to `u32`, and the shifts drop what goes beyond 32 bits.
unfoldable pub ioctl_number : ℕ → ℕ → ℕ → ℕ → ℕ
ioctl_number direction kind number size =
    bit_or (bit_or (bit_or (direction * 2 ^ 30 % 2 ^ 32) (kind * 2 ^ 8)) number)
      (size % 2 ^ 32 * 2 ^ 16 % 2 ^ 32)

-- `VIDIOC_QUERYCAP`: the structure has 104 bytes.
abbrev pub vidioc_querycap : ℕ
vidioc_querycap = ioctl_number 2 86 0 104

-- `VIDIOC_G_FMT`: the structure has 208 bytes.
abbrev pub vidioc_g_fmt : ℕ
vidioc_g_fmt = ioctl_number 3 86 4 208

-- The fields that the checks read.
pub record V4l2Capability : Type 0 where
  pub capabilities : ℕ
  pub device_caps : ℕ

pub data DeviceError : Type 0 where
  cannot_inspect not_character_device cannot_open not_v4l2 no_output_or_readwrite no_format
        wrong_format :
      DeviceError
  short_write write_failed : DeviceError

pub data Checked : Type 0 where
  valid : Checked
  invalid : DeviceError → Checked

-- `raw_data` of `V4l2Format`.
unfoldable pub width : List ℕ → ℕ
width raw_data = from_le_bytes (slice 0 4 raw_data)

unfoldable pub height : List ℕ → ℕ
height raw_data = from_le_bytes (slice 4 4 raw_data)

unfoldable pub pixel_format : List ℕ → ℕ
pixel_format raw_data = from_le_bytes (slice 8 4 raw_data)

unfoldable pub effective_capabilities : V4l2Capability → ℕ
effective_capabilities c =
    if not (bit_and c.capabilities v4l2_cap_device_caps == 0) then c.device_caps else c.capabilities

unfoldable pub check_format : Option (List ℕ) → Checked
check_format none = invalid no_format
check_format (some raw_data) =
    if not (width raw_data == frame_width)
      || not (height raw_data == frame_height)
      || not (pixel_format raw_data == v4l2_pix_fmt_mjpeg)
    then invalid wrong_format
    else valid

-- The answers of the two `ioctl` calls.
unfoldable pub validate_device : Option V4l2Capability → Option (List ℕ) → Checked
validate_device none format = invalid not_v4l2
validate_device (some c) format =
    if bit_and (effective_capabilities c) v4l2_cap_video_output == 0
      || bit_and (effective_capabilities c) v4l2_cap_readwrite == 0
    then invalid no_output_or_readwrite
    else check_format format

-- What the kernel tells of a path: the metadata, whether `open` succeeds, and the two `ioctl` calls.
pub record Node : Type 0 where
  pub is_char_device : Option Bool
  pub opens : Bool
  pub capability : Option V4l2Capability
  pub format : Option (List ℕ)

unfoldable pub open_device : Node → Checked
open_device node = elim node.is_char_device [
  | none ↦ invalid cannot_inspect
  | some false ↦ invalid not_character_device
  | some true ↦
      if node.opens then validate_device node.capability node.format else invalid cannot_open
]

-- `written` is what `File::write` answers.
unfoldable pub write_frame : Option ℕ → List ℕ → Checked
write_frame none frame = invalid write_failed
write_frame (some written) frame = if written == length frame then valid else invalid short_write

-- A byte that is not graphic is shown as a question mark.
unfoldable pub fourcc : ℕ → List ℕ
fourcc value = map (λ b. if leb 33 b then (if leb b 126 then b else 63) else 63) (le_bytes 4 value)

-- A 32-bit field at the front, its least byte first.
abbrev little_endian : List ℕ → ℕ
little_endian bytes =
    get_or bytes 0 0
    + 256 * get_or bytes 1 0
    + 65536 * get_or bytes 2 0
    + 16777216 * get_or bytes 3 0

-- V4L2_CAP_VIDEO_OUTPUT and V4L2_CAP_READWRITE are set.
abbrev Offers : ℕ → Type 0
Offers capabilities = (bit_and capabilities 0x00000002 ≢ 0) × (bit_and capabilities 0x01000000 ≢ 0)

-- What the driver promises: video output, read and write, for this node if V4L2_CAP_DEVICE_CAPS is set
-- and for the whole device if it is not; and the size and the four letters of the format.
pub record IsUsable (c : V4l2Capability) (raw_data : List ℕ) : Type 0 where
  pub capable :
      ((bit_and c.capabilities 0x80000000 ≢ 0) × Offers c.device_caps)
      ⊎ ((bit_and c.capabilities 0x80000000 ≡ 0) × Offers c.capabilities)
  pub wide : little_endian raw_data ≡ 1920
  pub high : little_endian (drop 4 raw_data) ≡ 1080
  pub is_mjpeg : little_endian (drop 8 raw_data) ≡ 77 + 256 * 74 + 65536 * 80 + 16777216 * 71

from_le_bytes-take : (bytes : List ℕ) → from_le_bytes (take 4 bytes) ≡ little_endian bytes
from_le_bytes-take [] = omega arith
from_le_bytes-take (a ∷ []) = omega arith
from_le_bytes-take (a ∷ b ∷ []) = omega arith
from_le_bytes-take (a ∷ b ∷ c ∷ []) = omega arith
from_le_bytes-take (a ∷ b ∷ c ∷ d ∷ bytes) = omega arith

check_format_iff :
    (raw_data : List ℕ)
    → (check_format (some raw_data) ≡ valid) ↔ (
        (little_endian raw_data ≡ 1920)
        × (little_endian (drop 4 raw_data) ≡ 1080)
        × (little_endian (drop 8 raw_data) ≡ 77 + 256 * 74 + 65536 * 80 + 16777216 * 71))
unfolding check_format width height pixel_format
check_format_iff raw_data =
    let wide = from_le_bytes-take raw_data in
    let high = from_le_bytes-take (drop 4 raw_data) in
    let letters = from_le_bytes-take (drop 8 raw_data) in (λ h. ground arith, λ h. ground arith)

check_none : check_format none ≢ valid
unfolding check_format
check_none h = ground arith

-- The device is accepted exactly if it is a character device that opens, both calls of `ioctl`
-- answer, it has video output and read and write by the capabilities of the node, or by those of the
-- device where the node has none of its own, and its format is MJPG of 1920 by 1080.
pub open_device_iff :
    (node : Node)
    → (open_device node ≡ valid) ↔ (
        (node.is_char_device ≡ some true)
        × (node.opens ≡ true)
        × ((c : V4l2Capability) × (raw_data : List ℕ) × (node.capability ≡ some c)
            × (node.format ≡ some raw_data)
            × IsUsable c raw_data))
unfolding open_device validate_device effective_capabilities
open_device_iff node = elim (Option-cases node.capability) [
  | inl e ↦ ground arith
  | inr (c, e) ↦ elim (Option-cases node.format) [
    | inl k ↦ ground (arith, check_none)
    | inr (raw_data, k) ↦ (
      λ h. (
        ground arith,
        ground arith,
        (c, raw_data, e, k, ground (arith, check_format_iff raw_data)),
      ),
      λ h. ground (arith, check_format_iff raw_data),
    )
  ]
]
