-- ===== src/Bridge/Descriptor.antt =====
-- services/camera-edge-bridge/src/descriptor.rs: the descriptor that opens a stream. Its JSON is
-- read by the crate `serde_json`, which is the parameter `from_str`. A text is the list of its bytes.
use scrap_monitoring_simulat.Prelude.{
  ℕ, ◌≡◌, refl, Bool, true, false, ◌&&◌, ◌||◌, not, Option, none, some, Option-cases, inl, inr,
  List, [], ◌∷◌, ◌==◌, ltb, if◌then◌else◌, ◌≤◌, ◌↔◌, arith, length,
}
use scrap_monitoring_simulat.Bridge.Limits.{
  frame_width, frame_height, frame_rate, max_frame_bytes, max_descriptor_bytes,
}

-- `camera_stream_descriptor`
abbrev pub camera_stream_descriptor : List ℕ
camera_stream_descriptor =
    99 ∷ 97 ∷ 109 ∷ 101 ∷ 114 ∷ 97 ∷ 95 ∷ 115 ∷ 116 ∷ 114 ∷ 101 ∷ 97 ∷ 109 ∷ 95 ∷ 100 ∷ 101 ∷ 115
    ∷ 99 ∷ 114 ∷ 105 ∷ 112 ∷ 116 ∷ 111 ∷ 114 ∷ []

-- `MJPEG`
abbrev pub mjpeg : List ℕ
mjpeg = 77 ∷ 74 ∷ 80 ∷ 69 ∷ 71 ∷ []

pub record StreamDescriptor : Type 0 where
  pub message_type : List ℕ
  pub version : ℕ
  pub format : List ℕ
  pub width : ℕ
  pub height : ℕ
  pub fps : ℕ
  pub max_bytes : ℕ

pub data DescriptorError : Type 0 where
  too_long invalid_json unsupported : DescriptorError

pub data Parsed : Type 0 where
  parsed : StreamDescriptor → Parsed
  rejected : DescriptorError → Parsed

-- `==` on texts.
unfoldable pub same_text : List ℕ → List ℕ → Bool
same_text [] [] = true
same_text [] (b ∷ ys) = false
same_text (a ∷ xs) [] = false
same_text (a ∷ xs) (b ∷ ys) = a == b && same_text xs ys

-- Whether `validate` rejects.
unfoldable pub is_unsupported : StreamDescriptor → Bool
is_unsupported d =
    not (same_text d.message_type camera_stream_descriptor)
    || not (d.version == 1)
    || not (same_text d.format mjpeg)
    || not (d.width == frame_width)
    || not (d.height == frame_height)
    || not (d.fps == frame_rate)
    || not (d.max_bytes == max_frame_bytes)

module _ (from_str : List ℕ → Option StreamDescriptor) where
  unfoldable pub parse_descriptor : List ℕ → Parsed
  parse_descriptor text =
      if ltb max_descriptor_bytes (length text) then rejected too_long else elim (from_str text) [
        | none ↦ rejected invalid_json
        | some d ↦ if is_unsupported d then rejected unsupported else parsed d
      ]

-- The one descriptor of version 1.
abbrev pub version_1 : StreamDescriptor
version_1 = record {
  message_type = camera_stream_descriptor;
  version = 1;
  format = mjpeg;
  width = frame_width;
  height = frame_height;
  fps = frame_rate;
  max_bytes = max_frame_bytes;
}

same_text-eq : (xs ys : List ℕ) → same_text xs ys ≡ true → xs ≡ ys
unfolding same_text
same_text-eq [] [] h = refl
same_text-eq [] (b ∷ ys) h = ground arith
same_text-eq (a ∷ xs) [] h = ground arith
same_text-eq (a ∷ xs) (b ∷ ys) h = ground (arith, same_text-eq xs ys)

is_unsupported-false : (d : StreamDescriptor) → is_unsupported d ≡ false → d ≡ version_1
unfolding is_unsupported
is_unsupported-false d h =
    ground
      (arith, same_text-eq d.message_type camera_stream_descriptor, same_text-eq d.format mjpeg)

supported : is_unsupported version_1 ≡ false
unfolding is_unsupported same_text
supported = refl

-- With any reader of JSON, a text is accepted exactly if it has 4096 bytes at most and the reader
-- gives the one descriptor of version 1, and that descriptor is the answer.
pub parse_descriptor_iff :
    (from_str : List ℕ → Option StreamDescriptor) (text : List ℕ) (d : StreamDescriptor)
    → (parse_descriptor from_str text ≡ parsed d)
      ↔ ((length text ≤ max_descriptor_bytes) × (from_str text ≡ some d) × (d ≡ version_1))
unfolding parse_descriptor
parse_descriptor_iff from_str text d = elim (Option-cases (from_str text)) [
  | inl e ↦ ground arith
  | inr (x, e) ↦ ground (arith, is_unsupported-false x, supported)
]
