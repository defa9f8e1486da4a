-- ===== src/Bridge/Jpeg/Grammar.antt =====
-- services/camera-edge-bridge/src/jpeg.rs: the grammar of the segments of a JPEG, up to the frame.
use scrap_monitoring_simulat.Prelude.{
  ℕ, ◌+◌, ◌*◌, ◌≤◌, ◌<◌, ◌≡◌, ◌≢◌, ◌⊎◌, true, List, ◌∷◌, arith, length, drop, get_or,
}
use scrap_monitoring_simulat.Bridge.Jpeg.{is_start_of_frame, is_standalone}

-- `u16::from_be_bytes` at an index.
abbrev pub big_endian : List ℕ → ℕ → ℕ
big_endian bytes i = get_or bytes i 0 * 256 + get_or bytes (i + 1) 0

-- SOI, TEM and the restart markers, which stand alone.
abbrev pub IsStandalone : ℕ → Type 0
IsStandalone marker = (marker ≡ 0xd8) ⊎ (marker ≡ 0x01) ⊎ ((0xd0 ≤ marker) × (marker ≤ 0xd7))

-- The sixteen markers from SOF0 on, but DHT, JPG and DAC.
abbrev pub IsStartOfFrame : ℕ → Type 0
IsStartOfFrame marker =
    (0xc0 ≤ marker) × (marker ≤ 0xcf) × (marker ≢ 0xc4) × (marker ≢ 0xc8) × (marker ≢ 0xcc)

-- A segment that may stand before the frame: it has a length, and is neither a frame nor a scan (0xda);
-- a stuffed byte (0x00), a fill byte (0xff) and the end of the image (0xd9) are no segments.
pub record IsOther (marker : ℕ) : Type 0 where
  pub not_frame : ¬ IsStartOfFrame marker
  pub not_alone : ¬ IsStandalone marker
  pub not_stuffed : marker ≢ 0x00
  pub not_end : marker ≢ 0xd9
  pub not_scan : marker ≢ 0xda
  pub not_fill : marker ≢ 0xff

-- The segments of a JPEG behind the start of the image, up to the start of the frame: markers that
-- stand alone, other markers with a segment of the length they name, and then a start-of-frame segment
-- that holds the height and the width, neither of them zero. 0xff may be repeated before a marker.
pub data HasFrame (width height : ℕ) : List ℕ → Type 0 where
  fill :
      (bytes : List ℕ)
      → HasFrame width height (0xff ∷ bytes)
      → HasFrame width height (0xff ∷ 0xff ∷ bytes)
  alone :
      (marker : ℕ) (bytes : List ℕ)
      → IsStandalone marker
      → HasFrame width height bytes
      → HasFrame width height (0xff ∷ marker ∷ bytes)
  skipped :
      (marker : ℕ) (bytes : List ℕ)
      → IsOther marker
      → 2 ≤ big_endian bytes 0
      → big_endian bytes 0 ≤ length bytes
      → HasFrame width height (drop (big_endian bytes 0) bytes)
      → HasFrame width height (0xff ∷ marker ∷ bytes)
  found :
      (marker : ℕ) (bytes : List ℕ)
      → IsStartOfFrame marker
      → 8 ≤ big_endian bytes 0
      → big_endian bytes 0 ≤ length bytes
      → height ≡ big_endian bytes 3
      → width ≡ big_endian bytes 5
      → 0 < height
      → 0 < width
      → HasFrame width height (0xff ∷ marker ∷ bytes)

pub is_standalone-true : (marker : ℕ) → is_standalone marker ≡ true → IsStandalone marker
unfolding is_standalone
is_standalone-true marker h = ground arith

pub standalone-is_standalone : (marker : ℕ) → IsStandalone marker → is_standalone marker ≡ true
unfolding is_standalone
standalone-is_standalone marker h = ground arith

pub is_start_of_frame-true : (marker : ℕ) → is_start_of_frame marker ≡ true → IsStartOfFrame marker
unfolding is_start_of_frame
is_start_of_frame-true marker h = ground arith

pub frame-is_start_of_frame : (marker : ℕ) → IsStartOfFrame marker → is_start_of_frame marker ≡ true
unfolding is_start_of_frame
frame-is_start_of_frame marker h = ground arith
