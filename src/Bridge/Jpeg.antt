-- ===== src/Bridge/Jpeg.antt =====
-- services/camera-edge-bridge/src/jpeg.rs: `validate_jpeg`, which looks for the dimensions of a frame
-- without decoding it. The scan goes over `frame[index..]`, the bytes that are left; a byte is read
-- by `get_elem?`, and `panicked` is a read out of bounds. The loop takes fuel, and `stuck` is no
-- outcome of the source: it stands for fuel that ran out.
pub mod Grammar
pub mod Found
pub mod Header
pub mod Total
use scrap_monitoring_simulat.Prelude.{
  ℕ, zero, suc, ◌+◌, ◌-◌, ◌*◌, Bool, true, false, ◌&&◌, ◌||◌, not, Option, none, some, List, [],
  ◌∷◌, ◌==◌, ltb, leb, if◌then◌else◌, length, get_elem?, take, drop,
}
use scrap_monitoring_simulat.Bridge.Limits.{frame_width, frame_height, max_frame_bytes}

pub data JpegError : Type 0 where
  frame_too_large no_soi_or_eoi invalid_marker stuffed_byte truncated_length invalid_length :
      JpegError
  truncated_start_of_frame zero_dimensions no_start_of_frame wrong_dimensions : JpegError

pub data Scan {ℓ} (A : Type ℓ) : Type ℓ where
  ok : A → Scan A
  err : JpegError → Scan A
  panicked stuck : Scan A

infixl 5 ◌>>=◌
abbrev pub ◌>>=◌ {ℓ κ} : {A : Type ℓ} {B : Type κ} → Scan A → (A → Scan B) → Scan B
ok a >>= f = f a
err e >>= f = err e
panicked >>= f = panicked
stuck >>= f = stuck

-- `bytes[i]`.
unfoldable pub read : List ℕ → ℕ → Scan ℕ
read bytes i = elim (get_elem? bytes i) [ none ↦ panicked | some b ↦ ok b ]

-- `u16::from_be_bytes([bytes[i], bytes[i + 1]])`.
unfoldable pub read_u16 : List ℕ → ℕ → Scan ℕ
read_u16 bytes i = do high ← read bytes i; low ← read bytes (i + 1); ok (high * 256 + low)

unfoldable pub is_start_of_frame : ℕ → Bool
is_start_of_frame marker =
    (leb 0xc0 marker && leb marker 0xc3)
    || (leb 0xc5 marker && leb marker 0xc7)
    || (leb 0xc9 marker && leb marker 0xcb)
    || (leb 0xcd marker && leb marker 0xcf)

-- The markers that stand alone, with no length behind them.
unfoldable pub is_standalone : ℕ → Bool
is_standalone marker = marker == 0xd8 || marker == 0x01 || (leb 0xd0 marker && leb marker 0xd7)

-- The inner loop, over fill bytes.
unfoldable pub skip_fill : List ℕ → List ℕ
skip_fill [] = []
skip_fill (b ∷ bytes) = if b == 0xff then skip_fill bytes else b ∷ bytes

-- The width and the height in a start-of-frame segment.
unfoldable pub frame_segment : ℕ → List ℕ → Scan (ℕ × ℕ)
frame_segment segment_length bytes =
    if ltb segment_length 8 then err truncated_start_of_frame else (do
      height ← read_u16 bytes 3
      width ← read_u16 bytes 5
      if width == 0 || height == 0 then err zero_dimensions else ok (width, height))

-- The rest of a round behind a marker that has a length; `next` is the next round.
unfoldable pub segment : (List ℕ → Scan (ℕ × ℕ)) → ℕ → List ℕ → Scan (ℕ × ℕ)
segment next marker bytes = if ltb (length bytes) 2 then err truncated_length else (do
  segment_length ← read_u16 bytes 0
  if ltb segment_length 2 || ltb (length bytes) segment_length
      then err invalid_length
      else if is_start_of_frame marker
      then frame_segment segment_length bytes
      else if marker == 0xda
      then err no_start_of_frame
      else next (drop segment_length bytes))

-- The rest of a round behind the fill bytes.
unfoldable pub marker_found : (List ℕ → Scan (ℕ × ℕ)) → List ℕ → Scan (ℕ × ℕ)
marker_found next [] = err no_start_of_frame
marker_found next (marker ∷ bytes) =
    if marker == 0x00
    then err stuffed_byte
    else if marker == 0xd9
    then err no_start_of_frame
    else if is_standalone marker
    then next bytes
    else segment next marker bytes

-- `while index < frame.len() - 1`.
unfoldable pub scan : ℕ → List ℕ → Scan (ℕ × ℕ)
scan zero bytes = stuck
scan (suc fuel) bytes = if ltb (length bytes) 2 then err no_start_of_frame else (do
  b ← read bytes 0
  if not (b == 0xff) then err invalid_marker else marker_found (scan fuel) (skip_fill bytes))

-- Each round takes two bytes at least.
unfoldable pub dimensions : List ℕ → Scan (ℕ × ℕ)
dimensions frame = scan (length frame) (drop 2 frame)

unfoldable pub starts_with_soi : List ℕ → Bool
starts_with_soi (a ∷ b ∷ bytes) = a == 0xff && b == 0xd8
starts_with_soi bytes = false

unfoldable pub ends_with_eoi : List ℕ → Bool
ends_with_eoi frame = elim (drop (length frame - 2) frame) [
  | a ∷ b ∷ bytes ↦ a == 0xff && b == 0xd9
  | _ ↦ false
]

unfoldable pub validate_jpeg : List ℕ → Scan (Unit {0})
validate_jpeg frame =
    if ltb max_frame_bytes (length frame)
    then err frame_too_large
    else if ltb (length frame) 4 || not (starts_with_soi frame) || not (ends_with_eoi frame)
    then err no_soi_or_eoi
    else (do
      (width, height) ← dimensions frame
      if not (width == frame_width) || not (height == frame_height)
          then err wrong_dimensions
          else ok tt)
