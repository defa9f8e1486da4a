-- ===== src/Bridge/Jpeg/Total.antt =====
-- services/camera-edge-bridge/src/jpeg.rs: the scan ends on every input, and reads within bounds.
use scrap_monitoring_simulat.Prelude.{
  ℕ, zero, suc, ◌+◌, ◌-◌, ◌*◌, ◌≤◌, ◌<◌, ◌≡◌, refl, true, List, [], ◌∷◌, arith, length, drop,
  length-drop, get_or, ◌==◌,
}
use scrap_monitoring_simulat.Bridge.Jpeg.{
  Scan, ok, err, panicked, stuck, read, read_u16, skip_fill, frame_segment, segment, marker_found,
  scan, dimensions, validate_jpeg,
}

-- The scan ended with dimensions or with an error of its own.
abbrev pub Ends {ℓ} : {A : Type ℓ} → Scan A → Type 0
Ends (ok a) = Unit
Ends (err e) = Unit
Ends panicked = ⊥
Ends stuck = ⊥

pub read-ok : (bytes : List ℕ) (i : ℕ) → i < length bytes → read bytes i ≡ ok (get_or bytes i 0)
unfolding read
read-ok [] i h = absurd (omega arith)
read-ok (b ∷ bytes) zero h = refl
read-ok (b ∷ bytes) (suc i) h = read-ok bytes i (omega arith)

pub read_u16-ok :
    (bytes : List ℕ) (i : ℕ)
    → i + 1 < length bytes
    → read_u16 bytes i ≡ ok (get_or bytes i 0 * 256 + get_or bytes (i + 1) 0)
unfolding read_u16
read_u16-ok bytes i h = rw (read-ok bytes i (omega arith), read-ok bytes (i + 1) h) refl

frame_segment-Ends : (n : ℕ) (bytes : List ℕ) → n ≤ length bytes → Ends (frame_segment n bytes)
unfolding frame_segment
frame_segment-Ends n bytes h = ground (arith, read_u16-ok bytes 3, read_u16-ok bytes 5)

-- A round ends if the next one does, on any shorter input.
module _ (next : List ℕ → Scan (ℕ × ℕ)) (n : ℕ)
    (shorter : (bytes : List ℕ) → length bytes < n → Ends (next bytes)) where
  segment-Ends : (marker : ℕ) (bytes : List ℕ) → length bytes < n → Ends (segment next marker bytes)
  unfolding segment
  segment-Ends marker bytes h = ground (
    arith,
    read_u16-ok bytes 0,
    frame_segment-Ends (get_or bytes 0 0 * 256 + get_or bytes 1 0) bytes,
    shorter (drop (get_or bytes 0 0 * 256 + get_or bytes 1 0) bytes),
    length-drop (get_or bytes 0 0 * 256 + get_or bytes 1 0) bytes,
  )

  marker_found-Ends : (bytes : List ℕ) → length bytes < n → Ends (marker_found next bytes)
  unfolding marker_found
  marker_found-Ends [] h = tt
  marker_found-Ends (marker ∷ bytes) h =
      ground (arith, shorter bytes (omega arith), segment-Ends marker bytes (omega arith))

length-skip_fill : (bytes : List ℕ) → length (skip_fill bytes) ≤ length bytes
unfolding skip_fill
length-skip_fill [] = omega arith
length-skip_fill (b ∷ bytes) = ground (arith, length-skip_fill bytes)

skip_fill-shorter :
    (bytes : List ℕ)
    → (get_or bytes 0 0 == 0xff) ≡ true
    → length (skip_fill bytes) ≤ length bytes - 1
unfolding skip_fill
skip_fill-shorter [] h = omega arith
skip_fill-shorter (b ∷ bytes) h = ground (arith, length-skip_fill bytes)

scan-Ends : (fuel : ℕ) (bytes : List ℕ) → length bytes < fuel → Ends (scan fuel bytes)
unfolding scan
scan-Ends zero bytes h = absurd (omega arith)
scan-Ends (suc fuel) bytes h = ground (
  arith,
  read-ok bytes 0,
  skip_fill-shorter bytes,
  marker_found-Ends (scan fuel) fuel (scan-Ends fuel) (skip_fill bytes),
)

-- Over every frame, whatever its bytes and its length, `validate_jpeg` ends with an answer of its
-- own: the scan needs no more rounds than the frame has bytes, and reads no byte out of bounds.
pub validate_jpeg-Ends : (frame : List ℕ) → Ends (validate_jpeg frame)
unfolding validate_jpeg dimensions
validate_jpeg-Ends frame =
    ground (arith, scan-Ends (length frame) (drop 2 frame), length-drop 2 frame)
