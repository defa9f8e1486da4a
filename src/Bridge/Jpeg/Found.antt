-- ===== src/Bridge/Jpeg/Found.antt =====
-- services/camera-edge-bridge/src/jpeg.rs: the scan on a frame that follows the grammar.
use scrap_monitoring_simulat.Prelude.{
  ℕ, zero, suc, ◌≤◌, ◌<◌, ◌≡◌, ◌≢◌, List, ◌∷◌, arith, length, drop, length-drop,
}
use scrap_monitoring_simulat.Bridge.Jpeg.{
  Scan, ok, read, skip_fill, frame_segment, segment, marker_found, scan,
}
use scrap_monitoring_simulat.Bridge.Jpeg.Total.{read_u16-ok}
use scrap_monitoring_simulat.Bridge.Jpeg.Grammar.{
  big_endian, IsStandalone, IsStartOfFrame, IsOther, HasFrame, fill, alone, skipped, found,
  is_standalone-true, standalone-is_standalone, is_start_of_frame-true, frame-is_start_of_frame,
}

module _ (w h : ℕ) where
  found-frame_segment :
      (bytes : List ℕ)
      → 8 ≤ big_endian bytes 0
      → big_endian bytes 0 ≤ length bytes
      → h ≡ big_endian bytes 3
      → w ≡ big_endian bytes 5
      → 0 < h
      → 0 < w
      → frame_segment (big_endian bytes 0) bytes ≡ ok (w, h)
  unfolding frame_segment
  found-frame_segment bytes long fits high wide h_positive w_positive =
      ground (arith, read_u16-ok bytes 3, read_u16-ok bytes 5)

  found-segment :
      (next : List ℕ → Scan (ℕ × ℕ)) (marker : ℕ) (bytes : List ℕ)
      → IsStartOfFrame marker
      → 8 ≤ big_endian bytes 0
      → big_endian bytes 0 ≤ length bytes
      → frame_segment (big_endian bytes 0) bytes ≡ ok (w, h)
      → segment next marker bytes ≡ ok (w, h)
  unfolding segment
  found-segment next marker bytes s long fits e =
      ground (arith, read_u16-ok bytes 0, frame-is_start_of_frame marker s)

  found-marker_found :
      (next : List ℕ → Scan (ℕ × ℕ)) (marker : ℕ) (bytes : List ℕ)
      → IsStartOfFrame marker
      → segment next marker bytes ≡ ok (w, h)
      → marker_found next (marker ∷ bytes) ≡ ok (w, h)
  unfolding marker_found
  found-marker_found next marker bytes s e = ground (arith, is_standalone-true marker)

  alone-marker_found :
      (next : List ℕ → Scan (ℕ × ℕ)) (marker : ℕ) (bytes : List ℕ)
      → IsStandalone marker
      → next bytes ≡ ok (w, h)
      → marker_found next (marker ∷ bytes) ≡ ok (w, h)
  unfolding marker_found
  alone-marker_found next marker bytes s e = ground (arith, standalone-is_standalone marker s)

  skipped-marker_found :
      (next : List ℕ → Scan (ℕ × ℕ)) (marker : ℕ) (bytes : List ℕ)
      → IsOther marker
      → 2 ≤ big_endian bytes 0
      → big_endian bytes 0 ≤ length bytes
      → next (drop (big_endian bytes 0) bytes) ≡ ok (w, h)
      → marker_found next (marker ∷ bytes) ≡ ok (w, h)
  unfolding marker_found segment
  skipped-marker_found next marker bytes o long fits e = ground (
    arith,
    read_u16-ok bytes 0,
    is_standalone-true marker,
    is_start_of_frame-true marker,
    o.not_alone,
    o.not_frame,
    o.not_stuffed,
    o.not_end,
    o.not_scan,
  )

  scan-marker_found :
      (fuel : ℕ) (marker : ℕ) (bytes : List ℕ)
      → marker ≢ 0xff
      → marker_found (scan fuel) (marker ∷ bytes) ≡ ok (w, h)
      → scan (suc fuel) (0xff ∷ marker ∷ bytes) ≡ ok (w, h)
  unfolding scan read skip_fill
  scan-marker_found fuel marker bytes filled e = ground arith

  scan-fill :
      (fuel : ℕ) (bytes : List ℕ)
      → scan (suc fuel) (0xff ∷ bytes) ≡ ok (w, h)
      → scan (suc fuel) (0xff ∷ 0xff ∷ bytes) ≡ ok (w, h)
  unfolding scan read skip_fill
  scan-fill fuel bytes e = ground arith

  pub HasFrame-scan :
      (fuel : ℕ) (bytes : List ℕ)
      → length bytes < fuel
      → HasFrame w h bytes
      → scan fuel bytes ≡ ok (w, h)
  HasFrame-scan zero bytes enough f = absurd (omega arith)
  HasFrame-scan (suc fuel) _ enough (fill bytes f) =
      scan-fill fuel bytes (HasFrame-scan (suc fuel) (0xff ∷ bytes) (omega arith) f)
  HasFrame-scan (suc fuel) _ enough (alone marker bytes s f) =
      scan-marker_found fuel marker bytes (λ z. ground arith)
        (alone-marker_found (scan fuel) marker bytes s (HasFrame-scan fuel bytes (omega arith) f))
  HasFrame-scan (suc fuel) _ enough (skipped marker bytes o long fits f) =
      scan-marker_found fuel marker bytes o.not_fill (
        skipped-marker_found (scan fuel) marker bytes o long fits (
          HasFrame-scan fuel (drop (big_endian bytes 0) bytes)
            (omega (arith, length-drop {0} (big_endian bytes 0) bytes)) f))
  HasFrame-scan (suc fuel) _ enough (found marker bytes s long fits high wide hp wp) =
      scan-marker_found fuel marker bytes (λ z. ground arith)
        (found-marker_found (scan fuel) marker bytes s (
          found-segment (scan fuel) marker bytes s (omega arith) fits
            (found-frame_segment bytes long fits high wide hp wp)))
