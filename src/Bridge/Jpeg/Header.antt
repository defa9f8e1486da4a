-- ===== src/Bridge/Jpeg/Header.antt =====
-- services/camera-edge-bridge/src/jpeg.rs: which frames are accepted, by the grammar of JPEG segments.
use scrap_monitoring_simulat.Prelude.{
  ℕ, zero, suc, ◌-◌, ◌≤◌, ◌≡◌, ◌≢◌, ◌↔◌, refl, subst, true, false, inl, inr, List, [], ◌∷◌, arith,
  length, take, drop, length-drop, Bool-cases, ◌==◌,
}
use scrap_monitoring_simulat.Bridge.Jpeg.{
  Scan, ok, read, skip_fill, frame_segment, segment, marker_found, scan, dimensions, validate_jpeg,
  is_start_of_frame, is_standalone, starts_with_soi, ends_with_eoi,
}
use scrap_monitoring_simulat.Bridge.Jpeg.Total.{read_u16-ok}
use scrap_monitoring_simulat.Bridge.Jpeg.Grammar.{
  HasFrame, fill, alone, skipped, found, is_standalone-true, standalone-is_standalone,
  is_start_of_frame-true, frame-is_start_of_frame,
}
use scrap_monitoring_simulat.Bridge.Jpeg.Found.{HasFrame-scan}

module _ (w h : ℕ) where
  segment-HasFrame :
      (next : List ℕ → Scan (ℕ × ℕ)) (marker : ℕ) (bytes : List ℕ)
      → marker ≢ 0x00
      → marker ≢ 0xd9
      → marker ≢ 0xff
      → is_standalone marker ≡ false
      → ((rest : List ℕ) → next rest ≡ ok (w, h) → HasFrame w h rest)
      → segment next marker bytes ≡ ok (w, h)
      → HasFrame w h (0xff ∷ marker ∷ bytes)
  unfolding segment frame_segment
  segment-HasFrame next marker bytes stuffed last filled shut ih e =
      elim (Bool-cases (is_start_of_frame marker)) [
        | inl s ↦
            found marker bytes (is_start_of_frame-true marker s)
              (ground (arith, read_u16-ok bytes 0, read_u16-ok bytes 3, read_u16-ok bytes 5))
              (ground (arith, read_u16-ok bytes 0))
              (ground (arith, read_u16-ok bytes 0, read_u16-ok bytes 3, read_u16-ok bytes 5))
              (ground (arith, read_u16-ok bytes 0, read_u16-ok bytes 3, read_u16-ok bytes 5))
              (ground (arith, read_u16-ok bytes 0, read_u16-ok bytes 3, read_u16-ok bytes 5))
              (ground (arith, read_u16-ok bytes 0, read_u16-ok bytes 3, read_u16-ok bytes 5))
        | inr s ↦
            skipped marker bytes
              (record {
                not_frame = λ f. ground (arith, frame-is_start_of_frame marker f);
                not_alone = λ a. ground (arith, standalone-is_standalone marker a);
                not_stuffed = stuffed;
                not_end = last;
                not_scan = λ scan. ground (arith, read_u16-ok bytes 0);
                not_fill = filled;
              })
              (ground (arith, read_u16-ok bytes 0)) (ground (arith, read_u16-ok bytes 0))
              (ih _ (ground (arith, read_u16-ok bytes 0)))
      ]

  module _ (next : List ℕ → Scan (ℕ × ℕ))
      (ih : (rest : List ℕ) → next rest ≡ ok (w, h) → HasFrame w h rest) where
    marker-HasFrame :
        (marker : ℕ) (bytes : List ℕ)
        → marker ≢ 0xff
        → marker_found next (marker ∷ bytes) ≡ ok (w, h)
        → HasFrame w h (0xff ∷ marker ∷ bytes)
    unfolding marker_found
    marker-HasFrame marker bytes filled e = elim (Bool-cases (is_standalone marker)) [
      | inl s ↦ alone marker bytes (is_standalone-true marker s) (ih bytes (ground arith))
      | inr s ↦
          segment-HasFrame next marker bytes (λ z. ground arith) (λ z. ground arith) filled s ih
            (ground arith)
    ]

    none_found : marker_found next [] ≡ ok (w, h) → ⊥
    unfolding marker_found
    none_found k = ground arith

    filled-HasFrame :
        (bytes : List ℕ)
        → marker_found next (skip_fill bytes) ≡ ok (w, h)
        → HasFrame w h (0xff ∷ bytes)
    unfolding skip_fill
    filled-HasFrame [] e = absurd (none_found e)
    filled-HasFrame (b ∷ bytes) e = elim (Bool-cases (b == 0xff)) [
      | inl s ↦
          subst (λ x. HasFrame w h (0xff ∷ x ∷ bytes)) (ground arith)
            (fill bytes (filled-HasFrame bytes (ground arith)))
      | inr s ↦ marker-HasFrame b bytes (λ z. ground arith) (ground arith)
    ]

  scan-HasFrame : (fuel : ℕ) (bytes : List ℕ) → scan fuel bytes ≡ ok (w, h) → HasFrame w h bytes
  unfolding scan read skip_fill
  scan-HasFrame zero bytes e = ground arith
  scan-HasFrame (suc fuel) [] e = ground arith
  scan-HasFrame (suc fuel) (b ∷ bytes) e =
      subst (λ x. HasFrame w h (x ∷ bytes)) (ground arith)
        (filled-HasFrame (scan fuel) (scan-HasFrame fuel) bytes (ground arith))

starts_with_soi_iff :
    (frame : List ℕ) → (starts_with_soi frame ≡ true) ↔ (take 2 frame ≡ 0xff ∷ 0xd8 ∷ [])
unfolding starts_with_soi
starts_with_soi_iff [] = (λ h. ground arith, λ h. ground arith)
starts_with_soi_iff (a ∷ []) = (λ h. ground arith, λ h. ground arith)
starts_with_soi_iff (a ∷ b ∷ bytes) = (λ h. ground arith, λ h. ground arith)

two_bytes : (bytes : List ℕ) → length bytes ≡ 2 → (a : ℕ) × (b : ℕ) × (bytes ≡ a ∷ b ∷ [])
two_bytes [] h = absurd (omega arith)
two_bytes (a ∷ []) h = absurd (omega arith)
two_bytes (a ∷ b ∷ []) h = (a, b, refl)
two_bytes (a ∷ b ∷ c ∷ bytes) h = absurd (omega arith)

ends_with_eoi_iff :
    (frame : List ℕ)
    → 2 ≤ length frame
    → (ends_with_eoi frame ≡ true) ↔ (drop (length frame - 2) frame ≡ 0xff ∷ 0xd9 ∷ [])
unfolding ends_with_eoi
ends_with_eoi_iff frame long =
    let (a, b, e) =
      two_bytes (drop (length frame - 2) frame)
        (omega (arith, length-drop {0} (length frame - 2) frame)) in
    (λ h. ground arith, λ h. ground arith)

-- A frame that opens and closes as a JPEG, within the limit of 4 MiB, and whose first start-of-frame
-- segment tells the size of the stream.
pub record IsFrame (frame : List ℕ) : Type 0 where
  pub bounded : length frame ≤ 4194304
  pub long : 4 ≤ length frame
  pub opens : take 2 frame ≡ 0xff ∷ 0xd8 ∷ []
  pub closes : drop (length frame - 2) frame ≡ 0xff ∷ 0xd9 ∷ []
  pub sized : HasFrame 1920 1080 (drop 2 frame)

no-HasFrame : (w h : ℕ) → ¬ HasFrame w h []
no-HasFrame w h f = elim f [ ]

dimensions_iff :
    (frame : List ℕ) (w h : ℕ) → (dimensions frame ≡ ok (w, h)) ↔ HasFrame w h (drop 2 frame)
unfolding dimensions
dimensions_iff [] w h = (scan-HasFrame w h zero [], λ f. absurd (no-HasFrame w h f))
dimensions_iff (b ∷ frame) w h = (
  scan-HasFrame w h (length (b ∷ frame)) (drop 2 (b ∷ frame)),
  HasFrame-scan w h (length (b ∷ frame)) (drop 2 (b ∷ frame))
      (omega (arith, length-drop {0} 2 (b ∷ frame))),
)

validate_jpeg_iff : (frame : List ℕ) → (validate_jpeg frame ≡ ok tt) ↔ IsFrame frame
unfolding validate_jpeg
validate_jpeg_iff frame = (
  λ e. record {
    bounded = ground arith;
    long = ground arith;
    opens = ground (arith, starts_with_soi_iff frame);
    closes = ground (arith, ends_with_eoi_iff frame);
    sized = ground (arith, dimensions_iff frame 1920 1080);
  },
  λ f. ground (
    arith,
    starts_with_soi_iff frame,
    ends_with_eoi_iff frame,
    dimensions_iff frame 1920 1080,
    f.bounded,
    f.long,
    f.opens,
    f.closes,
    f.sized,
  ),
)

-- `validate_jpeg` accepts a frame exactly if it has 4 bytes to 4 MiB, begins with the start and ends
-- with the end of an image, and its segments lead to a start-of-frame segment that tells 1920 by 1080.
-- And `dimensions` gives a width and a height exactly if the segments behind the first two bytes lead
-- to a start-of-frame segment that tells them, neither of them zero.
pub validate_jpeg-IsFrame :
    (frame : List ℕ) (w h : ℕ)
    → ((validate_jpeg frame ≡ ok tt) ↔ IsFrame frame)
      × ((dimensions frame ≡ ok (w, h)) ↔ HasFrame w h (drop 2 frame))
validate_jpeg-IsFrame frame w h = (validate_jpeg_iff frame, dimensions_iff frame w h)
