-- ===== src/Scenario/Rates/Termination.antt =====
-- services/simulation-server/src/rate_profile.rs: the loop of `create_smooth_rate_profile` ends.
use scrap_monitoring_simulat.Float.{Float}
use scrap_monitoring_simulat.Results.{Result, ok, err, Result-cases}
use scrap_monitoring_simulat.Prelude.{
  ℕ, zero, suc, ◌+◌, ◌*◌, ◌≤◌, ◌<◌, ◌≡◌, ◌≢◌, inl, inr, refl, arith, Option, none, some, List, [],
  ◌++◌, length, length-append,
}
use scrap_monitoring_simulat.Server.Random.{ModelRng}
use scrap_monitoring_simulat.Scenario.Rates.{
  RateProfileError, max_rate_segments, SmoothRateSegment, SmoothRateProfile, segment_pair,
  build_segments, draw_profile, create_smooth_rate_profile,
}

module _ (fl : Float) where
  open fl use {F, eq, sub, literal}

  -- A round adds two segments.
  segment_pair-length :
      (p n low high rest cursor next : F) (r r' : ModelRng) (pair : List (SmoothRateSegment fl))
      → segment_pair fl p n low high rest cursor r ≡ ok (pair, next, r')
      → length pair ≡ 2
  unfolding segment_pair
  segment_pair-length p n low high rest cursor next r r' pair e = ground arith

  -- What the loop keeps: an end, with as many segments as the limit allows.
  abbrev IsBuilt :
      Option (Result RateProfileError (List (SmoothRateSegment fl) × ModelRng)) → Type 0
  IsBuilt none = ⊥
  IsBuilt (some (err e)) = Unit
  IsBuilt (some (ok built)) = length built.0 ≤ max_rate_segments

  build_segments-IsBuilt :
      (fuel : ℕ) (d p n low high cursor : F) (segments : List (SmoothRateSegment fl)) (r : ModelRng)
      → max_rate_segments < length segments + 2 * fuel
      → length segments ≤ max_rate_segments
      → IsBuilt (build_segments fl fuel d p n low high cursor segments r)
  unfolding build_segments
  build_segments-IsBuilt zero d p n low high cursor segments r h k = absurd (omega arith)
  build_segments-IsBuilt (suc fuel) d p n low high cursor segments r h k =
      elim (Result-cases (segment_pair fl p n low high (sub d cursor) cursor r)) [
        | inr (e, q) ↦ ground arith
        | inl ((pair, next, r'), q) ↦ ground (
          arith,
          segment_pair-length p n low high (sub d cursor) cursor next r r' pair q,
          length-append segments pair,
          build_segments-IsBuilt fuel d p n low high next (segments ++ pair) r',
        )
      ]

  draw_profile-total :
      (d lower upper low high : F) (r : ModelRng) → draw_profile fl d lower upper low high r ≢ none
  unfolding draw_profile
  draw_profile-total d lower upper low high r = ground (
    arith,
    build_segments-IsBuilt max_rate_segments d (sub upper (literal 1 1)) (sub (literal 1 1) lower)
        low high (literal 0 1) [] r,
  )

  -- For every duration, all ranges and every generator, `create_smooth_rate_profile` ends, with a
  -- profile or an error of its own: no more rounds are needed than the limit on segments allows.
  pub create_smooth_rate_profile-total :
      (d lower upper low high : F) (r : ModelRng)
      → create_smooth_rate_profile fl d lower upper low high r ≢ none
  unfolding create_smooth_rate_profile
  create_smooth_rate_profile-total d lower upper low high r =
      ground (arith, draw_profile-total d lower upper low high r)

-- What an option holds that is not `none`.
unfoldable pub settled {ℓ} : {A : Type ℓ} → (o : Option A) → o ≢ none → A
settled none h = absurd (h refl)
settled (some a) h = a

module _ (fl : Float) where
  -- `create_smooth_rate_profile`, since it ends.
  unfoldable pub create_profile :
      fl.F
      → fl.F
      → fl.F
      → fl.F
      → fl.F
      → ModelRng
      → Result RateProfileError (SmoothRateProfile fl × ModelRng)
  create_profile d lower upper low high r =
      settled (create_smooth_rate_profile fl d lower upper low high r)
        (create_smooth_rate_profile-total fl d lower upper low high r)
