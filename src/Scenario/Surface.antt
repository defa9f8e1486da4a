-- ===== src/Scenario/Surface.antt =====
-- The interface of scenario/height_field.rs and geometry/primitives.rs that
-- services/simulation-server/src/scenario/simulator.rs uses: a surface, its errors and its snapshots. A
-- change of volume gives what it could not apply, and the surface behind it.
use scrap_monitoring_simulat.Float.{Float}
use scrap_monitoring_simulat.Results.{Result}
use scrap_monitoring_simulat.Prelude.{ℕ, Bool}

pub record Vec2 (fl : Float) : Type 0 where
  pub x : fl.F
  pub y : fl.F

pub record SurfaceModel (fl : Float) : Type 1 where
  pub Surface : Type 0
  pub Image : Type 0
  pub Fault : Type 0
  pub volume_m3 : Surface → fl.F
  pub capacity_m3 : Surface → fl.F
  pub fill_ratio : Surface → fl.F
  pub node_count : Surface → ℕ
  -- `boundary().contains`.
  pub contains : Vec2 fl → Surface → Result Fault Bool
  pub add_volume : fl.F → Vec2 fl → fl.F → Surface → Result Fault (fl.F × Surface)
  pub remove_volume_uniformly : fl.F → Surface → Result Fault (fl.F × Surface)
  pub relax_slopes : Surface → Result Fault Surface
  pub apply_local_roughness : Vec2 fl → fl.F → fl.F → Surface → Result Fault Surface
  pub mean_height_within : Vec2 fl → fl.F → Surface → Result Fault fl.F
  pub surface_snapshot : Surface → Result Fault Image
  -- `Vec2::new`, which wants finite coordinates.
  pub new_vec2 : fl.F → fl.F → Result Fault (Vec2 fl)
