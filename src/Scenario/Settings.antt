-- ===== src/Scenario/Settings.antt =====
-- services/simulation-server/src/scenario/simulator.rs, `ScenarioSettings::from_config` and the checks
-- of a configuration, and scenario/time_scale.rs. The parameter `from_decimal` is
-- `PositiveRatio::from_decimal_f64s`, which reads the printed form of a number.
use scrap_monitoring_simulat.Float.{Float}
use scrap_monitoring_simulat.Results.{Result, ok, map_err, ok_or, reject_if, ◌>>=◌}
use scrap_monitoring_simulat.Prelude.{
  ℕ, Bool, true, false, ◌&&◌, ◌||◌, not, Option, List, [], ◌∷◌, ltb, ◌==◌, length,
}
use scrap_monitoring_simulat.Scenario.Errors.{
  ScenarioError, invalid, resource, inlet_count, surface,
}
use scrap_monitoring_simulat.Scenario.Surface.{Vec2}
use scrap_monitoring_simulat.Server.Ratio.{PositiveRatio}

abbrev pub max_inlet_positions : ℕ
max_inlet_positions = 64

module _ (fl : Float) where
  open fl use {F, literal, is_finite, lt, le, eq, add, sub, mul, div, abs}

  pub record Range : Type 0 where
    pub low : F
    pub high : F

  -- `ScenarioConfig` and its surface part.
  pub record ScenarioConfig : Type 0 where
    pub mean_fill_duration_s : F
    pub fill_duration_factor_range : Range
    pub fill_rate_factor_range : Range
    pub fill_rate_change_duration_s_range : Range
    pub collection_threshold_range : Range
    pub collection_duration_factor_range : Range
    pub collection_rate_factor_range : Range
    pub collection_rate_change_duration_s_range : Range
    pub inlet_positions_xy_m : List (F × F)
    pub inlet_switch_activation_ratio : F
    pub inlet_switch_height_difference_m : F
    pub inlet_comparison_radius_m : F
    pub cell_size_m : F
    pub update_interval_s : F
    pub pile_spread_radius_m : F
    pub roughness_height_range_m : Range
    pub roughness_radius_range_m : Range

  pub record ScenarioSettings : Type 0 where
    pub mean_fill_duration_s : F
    pub fill_duration_factor_range : Range
    pub fill_rate_factor_range : Range
    pub fill_rate_change_duration_s_range : Range
    pub collection_threshold_range : Range
    pub collection_duration_factor_range : Range
    pub collection_rate_factor_range : Range
    pub collection_rate_change_duration_s_range : Range
    pub inlet_positions : List (Vec2 fl)
    pub inlet_switch_activation_ratio : F
    pub inlet_switch_height_difference_m : F
    pub inlet_comparison_radius_m : F
    pub surface_update_interval_s : F
    pub surface_update_interval : PositiveRatio
    pub pile_spread_radius_m : F
    pub roughness_height_range_m : Range
    pub roughness_radius_range_m : Range

  abbrev pub nought : F
  nought = literal 0 1

  abbrev pub unit : F
  unit = literal 1 1

  abbrev pub state_tolerance : F
  state_tolerance = literal 1 1000000000000

  module _ (Fault : Type 0) where
    abbrev Check : Type 0
    Check = Result (ScenarioError Fault) (Unit {0})

    unfoldable pub require_range : Range → Bool → Check
    require_range value positive =
        reject_if
          (not (is_finite value.low)
            || not (is_finite value.high)
            || lt value.high value.low
            || (positive && le value.low nought))
          invalid

    unfoldable pub require_average_range : Range → Check
    require_average_range value = do
      _ ← require_range value true
      reject_if (lt unit value.low || lt value.high unit) invalid

    unfoldable pub require_positive : F → Check
    require_positive value = reject_if (not (is_finite value) || le value nought) invalid

    unfoldable pub require_non_negative : F → Check
    require_non_negative value = reject_if (not (is_finite value) || lt value nought) invalid

    unfoldable pub require_ratio : F → Check
    require_ratio value =
        reject_if (not (is_finite value) || not (le nought value && le value unit)) invalid

    -- The last check: the durations of the two phases.
    unfoldable pub require_durations : ScenarioConfig → Check
    require_durations c =
        let minimum_fill = mul c.mean_fill_duration_s c.fill_duration_factor_range.low in
        let maximum_fill = mul c.mean_fill_duration_s c.fill_duration_factor_range.high in
        let minimum_collection =
          mul c.mean_fill_duration_s c.collection_duration_factor_range.low in
        let maximum_collection =
          mul c.mean_fill_duration_s c.collection_duration_factor_range.high in
        reject_if
          (not (is_finite minimum_fill)
            || le minimum_fill nought
            || not (is_finite maximum_fill)
            || not (is_finite minimum_collection)
            || le minimum_collection nought
            || not (is_finite maximum_collection)
            || le (add maximum_fill maximum_collection) maximum_fill
            || not (is_finite (add maximum_fill maximum_collection)))
          invalid

    unfoldable pub validate_scenario_config : ScenarioConfig → Check
    validate_scenario_config c = do
      _ ← require_positive c.mean_fill_duration_s
      _ ← require_range c.fill_duration_factor_range true
      let centre = add c.fill_duration_factor_range.low c.fill_duration_factor_range.high
      _ ← reject_if (lt state_tolerance (abs (sub centre (literal 2 1)))) invalid
      _ ← require_average_range c.fill_rate_factor_range
      _ ← require_range c.fill_rate_change_duration_s_range true
      _ ← require_range c.collection_threshold_range true
      _ ← reject_if (lt unit c.collection_threshold_range.high) invalid
      _ ← require_range c.collection_duration_factor_range true
      _ ← require_average_range c.collection_rate_factor_range
      _ ← require_range c.collection_rate_change_duration_s_range true
      _ ← require_ratio c.inlet_switch_activation_ratio
      _ ← require_non_negative c.inlet_switch_height_difference_m
      _ ← require_positive c.inlet_comparison_radius_m
      _ ← require_positive c.cell_size_m
      _ ← require_positive c.update_interval_s
      _ ← require_positive c.pile_spread_radius_m
      _ ← require_range c.roughness_height_range_m false
      _ ← require_range c.roughness_radius_range_m true
      require_durations c

    -- `scenario_time_scale`: the reference is a day.
    unfoldable pub scenario_time_scale : F → Result (ScenarioError Fault) F
    scenario_time_scale mean_fill_duration_s = do
      _ ← reject_if (not (is_finite mean_fill_duration_s) || le mean_fill_duration_s nought) invalid
      let scale = div mean_fill_duration_s (literal 86400 1)
      _ ← reject_if (not (is_finite scale) || le scale nought) invalid
      ok scale

    unfoldable pub scale_duration_range : Range → F → Result (ScenarioError Fault) Range
    scale_duration_range value time_scale = do
      _ ← reject_if (not (is_finite time_scale) || le time_scale nought) invalid
      let low = mul value.low time_scale
      let high = mul value.high time_scale
      _ ←
          reject_if (not (is_finite low) || not (is_finite high) || le low nought || lt high low)
            invalid
      ok (record { low = low; high = high })

    -- `==` on points, and `contains` of a slice.
    abbrev pub same_point : Vec2 fl → Vec2 fl → Bool
    same_point p q = eq p.x q.x && eq p.y q.y

    unfoldable pub holds_point : Vec2 fl → List (Vec2 fl) → Bool
    holds_point p [] = false
    holds_point p (q ∷ points) = same_point q p || holds_point p points

    -- No position is among those before it.
    unfoldable pub are_unique : List (Vec2 fl) → List (Vec2 fl) → Bool
    are_unique earlier [] = true
    are_unique earlier (p ∷ points) = not (holds_point p earlier) && are_unique (p ∷ earlier) points

    module _ (from_decimal : F → F → Option PositiveRatio)
        (new_vec2 : F → F → Result Fault (Vec2 fl)) where
      unfoldable pub to_points : List (F × F) → Result (ScenarioError Fault) (List (Vec2 fl))
      to_points [] = ok []
      to_points ((x, y) ∷ pairs) = do
        p ← map_err surface (new_vec2 x y)
        points ← to_points pairs
        ok (p ∷ points)

      unfoldable pub from_config : ScenarioConfig → Result (ScenarioError Fault) ScenarioSettings
      from_config c = do
        _ ← validate_scenario_config c
        interval ← ok_or invalid (from_decimal c.update_interval_s unit)
        _ ← reject_if (length c.inlet_positions_xy_m == 0) invalid
        _ ←
            reject_if (ltb max_inlet_positions (length c.inlet_positions_xy_m))
              (resource inlet_count)
        time_scale ← scenario_time_scale c.mean_fill_duration_s
        inlet_positions ← to_points c.inlet_positions_xy_m
        _ ← reject_if (not (are_unique [] inlet_positions)) invalid
        fill_changes ← scale_duration_range c.fill_rate_change_duration_s_range time_scale
        collection_changes ←
            scale_duration_range c.collection_rate_change_duration_s_range time_scale
        ok (record {
          mean_fill_duration_s = c.mean_fill_duration_s;
          fill_duration_factor_range = c.fill_duration_factor_range;
          fill_rate_factor_range = c.fill_rate_factor_range;
          fill_rate_change_duration_s_range = fill_changes;
          collection_threshold_range = c.collection_threshold_range;
          collection_duration_factor_range = c.collection_duration_factor_range;
          collection_rate_factor_range = c.collection_rate_factor_range;
          collection_rate_change_duration_s_range = collection_changes;
          inlet_positions = inlet_positions;
          inlet_switch_activation_ratio = c.inlet_switch_activation_ratio;
          inlet_switch_height_difference_m = c.inlet_switch_height_difference_m;
          inlet_comparison_radius_m = c.inlet_comparison_radius_m;
          surface_update_interval_s = c.update_interval_s;
          surface_update_interval = interval;
          pile_spread_radius_m = c.pile_spread_radius_m;
          roughness_height_range_m = c.roughness_height_range_m;
          roughness_radius_range_m = c.roughness_radius_range_m;
        })
