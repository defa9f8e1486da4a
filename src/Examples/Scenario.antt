-- ===== src/Examples/Scenario.antt =====
-- services/simulation-server/src/scenario: a surface of four nodes that holds a volume, and a plan that
-- fills it in ten seconds and empties it in ten.
use scrap_monitoring_simulat.Examples.Numbers.{numbers, numbers-IsOrdered}
use scrap_monitoring_simulat.Results.{ok, ◌>>=◌}
use scrap_monitoring_simulat.Prelude.{
  ℕ, ◌+◌, ◌-◌, ◌/◌, ◌≡◌, ◌≢◌, refl, true, false, none, some, [], ◌∷◌, replicate,
}
use scrap_monitoring_simulat.Scenario.Rates.{SmoothRateProfile, create_smooth_rate_profile}
use scrap_monitoring_simulat.Scenario.Rates.Termination.{create_smooth_rate_profile-total}
use scrap_monitoring_simulat.Scenario.Settings.{Range, ScenarioConfig, ScenarioSettings}
use scrap_monitoring_simulat.Scenario.Surface.{SurfaceModel}
use scrap_monitoring_simulat.Scenario.Simulator.{
  filling, ScenarioSimulator, ScenarioAdvance, ScenarioEvent, ScenarioSnapshot, Outcome,
}
use scrap_monitoring_simulat.Scenario.Simulator.Advance.{advance_to}
use scrap_monitoring_simulat.Scenario.Simulator.Invariant.{Keeps, IsCoherent}
use scrap_monitoring_simulat.Scenario.Simulator.Build.{
  build_scenario_simulator, advance_all, advance_all-build_scenario_simulator,
}
use scrap_monitoring_simulat.Scenario.Simulator.Timeline.{IsAdvance, advance_to-IsAdvance}
use scrap_monitoring_simulat.Scenario.Simulator.Parts.{IsWhole, advance_to-advance_to}
use scrap_monitoring_simulat.Scenario.Rates
use scrap_monitoring_simulat.Scenario.Simulator
use scrap_monitoring_simulat.Scenario.Simulator.Advance
use scrap_monitoring_simulat.Scenario.Simulator.Changes
use scrap_monitoring_simulat.Server.Random
use scrap_monitoring_simulat.Server.Ratio
use scrap_monitoring_simulat.Server.Random.{ModelRng}
use scrap_monitoring_simulat.Server.Ratio.{PositiveRatio}

abbrev pub generator : ModelRng
generator = record { s0 = 1; s1 = 2; s2 = 3; s3 = 4 }

create_smooth_rate_profile-total_example :
    create_smooth_rate_profile numbers 10 1 1 1 2 generator ≢ none
create_smooth_rate_profile-total_example =
    create_smooth_rate_profile-total numbers 10 1 1 1 2 generator

-- The surface is its volume.
abbrev pub heap : SurfaceModel numbers
heap = record {
  Surface = ℕ;
  Image = ℕ;
  Fault = ℕ;
  volume_m3 = λ v. v;
  capacity_m3 = λ v. 100;
  fill_ratio = λ v. v / 100;
  node_count = λ v. 4;
  contains = λ p v. ok true;
  add_volume = λ request center radius v. ok (0, v + request);
  remove_volume_uniformly = λ request v. ok (0, v - request);
  relax_slopes = λ v. ok v;
  apply_local_roughness = λ center radius peak v. ok v;
  mean_height_within = λ center radius v. ok v;
  surface_snapshot = λ v. ok v;
  new_vec2 = λ x y. ok (record { x = x; y = y });
}

abbrev ones : Range numbers
ones = record { low = 1; high = 1 }

abbrev scenario_config : ScenarioConfig numbers
scenario_config = record {
  mean_fill_duration_s = 86400;
  fill_duration_factor_range = ones;
  fill_rate_factor_range = ones;
  fill_rate_change_duration_s_range = ones;
  collection_threshold_range = ones;
  collection_duration_factor_range = ones;
  collection_rate_factor_range = ones;
  collection_rate_change_duration_s_range = ones;
  inlet_positions_xy_m = (1, 2) ∷ (3, 4) ∷ [];
  inlet_switch_activation_ratio = 0;
  inlet_switch_height_difference_m = 1;
  inlet_comparison_radius_m = 1;
  cell_size_m = 1;
  update_interval_s = 30000;
  pile_spread_radius_m = 1;
  roughness_height_range_m = record { low = 0; high = 0 };
  roughness_radius_range_m = ones;
}

advance_all-build_scenario_simulator_example : Keeps (IsCoherent numbers heap) (
    build_scenario_simulator numbers heap
      (λ x y. some (record { numerator = x; denominator = y }))
      (λ bytes. replicate 32 1)
      (ok 0)
      scenario_config
      7
    >>= λ s.
        advance_all numbers heap
          (λ x y. some (record { numerator = x; denominator = y }))
          (λ bytes. replicate 32 1)
          (40000 ∷ 100000 ∷ [])
          s)
advance_all-build_scenario_simulator_example =
    advance_all-build_scenario_simulator numbers heap
      (λ x y. some (record { numerator = x; denominator = y })) (λ bytes. replicate 32 1) (ok 0)
      scenario_config 7 (40000 ∷ 100000 ∷ [])

abbrev pub settings : ScenarioSettings numbers
settings = record {
  mean_fill_duration_s = 10;
  fill_duration_factor_range = ones;
  fill_rate_factor_range = ones;
  fill_rate_change_duration_s_range = ones;
  collection_threshold_range = ones;
  collection_duration_factor_range = ones;
  collection_rate_factor_range = ones;
  collection_rate_change_duration_s_range = ones;
  inlet_positions = record { x = 1; y = 2 } ∷ [];
  inlet_switch_activation_ratio = 0;
  inlet_switch_height_difference_m = 1;
  inlet_comparison_radius_m = 1;
  surface_update_interval_s = 3;
  surface_update_interval = record { numerator = 3; denominator = 1 };
  pile_spread_radius_m = 1;
  roughness_height_range_m = record { low = 0; high = 0 };
  roughness_radius_range_m = ones;
}

abbrev steady : SmoothRateProfile numbers
steady = record { profile_duration_s = 10; segments = []; prefix_deviation_integrals_s = 0 ∷ [] }

abbrev pub empty_scenario : ScenarioSimulator numbers heap
empty_scenario = record {
  field = 0;
  settings = settings;
  cycle_rng = generator;
  fill_rate_rng = generator;
  collection_rate_rng = generator;
  roughness_rng = generator;
  elapsed_s = 0;
  surface_updated_at_s = 0;
  next_update_index = 1;
  cycle_index = 0;
  phase = filling;
  current_inlet_index = 0;
  fill_plan = record {
    started_at_s = 0;
    duration_s = 10;
    target_fill_ratio = 1;
    target_volume_m3 = 100;
    profile = steady;
  };
  collection_plan = none;
}

-- The updates at 3 and 6, in one advance or in two. A draw of roughness moves its generator.
abbrev reached_4 : ScenarioSimulator numbers heap
reached_4 = record empty_scenario {
  field = 30;
  elapsed_s = 4;
  surface_updated_at_s = 3;
  next_update_index = 2;
  roughness_rng = Random.advance generator;
}

abbrev reached_8 : ScenarioSimulator numbers heap
reached_8 = record empty_scenario {
  field = 60;
  elapsed_s = 8;
  surface_updated_at_s = 6;
  next_update_index = 3;
  roughness_rng = Random.advance (Random.advance generator);
}

abbrev shown : ℕ → ℕ → ℕ → ScenarioSnapshot numbers
shown elapsed updated volume = record {
  elapsed_s = elapsed;
  surface_updated_at_s = updated;
  cycle_index = 0;
  phase = filling;
  phase_started_at_s = 0;
  phase_ends_at_s = 10;
  phase_duration_s = 10;
  rate_factor = 1;
  target_fill_ratio = 1;
  surface_fill_ratio = volume / 100;
  surface_volume_m3 = volume;
  current_inlet_index = some 0;
}

abbrev update_at : ℕ → ℕ → ScenarioEvent numbers heap
update_at t volume = record {
  elapsed_s = t;
  surface_update_due = true;
  phase_transition_due = false;
  shown = record { snapshot = shown t t volume; image = volume };
}

abbrev to_4 : ScenarioAdvance numbers heap
to_4 = record { reached = shown 4 3 30; events = update_at 3 30 ∷ [] }

advance_4 : advance_to numbers heap 4 empty_scenario ≡ ok (to_4, reached_4)
unfolding advance_to Ratio.multiple_to_f64 Ratio.rational_to_f64 Ratio.digit_count Ratio.exponent_of
    Ratio.first_exponent Ratio.normal_to_f64 Ratio.rounded_scaled_quotient Ratio.rounded_quotient
    Ratio.normal_bits Advance.require_bounded_update_output Simulator.event_output_limit
    Advance.advance_inner Advance.advance_events Simulator.next_event Simulator.next_update_time
    Simulator.phase_end_s Simulator.phase_bounds Simulator.fill_ends_at_s Advance.one_event
    Advance.count_update Advance.settle_phase Changes.apply_phase_change Changes.filled
    Changes.integrated_since Changes.current_inlet Changes.require_applied
    Changes.apply_local_roughness Changes.switch_inlet_if_needed Changes.compare_inlets
    Changes.compare_inlet Changes.chosen_inlet Simulator.state_volume_tolerance
    Simulator.fill_average_rate Simulator.scene_snapshot Simulator.snapshot Rates.factor_at
    Rates.factor_before Rates.partition_point Rates.validate_elapsed Rates.integrated_factor_between
    Rates.integrated_factor_to Random.uniform Random.unit_f64 Random.next_u64 Random.drawn
advance_4 = refl

abbrev to_8 : ScenarioAdvance numbers heap
to_8 = record { reached = shown 8 6 60; events = update_at 6 60 ∷ [] }

advance_8 : advance_to numbers heap 8 reached_4 ≡ ok (to_8, reached_8)
unfolding advance_to Ratio.multiple_to_f64 Ratio.rational_to_f64 Ratio.digit_count Ratio.exponent_of
    Ratio.first_exponent Ratio.normal_to_f64 Ratio.rounded_scaled_quotient Ratio.rounded_quotient
    Ratio.normal_bits Advance.require_bounded_update_output Simulator.event_output_limit
    Advance.advance_inner Advance.advance_events Simulator.next_event Simulator.next_update_time
    Simulator.phase_end_s Simulator.phase_bounds Simulator.fill_ends_at_s Advance.one_event
    Advance.count_update Advance.settle_phase Changes.apply_phase_change Changes.filled
    Changes.integrated_since Changes.current_inlet Changes.require_applied
    Changes.apply_local_roughness Changes.switch_inlet_if_needed Changes.compare_inlets
    Changes.compare_inlet Changes.chosen_inlet Simulator.state_volume_tolerance
    Simulator.fill_average_rate Simulator.scene_snapshot Simulator.snapshot Rates.factor_at
    Rates.factor_before Rates.partition_point Rates.validate_elapsed Rates.integrated_factor_between
    Rates.integrated_factor_to Random.uniform Random.unit_f64 Random.next_u64 Random.drawn
advance_8 = refl

advance_to-IsAdvance_example :
    IsAdvance numbers numbers-IsOrdered heap 4 empty_scenario to_4 reached_4
advance_to-IsAdvance_example =
    advance_to-IsAdvance numbers numbers-IsOrdered heap 4 empty_scenario reached_4 to_4 advance_4

advance_to-advance_to_example :
    IsWhole numbers numbers-IsOrdered heap
      (update_at 3 30 ∷ [])
      to_8
      reached_8
      (advance_to numbers heap 8 empty_scenario)
advance_to-advance_to_example =
    advance_to-advance_to numbers numbers-IsOrdered heap 4 8 empty_scenario reached_4 reached_8 to_4
      to_8 refl (record { first = advance_4; second = advance_8 })
