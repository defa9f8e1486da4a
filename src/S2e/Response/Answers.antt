-- ===== src/S2e/Response/Answers.antt =====
-- services/simulation-server/src/s2e.rs: what a client reads from the answers.
use scrap_monitoring_simulat.Float.{Float}
use scrap_monitoring_simulat.Prelude.{
  ℕ, ◌+◌, ◌%◌, ◌^◌, ◌≤◌, ◌<◌, ◌≡◌, ◌≢◌, ◌⊎◌, inl, inr, refl, ◌∙◌, true, false, none, some, List, [],
  ◌∷◌, ◌++◌, arith, Option-cases, length, take, drop, slice, le_bytes, from_le_bytes, All, IsByte,
  bit_or, bit_or-zero, from_le_bytes-le_bytes, get_or,
}
use scrap_monitoring_simulat.S2e.Command.{loop_response_flag}
use scrap_monitoring_simulat.S2e.Encoder.{hq_capsule_bytes}
use scrap_monitoring_simulat.S2e.Response.{
  EndpointConfig, response, configuration_value, lidar_configuration_response,
  conf_scan_mode_typical, conf_scan_mode_count, conf_desired_rotation_frequency,
  conf_scan_mode_us_per_sample, conf_scan_mode_max_distance, conf_scan_mode_answer_type,
  conf_scan_mode_name,
}

-- The size and the flags of an answer, its type and its payload, at their places.
pub record IsAnswer (frame : List ℕ) (size answer_type : ℕ) (payload : List ℕ) : Type 0 where
  pub sync : take 2 frame ≡ 0xa5 ∷ 0x5a ∷ []
  pub size_and_flags : from_le_bytes (slice 2 4 frame) ≡ size
  pub type_byte : get_or frame 6 0 ≡ answer_type
  pub body : drop 7 frame ≡ payload

-- A single answer announces the length of its payload; the answer that starts a stream announces
-- the size of one capsule under the loop flag.
pub response-IsAnswer :
    (answer_type : ℕ) (payload : List ℕ)
    → length payload < 2 ^ 30
    → IsAnswer (response answer_type payload false) (length payload) answer_type payload
      × IsAnswer
          (response answer_type payload true)
          (hq_capsule_bytes + loop_response_flag)
          answer_type
          payload
unfolding response
response-IsAnswer answer_type payload h = (
  record {
    sync = refl;
    size_and_flags =
        from_le_bytes-le_bytes 4 (bit_or (length payload % 2 ^ 32) 0)
          (omega (arith, bit_or-zero (length payload % 2 ^ 32)))
        ∙ bit_or-zero (length payload % 2 ^ 32)
        ∙ omega arith;
    type_byte = refl;
    body = refl;
  },
  record { sync = refl; size_and_flags = refl; type_byte = refl; body = refl },
)

-- Four bytes are the bytes of the word that they stand for.
le_bytes-from_le_bytes :
    (a b c d : ℕ)
    → a < 256
    → b < 256
    → c < 256
    → d < 256
    → le_bytes 4 (from_le_bytes (a ∷ b ∷ c ∷ d ∷ [])) ≡ a ∷ b ∷ c ∷ d ∷ []
le_bytes-from_le_bytes a b c d ha hb hc hd = ground arith

-- The queries that need no scan mode, and those that name one.
abbrev pub IsPlainQuery : ℕ → Type 0
IsPlainQuery query =
    (query ≡ conf_scan_mode_typical)
    ⊎ (query ≡ conf_scan_mode_count)
    ⊎ (query ≡ conf_desired_rotation_frequency)

abbrev pub IsModeQuery : ℕ → Type 0
IsModeQuery query =
    (query ≡ conf_scan_mode_us_per_sample)
    ⊎ (query ≡ conf_scan_mode_max_distance)
    ⊎ (query ≡ conf_scan_mode_answer_type)
    ⊎ (query ≡ conf_scan_mode_name)

abbrev pub IsHqMode : List ℕ → Type 0
IsHqMode payload = (6 ≤ length payload) × (from_le_bytes (slice 4 2 payload) ≡ 2)

-- The payloads that get an answer.
abbrev pub IsAnswered : List ℕ → Type 0
IsAnswered payload =
    let query = from_le_bytes (take 4 payload) in
    (4 ≤ length payload) × (IsPlainQuery query ⊎ (IsModeQuery query × IsHqMode payload))

le_bytes-take :
    (payload : List ℕ)
    → All IsByte payload
    → 4 ≤ length payload
    → le_bytes 4 (from_le_bytes (take 4 payload)) ≡ take 4 payload
le_bytes-take [] b h = absurd (omega arith)
le_bytes-take (x ∷ []) b h = absurd (omega arith)
le_bytes-take (x ∷ y ∷ []) b h = absurd (omega arith)
le_bytes-take (x ∷ y ∷ z ∷ []) b h = absurd (omega arith)
le_bytes-take (x ∷ y ∷ z ∷ w ∷ rest) b h =
    le_bytes-from_le_bytes x y z w (omega arith) (omega arith) (omega arith) (omega arith)

module _ (fl : Float) (config : EndpointConfig fl) (payload : List ℕ) where
  configuration_value_answered :
      IsAnswered payload
      → configuration_value fl config payload (from_le_bytes (take 4 payload)) ≢ none
  unfolding configuration_value
  configuration_value_answered h = ground arith

  configuration_answered :
      All IsByte payload
      → IsAnswered payload
      → (value : List ℕ) × (lidar_configuration_response fl config payload
          ≡ some (take 4 payload ++ value))
  unfolding lidar_configuration_response
  configuration_answered b h =
      elim (Option-cases (configuration_value fl config payload (from_le_bytes (take 4 payload)))) [
        | inl e ↦ absurd (configuration_value_answered h e)
        | inr (value, e) ↦ (value, ground (arith, le_bytes-take payload b h.0))
      ]

  configuration_rejected :
      ¬ (IsAnswered payload) → lidar_configuration_response fl config payload ≡ none
  unfolding lidar_configuration_response
  configuration_rejected h = ground arith

  -- A query is answered exactly when it is known and, where the answer depends on the scan mode,
  -- names the one mode that there is; the answer repeats the four bytes of the query.
  pub lidar_configuration_response_lem :
      All IsByte payload
      → (IsAnswered payload
          → (value : List ℕ) × (lidar_configuration_response fl config payload
              ≡ some (take 4 payload ++ value)))
        × (¬ (IsAnswered payload) → lidar_configuration_response fl config payload ≡ none)
  lidar_configuration_response_lem b = (configuration_answered b, configuration_rejected)
