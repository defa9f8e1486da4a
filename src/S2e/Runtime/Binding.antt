-- ===== src/S2e/Runtime/Binding.antt =====
-- services/simulation-server/src/s2e.rs: which endpoints a runtime has, and which of them a scan reaches.
use scrap_monitoring_simulat.Float.{Float}
use scrap_monitoring_simulat.Prelude.{
  ℕ, ◌≡◌, ◌≢◌, ◌⊎◌, inl, inr, refl, sym, ap, ◌∙◌, arith, Bool-cases, Bool, true, false, none, some,
  List, [], ◌∷◌, length, All,
}
use scrap_monitoring_simulat.S2e.Encoder.{PublishedScan}
use scrap_monitoring_simulat.S2e.Endpoint.{Endpoint, start}
use scrap_monitoring_simulat.S2e.Endpoint
use scrap_monitoring_simulat.S2e.Response.{EndpointConfig, validate}
use scrap_monitoring_simulat.S2e.Runtime.{
  same_id, Entry, insert, bound, has_id, has_address, are_unique, all_valid, spawn, unbound,
  bind_all, publish_to,
}

same_id-eq : (xs ys : List ℕ) → same_id xs ys ≡ true → xs ≡ ys
unfolding same_id
same_id-eq [] [] h = refl
same_id-eq [] (y ∷ ys) h = ground arith
same_id-eq (x ∷ xs) [] h = ground arith
same_id-eq (x ∷ xs) (y ∷ ys) h = ground (arith, same_id-eq xs ys)

same_id_refl : (xs : List ℕ) → same_id xs xs ≡ true
unfolding same_id
same_id_refl [] = refl
same_id_refl (x ∷ xs) = ground (arith, same_id_refl xs)

differ : (xs ys : List ℕ) → same_id xs ys ≡ false → ys ≢ xs
differ xs ys h e = true≢false (sym (same_id_refl xs) ∙ ap (same_id xs) (sym e) ∙ h)
  where
    true≢false : true ≡ false → ⊥
    true≢false k = ground arith

-- What `publish` changes: nothing but the endpoint of the sensor.
abbrev pub IsPublished : List ℕ → PublishedScan → List Entry → List Entry → Type 0
IsPublished id scan [] [] = ⊥
IsPublished id scan [] (f ∷ after) = ⊥
IsPublished id scan (e ∷ before) [] = ⊥
IsPublished id scan (e ∷ before) (f ∷ after) =
    ((e.sensor_id ≡ id)
      × (f ≡ record e { endpoint = Endpoint.publish scan e.endpoint })
      × (before ≡ after))
    ⊎ ((e.sensor_id ≢ id) × (e ≡ f) × IsPublished id scan before after)

abbrev IsOneOf : List ℕ → List Entry → Type 0
IsOneOf id [] = ⊥
IsOneOf id (e ∷ entries) = (e.sensor_id ≡ id) ⊎ IsOneOf id entries

-- A scan reaches the first endpoint of its sensor and no other; without one nothing is published.
pub publish_to_lem :
    (id : List ℕ) (scan : PublishedScan) (entries : List Entry)
    → ((after : List Entry) × (publish_to id scan entries ≡ some after)
        × IsPublished id scan entries after)
      ⊎ ((publish_to id scan entries ≡ none) × All (λ e. e.sensor_id ≢ id) entries)
unfolding publish_to
publish_to_lem id scan [] = inr (refl, tt)
publish_to_lem id scan (e ∷ entries) = elim (Bool-cases (same_id id e.sensor_id)) [
  | inl s ↦ inl (
    record e { endpoint = Endpoint.publish scan e.endpoint } ∷ entries,
    ground arith,
    inl (sym (same_id-eq id e.sensor_id s), refl, refl),
  )
  | inr s ↦ elim (publish_to_lem id scan entries) [
    | inl (after, p, q) ↦ inl (e ∷ after, ground arith, inr (differ id e.sensor_id s, refl, q))
    | inr (p, q) ↦ inr (ground arith, (differ id e.sensor_id s, q))
  ]
]

-- What `bind` promises of the endpoints of a runtime.
pub record IsBound (fl : Float) (binds : ℕ → Bool) (a b : EndpointConfig fl) (entries : List Entry)
    : Type 0 where
  pub ids_differ : a.sensor_id ≢ b.sensor_id
  pub addresses_differ : a.bind ≢ b.bind
  pub valid_first : validate fl a ≡ true
  pub valid_second : validate fl b ≡ true
  pub first_binds : binds a.bind ≡ true
  pub second_binds : binds b.bind ≡ true
  pub two : length entries ≡ 2
  pub started : All (λ e. e.endpoint ≡ start) entries

equal_same_id : (xs ys : List ℕ) → xs ≡ ys → same_id xs ys ≡ true
equal_same_id xs ys e = ap (same_id xs) (sym e) ∙ same_id_refl xs

same_id_flip : (xs ys : List ℕ) → same_id ys xs ≡ true → same_id xs ys ≡ true
same_id_flip xs ys h = equal_same_id xs ys (sym (same_id-eq ys xs h))

two_bound :
    (fl : Float) (binds : ℕ → Bool) (a b : EndpointConfig fl) (entries : List Entry)
    → bind_all fl binds (a ∷ b ∷ []) ≡ bound entries
    → IsBound fl binds a b entries
unfolding bind_all are_unique has_id has_address all_valid unbound spawn insert
two_bound fl binds a b entries h =
    ground (arith, equal_same_id a.sensor_id b.sensor_id, same_id_flip a.sensor_id b.sensor_id)

-- A runtime is made only of two configurations with different identifiers and addresses, both of
-- them valid and bound, and it has two endpoints, at their start.
pub bind_all_lem :
    (fl : Float) (binds : ℕ → Bool) (configs : List (EndpointConfig fl)) (entries : List Entry)
    → bind_all fl binds configs ≡ bound entries
    → (a : EndpointConfig fl) × (b : EndpointConfig fl) × (configs ≡ a ∷ b ∷ [])
      × IsBound fl binds a b entries
unfolding bind_all
bind_all_lem fl binds [] entries h = ground arith
bind_all_lem fl binds (a ∷ []) entries h = ground arith
bind_all_lem fl binds (a ∷ b ∷ c ∷ configs) entries h = ground arith
bind_all_lem fl binds (a ∷ b ∷ []) entries h = (a, b, refl, two_bound fl binds a b entries h)
