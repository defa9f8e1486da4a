-- ===== src/S2e/Runtime.antt =====
-- services/simulation-server/src/s2e.rs: `S2eRuntime`, which binds two endpoints, hands scans to them
-- and closes them. The map of endpoints is the list of its entries in the order of their keys. The
-- parameter `binds` is whether a socket can be bound to an address.
pub mod Binding
use scrap_monitoring_simulat.Float.{Float}
use scrap_monitoring_simulat.Prelude.{
  ℕ, zero, suc, ◌+◌, ◌-◌, Bool, true, false, ◌&&◌, ◌||◌, not, Option, none, some, List, [], ◌∷◌,
  ◌==◌, ltb, if◌then◌else◌, length,
}
use scrap_monitoring_simulat.S2e.Encoder.{PublishedScan}
use scrap_monitoring_simulat.S2e.Endpoint.{Endpoint, start}
use scrap_monitoring_simulat.S2e.Endpoint
use scrap_monitoring_simulat.S2e.Response.{EndpointConfig, validate}

pub data S2eError : Type 0 where
  not_two not_unique invalid_config unknown_sensor io task : S2eError
  bind_failed : ℕ → S2eError

-- `==` and `<` on identifiers.
unfoldable pub same_id : List ℕ → List ℕ → Bool
same_id [] [] = true
same_id [] (y ∷ ys) = false
same_id (x ∷ xs) [] = false
same_id (x ∷ xs) (y ∷ ys) = x == y && same_id xs ys

unfoldable pub precedes : List ℕ → List ℕ → Bool
precedes xs [] = false
precedes [] (y ∷ ys) = true
precedes (x ∷ xs) (y ∷ ys) = ltb x y || (x == y && precedes xs ys)

pub record Entry : Type 0 where
  pub sensor_id : List ℕ
  pub endpoint : Endpoint

-- `BTreeMap::insert`.
unfoldable pub insert : Entry → List Entry → List Entry
insert e [] = e ∷ []
insert e (f ∷ entries) =
    let rest = insert e entries in
    if same_id e.sensor_id f.sensor_id
    then e ∷ entries
    else if precedes e.sensor_id f.sensor_id
    then e ∷ f ∷ entries
    else f ∷ rest

pub data Bound : Type 0 where
  bound : List Entry → Bound
  rejected : S2eError → Bound

module _ (fl : Float) where
  unfoldable pub has_id : List ℕ → List (EndpointConfig fl) → Bool
  has_id id [] = false
  has_id id (c ∷ configs) = same_id id c.sensor_id || has_id id configs

  unfoldable pub has_address : ℕ → List (EndpointConfig fl) → Bool
  has_address address [] = false
  has_address address (c ∷ configs) = address == c.bind || has_address address configs

  -- The sets of identifiers and of addresses are as large as the list.
  unfoldable pub are_unique : List (EndpointConfig fl) → Bool
  are_unique [] = true
  are_unique (c ∷ configs) =
      not (has_id c.sensor_id configs) && not (has_address c.bind configs) && are_unique configs

  unfoldable pub all_valid : List (EndpointConfig fl) → Bool
  all_valid [] = true
  all_valid (c ∷ configs) = validate fl c && all_valid configs

  unfoldable pub spawn : List (EndpointConfig fl) → List Entry → List Entry
  spawn [] entries = entries
  spawn (c ∷ configs) entries =
      spawn configs (insert (record { sensor_id = c.sensor_id; endpoint = start }) entries)

  module _ (binds : ℕ → Bool) where
    -- The first address that cannot be bound.
    unfoldable pub unbound : List (EndpointConfig fl) → Option ℕ
    unbound [] = none
    unbound (c ∷ configs) = if binds c.bind then unbound configs else some c.bind

    unfoldable pub bind_all : List (EndpointConfig fl) → Bound
    bind_all configs =
        if not (length configs == 2)
        then rejected not_two
        else if not (are_unique configs)
        then rejected not_unique
        else if not (all_valid configs)
        then rejected invalid_config
        else elim (unbound configs) [
          | some address ↦ rejected (bind_failed address)
          | none ↦ bound (spawn configs [])
        ]

-- `publish`: whether the sensor is known, and the endpoints behind it.
unfoldable pub publish_to : List ℕ → PublishedScan → List Entry → Option (List Entry)
publish_to id scan [] = none
publish_to id scan (e ∷ entries) =
    let rest = publish_to id scan entries in
    if same_id id e.sensor_id
    then some (record e { endpoint = Endpoint.publish scan e.endpoint } ∷ entries)
    else elim rest [ none ↦ none | some r ↦ some (e ∷ r) ]

-- How the task of an endpoint ends.
pub data TaskEnd : Type 0 where
  done io_error join_error : TaskEnd

-- The error of the first task that has one.
unfoldable pub close_all : List TaskEnd → Option S2eError
close_all [] = none
close_all (done ∷ ends) = close_all ends
close_all (io_error ∷ ends) = some io
close_all (join_error ∷ ends) = some task
