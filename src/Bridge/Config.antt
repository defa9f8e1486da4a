-- ===== src/Bridge/Config.antt =====
-- services/camera-edge-bridge/src/config.rs: the configuration that the environment gives. A text is
-- the list of its bytes, a `Duration` its number of nanoseconds. The parameters are what the source
-- calls: the parser of `http::Uri`, `str::parse::<u64>`, `u64::to_string` and `Path::is_absolute`.
pub mod Bounds
use scrap_monitoring_simulat.Results.{Result, ok, err, ◌>>=◌}
use scrap_monitoring_simulat.Prelude.{
  ℕ, ◌+◌, ◌*◌, ◌≤◌, ◌<◌, ◌≡◌, refl, Bool, true, false, ◌||◌, not, Option, none, some, Option-cases,
  inl, inr, List, [], ◌∷◌, ◌==◌, ltb, if◌then◌else◌, arith,
}
use scrap_monitoring_simulat.Bridge.Descriptor.{same_text}

-- The names of the environment.
pub data Variable : Type 0 where
  server_url device connect_timeout_ms io_timeout_ms reconnect_initial_ms reconnect_max_ms :
      Variable

pub data ConfigError : Type 0 where
  missing : Variable → ConfigError
  invalid_url not_ws no_host_and_port wrong_path credentials_or_query : ConfigError
  not_absolute initial_exceeds_max : ConfigError
  not_an_integer out_of_range : Variable → ConfigError

-- What `http::Uri` tells of a URL.
pub record Uri : Type 0 where
  pub scheme : Option (List ℕ)
  pub authority : Option (List ℕ)
  pub host_part : Option (List ℕ)
  pub port_u16 : Option ℕ
  pub path : List ℕ
  pub query : Option (List ℕ)

pub record ServerUrl : Type 0 where
  pub raw : List ℕ
  pub host : List ℕ
  pub port : ℕ

pub record Config : Type 0 where
  pub url : ServerUrl
  pub device_path : List ℕ
  pub connect_timeout : ℕ
  pub io_timeout : ℕ
  pub reconnect_initial : ℕ
  pub reconnect_max : ℕ

-- `ws`
abbrev pub ws : List ℕ
ws = 119 ∷ 115 ∷ []

-- `/camera/v1/stream`
abbrev pub stream_path : List ℕ
stream_path =
    47 ∷ 99 ∷ 97 ∷ 109 ∷ 101 ∷ 114 ∷ 97 ∷ 47 ∷ 118 ∷ 49 ∷ 47 ∷ 115 ∷ 116 ∷ 114 ∷ 101 ∷ 97 ∷ 109 ∷ []

-- `/dev/scrap-synthetic-camera`
abbrev pub default_device : List ℕ
default_device =
    47 ∷ 100 ∷ 101 ∷ 118 ∷ 47 ∷ 115 ∷ 99 ∷ 114 ∷ 97 ∷ 112 ∷ 45 ∷ 115 ∷ 121 ∷ 110 ∷ 116 ∷ 104 ∷ 101
    ∷ 116 ∷ 105 ∷ 99 ∷ 45 ∷ 99 ∷ 97 ∷ 109 ∷ 101 ∷ 114 ∷ 97 ∷ []

abbrev pub is_empty : List ℕ → Bool
is_empty [] = true
is_empty (b ∷ bytes) = false

abbrev pub is_some {ℓ} : {A : Type ℓ} → Option A → Bool
is_some none = false
is_some (some a) = true

abbrev pub unwrap_or {ℓ} : {A : Type ℓ} → Option A → A → A
unwrap_or none a = a
unwrap_or (some a) b = a

-- `Some("ws")`.
unfoldable pub is_ws : Option (List ℕ) → Bool
is_ws none = false
is_ws (some scheme) = same_text scheme ws

-- `contains('@')`.
unfoldable pub contains : ℕ → List ℕ → Bool
contains c [] = false
contains c (b ∷ bytes) = b == c || contains c bytes

-- `filter(|value| !value.is_empty())`.
unfoldable pub non_empty : Option (List ℕ) → Option (List ℕ)
non_empty none = none
non_empty (some text) = if is_empty text then none else some text

-- `ok_or`.
unfoldable pub ok_or {ℓ} : {A : Type ℓ} → ConfigError → Option A → Result ConfigError A
ok_or e none = err e
ok_or e (some a) = ok a

unfoldable pub ensure : Bool → ConfigError → Result ConfigError (Unit {0})
ensure true e = ok tt
ensure false e = err e

-- `Duration::from_millis`.
abbrev pub from_millis : ℕ → ℕ
from_millis n = n * 1000000

module _ (parse_uri : List ℕ → Option Uri) (parse_u64 : List ℕ → Option ℕ) (to_text : ℕ → List ℕ)
    (is_absolute : List ℕ → Bool) where
  unfoldable pub parse_server_url : List ℕ → Result ConfigError ServerUrl
  parse_server_url raw = do
    uri ← ok_or invalid_url (parse_uri raw)
    _ ← ensure (is_ws uri.scheme) not_ws
    authority ← ok_or no_host_and_port uri.authority
    host ← ok_or no_host_and_port (non_empty uri.host_part)
    port ← ok_or no_host_and_port uri.port_u16
    _ ← ensure (same_text uri.path stream_path) wrong_path
    _ ← ensure (not (contains 64 authority || is_some uri.query)) credentials_or_query
    ok (record { raw = raw; host = host; port = port })

  module _ (lookup : Variable → Option (List ℕ)) where
    unfoldable pub required : Variable → Result ConfigError (List ℕ)
    required name = ok_or (missing name) (non_empty (lookup name))

    unfoldable pub parse_milliseconds : Variable → ℕ → ℕ → Result ConfigError ℕ
    parse_milliseconds name default maximum = do
      value ← ok_or (not_an_integer name) (parse_u64 (unwrap_or (lookup name) (to_text default)))
      if value == 0 || ltb maximum value then err (out_of_range name) else ok (from_millis value)

    unfoldable pub from_lookup : Result ConfigError Config
    from_lookup = do
      raw_url ← required server_url
      url ← parse_server_url raw_url
      let device_path = unwrap_or (lookup device) default_device
      _ ← ensure (is_absolute device_path) not_absolute
      connect_timeout ← parse_milliseconds connect_timeout_ms 5000 5000
      io_timeout ← parse_milliseconds io_timeout_ms 1000 5000
      reconnect_initial ← parse_milliseconds reconnect_initial_ms 500 60000
      reconnect_max ← parse_milliseconds reconnect_max_ms 30000 300000
      _ ← ensure (not (ltb reconnect_max reconnect_initial)) initial_exceeds_max
      ok (record {
        url = url;
        device_path = device_path;
        connect_timeout = connect_timeout;
        io_timeout = io_timeout;
        reconnect_initial = reconnect_initial;
        reconnect_max = reconnect_max;
      })
