-- ===== src/Settings.antt =====
-- hystrix/settings.go: the settings of every command, and their defaults.
--
-- The state is the map that `circuitSettings` points to; the mutex and the copy that keeps readers
-- apart from writers are left out. Numbers and durations are patterns of 64 bits. The defaults are
-- variables that other packages may assign; they are taken at their first values.
pub mod Lookup
use Prim.Native.String.{String}
use hystrix_go.Base.{ℕ, zero, suc, Option, none, some, List, [], ◌∷◌, ◌==◌, if◌then◌else◌, mul64}
use hystrix_go.Base.Dict.{lookup, insert}

abbrev pub default_timeout : ℕ
default_timeout = 1000

abbrev pub default_max_concurrent : ℕ
default_max_concurrent = 10

abbrev pub default_volume_threshold : ℕ
default_volume_threshold = 20

abbrev pub default_sleep_window : ℕ
default_sleep_window = 5000

abbrev pub default_error_percent_threshold : ℕ
default_error_percent_threshold = 50

pub record Settings : Type 0 where
  pub timeout : ℕ
  pub max_concurrent_requests : ℕ
  pub request_volume_threshold : ℕ
  pub sleep_window : ℕ
  pub error_percent_threshold : ℕ

pub record CommandConfig : Type 0 where
  pub timeout : ℕ
  pub max_concurrent_requests : ℕ
  pub request_volume_threshold : ℕ
  pub sleep_window : ℕ
  pub error_percent_threshold : ℕ

abbrev pub SettingsMap : Type 0
SettingsMap = List (String × Settings)

-- `cmp.Or(v, d)`
abbrev pub or_default : ℕ → ℕ → ℕ
or_default v d = if v == 0 then d else v

-- `time.Millisecond`
abbrev pub millisecond : ℕ
millisecond = 1_000_000

-- The settings that `Configure` stores for a config.
unfoldable pub settings_of : CommandConfig → Settings
settings_of v = record {
  timeout = mul64 (or_default v.timeout default_timeout) millisecond;
  max_concurrent_requests = or_default v.max_concurrent_requests default_max_concurrent;
  request_volume_threshold = or_default v.request_volume_threshold default_volume_threshold;
  sleep_window = mul64 (or_default v.sleep_window default_sleep_window) millisecond;
  error_percent_threshold = or_default v.error_percent_threshold default_error_percent_threshold;
}

-- The loop of `Configure`, over the entries in the order in which Go walks the map.
unfoldable pub configure : List (String × CommandConfig) → SettingsMap → SettingsMap
configure [] settings = settings
configure ((k, v) ∷ cmds) settings = configure cmds (insert k (settings_of v) settings)

unfoldable pub configure_command : String → CommandConfig → SettingsMap → SettingsMap
unfolding configure
configure_command name config settings = configure ((name, config) ∷ []) settings

abbrev pub zero_config : CommandConfig
zero_config = record {
  timeout = 0;
  max_concurrent_requests = 0;
  request_volume_threshold = 0;
  sleep_window = 0;
  error_percent_threshold = 0;
}

-- `getSettings` calls itself after it has stored the defaults: `fuel` bounds the depth of the calls.
unfoldable pub get_settings_loop : ℕ → String → SettingsMap → Option (Settings × SettingsMap)
get_settings_loop zero name settings = none
get_settings_loop (suc fuel) name settings =
    let again = get_settings_loop fuel name (configure_command name zero_config settings) in
    elim (lookup name settings) [ some s ↦ some (s, settings) | none ↦ again ]

unfoldable pub get_settings : String → SettingsMap → Option (Settings × SettingsMap)
get_settings name settings = get_settings_loop 2 name settings

-- `GetCircuitSettings`: a copy of the map.
unfoldable pub get_circuit_settings : SettingsMap → SettingsMap
get_circuit_settings settings = settings
