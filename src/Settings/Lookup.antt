-- ===== src/Settings/Lookup.antt =====
-- What is found in the settings after `Configure`, and what `getSettings` returns.
use Prim.Native.String.{String}
use text.Mathlib.Text.{◌==◌ as str_eq}
use text.Mathlib.TextEquality.{eq_iff}
use text.Mathlib.TextPositions.{eq_refl}
use hystrix_go.Base.{
  ℕ, zero, suc, ◌*◌, ◌%◌, ◌^◌, false, ◌≡◌, refl, ap, ◌∙◌, inl, inr, Option, none, some, List, [],
  ◌∷◌, arith, Option-cases,
}
use hystrix_go.Base.Dict.{lookup, insert, lookup-insert}
use hystrix_go.Settings.{
  Settings, CommandConfig, SettingsMap, or_default, settings_of, configure, configure_command,
  zero_config, get_settings_loop, get_settings,
}

-- No key stands twice, as in a Go map.
abbrev pub IsMap {ℓ} : {V : Type ℓ} → List (String × V) → Type ℓ
IsMap [] = Unit
IsMap ((k, _) ∷ m) = (lookup k m ≡ none) × IsMap m

-- A value, or what stands for a value of zero.
abbrev pub or_else : ℕ → ℕ → ℕ
or_else zero d = d
or_else (suc v) d = suc v

-- Milliseconds as a `time.Duration`.
abbrev pub nanoseconds : ℕ → ℕ
nanoseconds ms = ms * 1_000_000 % 2 ^ 64

-- The settings that a config asks for.
abbrev pub asked : CommandConfig → Settings
asked v = record {
  timeout = nanoseconds (or_else v.timeout 1000);
  max_concurrent_requests = or_else v.max_concurrent_requests 10;
  request_volume_threshold = or_else v.request_volume_threshold 20;
  sleep_window = nanoseconds (or_else v.sleep_window 5000);
  error_percent_threshold = or_else v.error_percent_threshold 50;
}

or_default-or_else : (v d : ℕ) → or_default v d ≡ or_else v d
or_default-or_else zero d = refl
or_default-or_else (suc v) d = ground arith

settings_of-asked : (v : CommandConfig) → settings_of v ≡ asked v
unfolding settings_of
settings_of-asked v =
    rw
      (
        or_default-or_else v.timeout 1000,
        or_default-or_else v.max_concurrent_requests 10,
        or_default-or_else v.request_volume_threshold 20,
        or_default-or_else v.sleep_window 5000,
        or_default-or_else v.error_percent_threshold 50,
      )
      refl

-- What is stored under a name: what `Configure` is asked for, and otherwise what was there.
abbrev pub configured : Option CommandConfig → Option Settings → Option Settings
configured (some v) old = some (asked v)
configured none old = old

-- What is in force for an entry: without one the defaults.
abbrev pub in_force : Option Settings → Settings
in_force (some s) = s
in_force none = asked zero_config

lookup-configure_map :
    (cmds : List (String × CommandConfig)) (name : String) (m : SettingsMap)
    → IsMap cmds
    → lookup name (configure cmds m) ≡ configured (lookup name cmds) (lookup name m)
unfolding configure lookup
lookup-configure_map [] name m h = refl
lookup-configure_map ((k, v) ∷ cmds) name m h = ground (
  arith,
  settings_of-asked v,
  lookup-configure_map cmds name (insert k (settings_of v) m) h.1,
  lookup-insert k name (settings_of v) m,
  eq_iff k name,
)

lookup-configure_command :
    (name : String) (v : CommandConfig) (m : SettingsMap)
    → lookup name (configure_command name v m) ≡ some (settings_of v)
unfolding configure_command
lookup-configure_command name v m = simp (lookup-insert, eq_refl)

-- What `getSettings` returns and stores for what it finds.
abbrev pub found : String → Option Settings → SettingsMap → Settings × SettingsMap
found name (some s) m = (s, m)
found name none m = (settings_of zero_config, configure_command name zero_config m)

-- `getSettings` ends after at most one call of itself. It returns the settings of the name and
-- changes nothing, or it stores and returns the defaults.
pub get_settings_total :
    (name : String) (m : SettingsMap) → get_settings name m ≡ some (found name (lookup name m) m)
unfolding get_settings get_settings_loop
get_settings_total name m = ground (arith, lookup-configure_command name zero_config m)

found-in_force :
    (name : String) (entry : Option Settings) (m : SettingsMap)
    → found name entry m ≡ (in_force entry, (found name entry m).1)
found-in_force name none m = ap (λ s. (s, (found name none m).1)) (settings_of-asked zero_config)
found-in_force name (some s) m = refl

-- After `Configure` with a map, each name once, a name of its argument has the settings that its
-- config asks for: its values, the durations as nanoseconds in 64 bits, and for a value of zero 1000 ms, ten
-- tickets, twenty requests, 5000 ms and 50 percent. Any other name has the settings that it had
-- before. `getSettings` then returns the settings of the name, or the defaults where it has none.
pub lookup-configure :
    (cmds : List (String × CommandConfig)) (name : String) (m : SettingsMap)
    → IsMap cmds
    → (lookup name (configure cmds m) ≡ configured (lookup name cmds) (lookup name m))
      × (m' : SettingsMap) × (get_settings name (configure cmds m)
          ≡ some (in_force (configured (lookup name cmds) (lookup name m)), m'))
lookup-configure cmds name m h =
    let stored = lookup-configure_map cmds name m h in
    let after = configure cmds m in
    let (s, m') = found name (lookup name after) after in
    (
      stored,
      m',
      get_settings_total name after
          ∙ ap some (found-in_force name (lookup name after) after)
          ∙ ap (λ o. some (in_force o, m')) stored,
    )

pub lookup-found :
    (name : String) (m : SettingsMap)
    → let (s, m') = found name (lookup name m) m in lookup name m' ≡ some s
lookup-found name m = elim (Option-cases (lookup name m)) [
  | inl e ↦ rw e (lookup-configure_command name zero_config m)
  | inr (s, e) ↦ rw e e
]

-- The settings of other names are left alone.
pub lookup-found_other :
    (name other : String) (m : SettingsMap)
    → str_eq name other ≡ false
    → lookup other (found name (lookup name m) m).1 ≡ lookup other m
unfolding configure_command
lookup-found_other name other m h = elim (Option-cases (lookup name m)) [
  | inl e ↦ rw e (rw (lookup-insert, h) refl)
  | inr (s, e) ↦ rw e refl
]

-- What is found depends on the entry alone.
pub found-settings :
    (name : String) (entry : Option Settings) (m m' : SettingsMap)
    → (found name entry m).0 ≡ (found name entry m').0
found-settings name none m m' = refl
found-settings name (some s) m m' = refl

-- A second call returns the same settings and changes nothing more.
pub get_settings_again :
    (name : String) (m : SettingsMap)
    → let (s, m') = found name (lookup name m) m in get_settings name m' ≡ some (s, m')
get_settings_again name m = elim (Option-cases (lookup name m)) [
  | inl e ↦ rw e (rw (get_settings_total, lookup-configure_command name zero_config m))
  | inr (s, e) ↦ rw e (rw (get_settings_total, e))
]
