-- ===== src/Tests/Settings.antt =====
-- Runs of hystrix/settings.go.
use Prim.Native.String.{String}
use hystrix_go.Base.{◌≡◌, refl, some, List, [], ◌∷◌}
use hystrix_go.Base.Dict.{lookup}
use hystrix_go.Settings.{
  CommandConfig, SettingsMap, zero_config, configure, get_settings, settings_of,
}
use hystrix_go.Settings.Lookup.{
  IsMap, configured, in_force, found, lookup-configure, get_settings_total,
}
use hystrix_go.Tests.Sample.{known}

abbrev cmds : List (String × CommandConfig)
cmds = ("a", zero_config) ∷ ("b", record zero_config { timeout = 25 }) ∷ []

cmds-IsMap : IsMap cmds
unfolding lookup
cmds-IsMap = (refl, (refl, tt))

lookup-configure_example :
    (lookup "b" (configure cmds known) ≡ configured (lookup "b" cmds) (lookup "b" known))
    × (m' : SettingsMap) × (get_settings "b" (configure cmds known)
        ≡ some (in_force (configured (lookup "b" cmds) (lookup "b" known)), m'))
lookup-configure_example = lookup-configure cmds "b" known cmds-IsMap

get_settings_total_example : get_settings "c" known ≡ some (found "c" (lookup "c" known) known)
get_settings_total_example = get_settings_total "c" known

-- The defaults: ten tickets and a timeout of a second.
defaults_run : (settings_of zero_config).timeout ≡ 1_000_000_000
unfolding settings_of
defaults_run = refl
