-- ===== src/Hystrix/Program.antt =====
-- hystrix/hystrix.go with hystrix/circuit.go and hystrix/settings.go: commands of many names, each on the
-- circuit that `GetCircuit` finds or makes for its name, in one memory; and one abstract service for each name.
--
-- Nobody calls `Flush` or `Configure` meanwhile. Each part of a command is one atomic action.
pub mod Served
pub mod Added
pub mod Opened
pub mod Refined
use Prim.Native.String.{String}
use hystrix_go.Base.{ℕ, Bool, Option, none, some, List, [], ◌∷◌, get_elem?}
use hystrix_go.Base.Dict.{lookup, insert}
use hystrix_go.Circuit.Create.{register_all}
use hystrix_go.Circuit.Shared.{Circuits, get_circuit, change_at}
use hystrix_go.Float.{Float64}
use hystrix_go.Hystrix.Spec.{
  Act, begins, turned_down, ends, Reply, Service, new_service, serve, act,
}
use hystrix_go.MetricCollector.{MetricCollector, Env, initial_registry}
use hystrix_go.Metrics.{◌>>=◌}
use hystrix_go.Settings.{Settings, SettingsMap}
use hystrix_go.Settings.Lookup.{found}

abbrev pub Services : Type 0
Services = List (String × Service)

abbrev pub first_use : String → Option Service → Services → Services
first_use name none vs = insert name new_service vs
first_use name (some _) vs = vs

-- A command that begins is the first of its name, or not.
abbrev pub open_service : String → Act → Services → Services
open_service name (begins at) vs = first_use name (lookup name vs) vs
open_service name (turned_down t k err) vs = vs
open_service name (ends t k done) vs = vs

module _ (float : Float64) (initial : SettingsMap) where
  -- The settings of a name.
  abbrev pub settings_at : String → Settings
  settings_at name = (found name (lookup name initial) initial).0

  abbrev pub serve_open : String → Act → Services → Option (Reply × Services)
  serve_open name a vs = do
    v ← lookup name vs
    (reply, v) ← serve float (settings_at name) a v
    some (reply, insert name v vs)

  unfoldable pub serve_names : List (String × Act) → Services → Option (List Reply × Services)
  serve_names [] vs = some ([], vs)
  serve_names ((name, a) ∷ acts) vs = do
    (reply, vs) ← serve_open name a (open_service name a vs)
    (replies, vs) ← serve_names acts vs
    some (reply ∷ replies, vs)

module _ (env : Env) (timing : Bool) (is : List (String → MetricCollector env)) where
  pub record Memory : Type 0 where
    pub settings : SettingsMap
    pub circuits : Circuits env

  -- A command that begins calls `GetCircuit`; the other parts have their circuit.
  abbrev pub open_circuit : String → Act → Memory → Option (ℕ × Memory)
  open_circuit name (begins at) w = do
    ((cb, _), settings, circuits) ←
        get_circuit env name (register_all env is (initial_registry env)) w.circuits.table
          w.settings w.circuits
    some (cb, record { settings = settings; circuits = circuits })
  open_circuit name (turned_down t k err) w = do cb ← lookup name w.circuits.table; some (cb, w)
  open_circuit name (ends t k done) w = do cb ← lookup name w.circuits.table; some (cb, w)

  -- A part on the circuit at a place.
  abbrev pub act_at : ℕ → Act → Memory → Option (Reply × Memory)
  act_at cb a w = do
    c ← get_elem? w.circuits.made cb
    (reply, settings, c) ← act env timing a w.settings c
    some (
      reply,
      record {
        settings = settings;
        circuits = record w.circuits { made = change_at (λ _. c) cb w.circuits.made };
      },
    )

  unfoldable pub act_names : List (String × Act) → Memory → Option (List Reply × Memory)
  act_names [] w = some ([], w)
  act_names ((name, a) ∷ acts) w = do
    (cb, w) ← open_circuit name a w
    (reply, w) ← act_at cb a w
    (replies, w) ← act_names acts w
    some (reply ∷ replies, w)
