-- ===== src/Circuit/Open.antt =====
-- When a circuit opens.
use hystrix_go.Base.{ℕ, ◌≡◌, Bool, true, false, not, ◌&&◌, some, leb, if◌then◌else◌, slt, arith}
use hystrix_go.Base.Dict.{lookup}
use hystrix_go.Circuit.{Ticks, CircuitBreaker, is_open, set_open}
use hystrix_go.MetricCollector.{DefaultMetricCollector, Env}
use hystrix_go.Metrics.{default_of, default_collector, requests, percent, is_healthy}
use hystrix_go.Rolling.Number.{sum}
use hystrix_go.Settings.{Settings, SettingsMap}
use hystrix_go.Settings.Lookup.{found, get_settings_total, get_settings_again}

module _ (env : Env) where
  open env use {float}

  -- The default collector `d` stands first, and the metrics go by the circuit's name.
  pub record IsCircuit (d : DefaultMetricCollector) (c : CircuitBreaker env) : Type 0 where
    pub named : c.metrics.name ≡ c.name
    pub first : default_of env c.metrics.metric_collectors ≡ some d

  -- Enough requests in the window, and too many of them are errors.
  abbrev pub trips : ℕ → Settings → DefaultMetricCollector → Bool
  trips now s d =
      leb s.request_volume_threshold (sum now d.num_requests)
      && not (
          slt (percent float (sum now d.num_requests) (sum now d.errors)) s.error_percent_threshold)

  -- What `getSettings` returns for the circuit, and the settings after that.
  abbrev pub settings_for : CircuitBreaker env → SettingsMap → Settings × SettingsMap
  settings_for c m = found c.name (lookup c.name m) m

  module _ (d : DefaultMetricCollector) (c : CircuitBreaker env) (wf : IsCircuit d c) where
    open wf use {named, first}

    requests_lem : requests env c.metrics ≡ some d.num_requests
    unfolding requests default_collector
    requests_lem = rw first

    is_healthy_lem :
        (now : ℕ) (m : SettingsMap)
        → is_healthy env now (settings_for c m).1 c.metrics
          ≡ some (
            slt
                (percent float (sum now d.num_requests) (sum now d.errors))
                (settings_for c m).0.error_percent_threshold,
            (settings_for c m).1,
          )
    unfolding is_healthy
    is_healthy_lem now m = rw (first, named, get_settings_again c.name m)

    -- `IsOpen` on every path, for a circuit with its default collector in the first place: an
    -- open circuit stays as it is. A closed one opens exactly if in the window it has at least as
    -- many requests as the threshold and an error percentage that reaches the threshold; then the
    -- time is stored. Otherwise it is left alone.
    pub is_open_lem :
        (at : Ticks) (m : SettingsMap)
        → let (s, m') = settings_for c m in
          is_open env at m c
          ≡ some (
              if c.opened
              then (true, m, c)
              else if trips at.checked s d
              then (true, m', record c { opened = true; opened_or_last_tested_time = at.opened })
              else (false, m', c))
    unfolding is_open set_open
    is_open_lem at m =
        ground (arith, requests_lem, get_settings_total c.name m, is_healthy_lem at.checked m)
