-- ===== src/EventStream/Publish/Shown.antt =====
-- What an event shows of its circuit.
use hystrix_go.Base.{
  ◌^◌, ◌<◌, ◌≡◌, refl, Bool, true, false, not, ◌&&◌, ◌||◌, some, arith, leb, slt, ◌%◌, by_cases,
  if◌then◌else◌,
}
use hystrix_go.Circuit.{CircuitBreaker, is_open}
use hystrix_go.Circuit.Open.{IsCircuit, trips, settings_for, is_open_lem}
use hystrix_go.EventStream.Event.{StreamCmdMetric, StreamCmdLatency}
use hystrix_go.EventStream.Publish.{Glance, GoLibrary, command_metric, with_default}
use hystrix_go.EventStream.Publish.Latency.{IsSmall, generate_latency_timings-some}
use hystrix_go.Float.{IsOrdered}
use hystrix_go.MetricCollector.{DefaultMetricCollector, Env}
use hystrix_go.Metrics.{default_collector, requests, percent, error_percent}
use hystrix_go.Rolling.Number.{sum}
use hystrix_go.Rolling.Timing.{Timing, mean}
use hystrix_go.Settings.{Settings, SettingsMap, get_settings}
use hystrix_go.Settings.Lookup.{get_settings_total, get_settings_again}
use hystrix_go.EventStream.Publish.{command_event, generate_latency_timings}

module _ (env : Env) (laws : IsOrdered env.float) (go : GoLibrary env.float.F) where
  open env use {float}

  module _ (d : DefaultMetricCollector) (c : CircuitBreaker env) (wf : IsCircuit env d c)
      (at : Glance) (m : SettingsMap) where
    abbrev s : Settings
    s = (settings_for env c m).0

    abbrev calls_for_opening : Bool
    calls_for_opening = trips env at.opening.checked s d

    abbrev m' : SettingsMap
    m' = (settings_for env c m).1

    -- What `IsOpen` returns.
    abbrev tested : Bool × SettingsMap × CircuitBreaker env
    tested =
        if c.opened
        then (true, m, c)
        else if calls_for_opening
        then (true, m', record c { opened = true; opened_or_last_tested_time = at.opening.opened })
        else (false, m', c)

    -- The settings that the calls of `getSettings` find after `IsOpen`.
    settings_after :
        (tested.0 ≡ (c.opened || calls_for_opening))
        × (tested.2.name ≡ c.name)
        × (tested.2.metrics ≡ c.metrics)
        × (tested.2.opened ≡ tested.0)
        × (get_settings c.name tested.1 ≡ some (s, m'))
    settings_after =
        by_cases c.opened (λ e. rw e (refl, refl, refl, refl, get_settings_total c.name m))
          (λ e.
            by_cases calls_for_opening
              (λ h. rw (e, h) (refl, refl, refl, refl, get_settings_again c.name m))
              (λ h. rw (e, h) (refl, refl, refl, refl, get_settings_again c.name m)))

    is_open-tested : is_open env at.opening m c ≡ some tested
    is_open-tested = is_open_lem env d c wf at.opening m

    -- The event for these latencies, and the circuit with these timings.
    event_with : StreamCmdLatency → Timing → StreamCmdLatency → Timing → StreamCmdMetric
    event_with lt t lr r =
        command_event env go at d c.name
          (percent float (sum at.now d.num_requests) (sum at.now d.errors)) tested.0 lt
          (mean go.sort at.total_mean.tested at.total_mean.now at.total_mean.cached t).1 lr
          (mean go.sort at.run_mean.tested at.run_mean.now at.run_mean.cached r).1 s s s

    circuit_with : Timing → Timing → CircuitBreaker env
    circuit_with t r = record tested.2 {
      metrics = record tested.2.metrics {
        metric_collectors =
            with_default env
              (record d {
                total_duration =
                    (mean go.sort at.total_mean.tested at.total_mean.now at.total_mean.cached t).0;
                run_duration =
                    (mean go.sort at.run_mean.tested at.run_mean.now at.run_mean.cached r).0;
              })
              tested.2.metrics.metric_collectors;
      };
    }

    command_metric-eq :
        (lt lr : StreamCmdLatency) (t r : Timing)
        → generate_latency_timings float go.sort at.total d.total_duration ≡ some (lt, t)
        → generate_latency_timings float go.sort at.run d.run_duration ≡ some (lr, r)
        → command_metric env go at m c ≡ some (event_with lt t lr r, m', circuit_with t r)
    unfolding command_metric requests default_collector error_percent event_with circuit_with
    command_metric-eq lt lr t r e e' =
        let (shows, named, same, opened, settings) = settings_after in
        let again : get_settings c.name m' ≡ some (s, m') = get_settings_again c.name m in
        rw (wf.first, is_open-tested, e, e', named, settings, again, again) refl

    -- Making the event does not panic.
    pub command_metric-some :
        IsSmall go.sort d.total_duration
        → IsSmall go.sort d.run_duration
        → (event : StreamCmdMetric) × (c' : CircuitBreaker env) × (command_metric env go at m c
            ≡ some (event, (settings_for env c m).1, c'))
    command_metric-some total run =
        let (lt, t, e, _) =
          generate_latency_timings-some float laws go.sort at.total d.total_duration total in
        let (lr, r, e', _) =
          generate_latency_timings-some float laws go.sort at.run d.run_duration run in
        (event_with lt t lr r, circuit_with t r, command_metric-eq lt lr t r e e')

    -- For a circuit with its default collector in the first place and fewer than 2^53 durations
    -- in each of its timings at any time, and a float64 that keeps order as IsOrdered says,
    -- making the event does not panic. If `IsOpen` reads the clock where the counters are read,
    -- and the two thresholds fit in 32 bits, the event shows the circuit open exactly if it was
    -- open, or the counts and thresholds that the event itself shows call for opening; the
    -- circuit is then left in the state that the event shows. The percentage is that of the two
    -- counts of the event.
    pub command_metric_consistent :
        IsSmall go.sort d.total_duration
        → IsSmall go.sort d.run_duration
        → at.opening.checked ≡ at.now
        → (settings_for env c m).0.request_volume_threshold < 2 ^ 32
        → (settings_for env c m).0.error_percent_threshold < 2 ^ 32
        → (event : StreamCmdMetric) × (c' : CircuitBreaker env) × (command_metric env go at m c
            ≡ some (event, (settings_for env c m).1, c'))
          × (event.circuit_breaker_open ≡ (
              c.opened
              || (leb event.circuit_breaker_request_volume_threshold event.request_count
                  && not (slt event.error_pct event.circuit_breaker_error_threshold_percent))))
          × (event.error_pct ≡ percent float event.request_count event.error_count)
          × (c'.opened ≡ event.circuit_breaker_open)
    unfolding command_event event_with circuit_with
    command_metric_consistent total run same few few' =
        let (lt, t, e, _) =
          generate_latency_timings-some float laws go.sort at.total d.total_duration total in
        let (lr, r, e', _) =
          generate_latency_timings-some float laws go.sort at.run d.run_duration run in
        let (shows, _, _, opened, _) = settings_after in
        let volume : s.request_volume_threshold % 2 ^ 32 ≡ s.request_volume_threshold =
          omega arith in
        let error : s.error_percent_threshold % 2 ^ 32 ≡ s.error_percent_threshold = omega arith in
        (
          event_with lt t lr r,
          circuit_with t r,
          command_metric-eq lt lr t r e e',
          rw (volume, error, ← same) shows,
          refl,
          opened,
        )
