-- ===== src/Plugins/Gauge.antt =====
-- What the gauges of the plugins show.
use Prim.Native.String.{String}
use text.Mathlib.Text.{◌==◌ as str_eq}
use text.Mathlib.TextEquality.{eq_iff}
use hystrix_go.Base.{
  ℕ, ◌≡◌, refl, Bool, true, false, List, [], ◌∷◌, ◌++◌, ◌==◌, if◌then◌else◌, arith,
}
use hystrix_go.Float.{Float64}
use hystrix_go.MetricCollector.{MetricResult}
use hystrix_go.Metrics.Outcome.{IsOutcome}
use hystrix_go.Plugins.{Call, inc, gauge, timing_duration, timing, time_in_milliseconds}
use hystrix_go.Plugins.Datadog
use hystrix_go.Plugins.Statsd
use hystrix_go.Plugins.Statsd.{new_statsd_collector, increment_counter_metric, circuit_open_gauge}

module _ (float : Float64) where
  open float use {F}

  -- What a gauge shows after some calls, where it showed `v` before.
  abbrev pub shown : String → List (Call F) → ℕ → ℕ
  shown key [] v = v
  shown key (gauge name w ∷ calls) v = shown key calls (if str_eq name key then w else v)
  shown key (_ ∷ calls) v = shown key calls v

  shown-append :
      (key : String) (first rest : List (Call F)) (v : ℕ)
      → shown key (first ++ rest) v ≡ shown key rest (shown key first v)
  shown-append key [] rest v = refl
  shown-append key (inc name i ∷ calls) rest v = shown-append key calls rest v
  shown-append key (gauge name w ∷ calls) rest v =
      shown-append key calls rest (if str_eq name key then w else v)
  shown-append key (timing_duration name i ∷ calls) rest v = shown-append key calls rest v
  shown-append key (timing name i ∷ calls) rest v = shown-append key calls rest v
  shown-append key (time_in_milliseconds name i ∷ calls) rest v = shown-append key calls rest v

  shown-increment :
      (key name : String) (i v : ℕ) → shown key (increment_counter_metric float name i) v ≡ v
  unfolding increment_counter_metric
  shown-increment key name i v = ground arith

  shown-if :
      (key : String) (b : Bool) (calls : List (Call F)) (v : ℕ)
      → shown key (if b then calls else []) v ≡ (if b then shown key calls v else v)
  shown-if key true calls v = refl
  shown-if key false calls v = refl

  -- A success shows a closed circuit, a short circuit an open one; nothing else changes the gauge.
  abbrev pub circuit_shown : MetricResult F → ℕ → ℕ
  circuit_shown r v = if r.successes == 1 then 0 else if r.short_circuits == 1 then 1 else v

  statsd_shown :
      (g : Statsd.Collector) (r : MetricResult F) (v : ℕ)
      → IsOutcome r
      → shown g.circuit_open_prefix (Statsd.update float g r) v ≡ circuit_shown r v
  unfolding Statsd.update circuit_open_gauge
  statsd_shown g r v h =
      simp (shown-append, shown-increment)
        (ground (arith, h, (eq_iff g.circuit_open_prefix g.circuit_open_prefix).1 refl))

  datadog_shown :
      (r : MetricResult F) (v : ℕ)
      → IsOutcome r
      → shown "hystrix.circuitOpen" (Datadog.update float r) v ≡ circuit_shown r v
  unfolding Datadog.update
  datadog_shown r v h = simp (shown-append, shown-if) (ground (arith, h))

  -- After any result of one attempt with at most one outcome the gauges of statsd and of Datadog
  -- agree: they show a closed circuit after a success, an open one after a short circuit, and
  -- else what they showed before.
  pub gauges_agree :
      (circuit : String) (r : MetricResult F) (v : ℕ)
      → IsOutcome r
      → let g = new_statsd_collector circuit in
        (shown g.circuit_open_prefix (Statsd.update float g r) v ≡ circuit_shown r v)
        × (shown "hystrix.circuitOpen" (Datadog.update float r) v ≡ circuit_shown r v)
  gauges_agree circuit r v h =
      (statsd_shown (new_statsd_collector circuit) r v h, datadog_shown r v h)
