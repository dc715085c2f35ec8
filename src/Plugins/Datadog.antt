-- ===== src/Plugins/Datadog.antt =====
-- plugins/datadog/collector.go: the calls of the Datadog collector, and how it is made.
use Prim.Native.String
use Prim.Native.String.{String}
use hystrix_go.Base.{ℕ, ◌⊎◌, inl, inr, List, [], ◌∷◌, ◌++◌, if◌then◌else◌, slt, sdiv}
use hystrix_go.Float.{Float64}
use hystrix_go.MetricCollector.{MetricResult}
use hystrix_go.Plugins.{Call, inc, gauge, time_in_milliseconds}

abbrev pub circuit_open : String
circuit_open = "hystrix.circuitOpen"

abbrev pub attempts : String
attempts = "hystrix.attempts"

abbrev pub errors : String
errors = "hystrix.errors"

abbrev pub successes : String
successes = "hystrix.successes"

abbrev pub failures : String
failures = "hystrix.failures"

abbrev pub rejects : String
rejects = "hystrix.rejects"

abbrev pub short_circuits : String
short_circuits = "hystrix.shortCircuits"

abbrev pub timeouts : String
timeouts = "hystrix.timeouts"

abbrev pub fallback_successes : String
fallback_successes = "hystrix.fallbackSuccesses"

abbrev pub fallback_failures : String
fallback_failures = "hystrix.fallbackFailures"

abbrev pub total_duration : String
total_duration = "hystrix.totalDuration"

abbrev pub run_duration : String
run_duration = "hystrix.runDuration"

-- `Collector`: the client, which is external, and the tags of its calls.
pub record Collector (Client : Type 0) : Type 0 where
  pub client : Client
  pub tags : List String

module _ {Client : Type 0} where
  abbrev pub new_collector_with_client : Client → String → Collector Client
  new_collector_with_client client name = record {
    client = client;
    tags = String.◌++◌ "hystrixcircuit:" name ∷ [];
  }

  -- `NewCollector`: an error of `NewBuffered` is returned.
  module _ {Error : Type 0} (new_buffered : String → ℕ → Error ⊎ Client)
      (with_namespace : String → Client → Client) where
    abbrev pub new_collector : String → String → Error ⊎ (String → Collector Client)
    new_collector addr prefix = elim (new_buffered addr 100) [
      | inl err ↦ inl err
      | inr c ↦ inr (new_collector_with_client (with_namespace prefix c))
    ]

module _ (float : Float64) where
  open float use {F, of_int}

  -- `if i > 0 { … }`
  abbrev pub if_positive : ℕ → List (Call F) → List (Call F)
  if_positive i calls = if slt 0 i then calls else []

  unfoldable pub update : MetricResult F → List (Call F)
  update r =
      if_positive r.attempts (inc attempts r.attempts ∷ [])
      ++ if_positive r.errors (inc errors r.errors ∷ [])
      ++ if_positive r.successes (gauge circuit_open 0 ∷ inc successes r.successes ∷ [])
      ++ if_positive r.failures (inc failures r.failures ∷ [])
      ++ if_positive r.rejects (inc rejects r.rejects ∷ [])
      ++ if_positive r.short_circuits
          (gauge circuit_open 1 ∷ inc short_circuits r.short_circuits ∷ [])
      ++ if_positive r.timeouts (inc timeouts r.timeouts ∷ [])
      ++ if_positive r.fallback_successes (inc fallback_successes r.fallback_successes ∷ [])
      ++ if_positive r.fallback_failures (inc fallback_failures r.fallback_failures ∷ [])
      ++ time_in_milliseconds total_duration (of_int (sdiv r.total_duration 1000000))
        ∷ time_in_milliseconds run_duration (of_int (sdiv r.run_duration 1000000))
        ∷ []
