-- ===== src/Tests/Publish.antt =====
-- Runs of what hystrix/eventstream.go publishes.
use hystrix_go.Base.{
  List, ℕ, zero, suc, ◌*◌, ◌^◌, ◌≤◌, ◌<◌, ◌≡◌, refl, false, not, ◌&&◌, ◌||◌, leb, slt, some, [],
  ◌∷◌, get_elem?, arith,
}
use hystrix_go.Base.Dict.{lookup}
use Prim.Native.String.{String}
use hystrix_go.EventStream.{Requests, events_of}
use hystrix_go.EventStream.Loop.{Round, publish_all}
use hystrix_go.EventStream.Loop.Tick.{IsJson, IsWatched, Published, publish_all-read_events}
use hystrix_go.EventStream.Reader.{read_events, is_payload}
use hystrix_go.EventStream.Reader.RoundTrip.{received}
use hystrix_go.Settings.{SettingsMap}
use hystrix_go.Circuit.{CircuitBreaker}
use hystrix_go.Circuit.Open.{IsCircuit}
use hystrix_go.EventStream.Event.{StreamCmdMetric, StreamCmdLatency}
use hystrix_go.EventStream.Publish.{command_metric, generate_latency_timings}
use hystrix_go.EventStream.Publish.Latency.{IsSmall}
use hystrix_go.EventStream.Publish.Latency.Ascending.{
  IsAscending, generate_latency_timings-IsAscending,
}
use hystrix_go.EventStream.Publish.Shown.{command_metric_consistent}
use hystrix_go.Metrics.{percent}
use hystrix_go.Rolling.Timing.{new_timing, collect, sorted_durations}
use hystrix_go.Rolling.Timing.Percentile.{AreTimes}
use hystrix_go.Tests.Fine.{
  fine, fine-IsOrdered, fine_sample, fine_circuit, fine_library, stamps, glance, two_calls,
}
use hystrix_go.Tests.Sample.{second, known, failing}

two_ascending :
    (i j x y : ℕ)
    → i ≤ j
    → get_elem? {A = ℕ} (3_000_000 ∷ 8_000_000 ∷ []) i ≡ some x
    → get_elem? {A = ℕ} (3_000_000 ∷ 8_000_000 ∷ []) j ≡ some y
    → x ≤ y
two_ascending zero zero x y h e f =
    let a : 3_000_000 ≡ x = cc in let b : 3_000_000 ≡ y = cc in omega arith
two_ascending zero (suc zero) x y h e f =
    let a : 3_000_000 ≡ x = cc in let b : 8_000_000 ≡ y = cc in omega arith
two_ascending zero (suc (suc j)) x y h e f = absurd cc
two_ascending (suc zero) zero x y h e f = absurd (omega arith)
two_ascending (suc zero) (suc zero) x y h e f =
    let a : 8_000_000 ≡ x = cc in let b : 8_000_000 ≡ y = cc in omega arith
two_ascending (suc zero) (suc (suc j)) x y h e f = absurd cc
two_ascending (suc (suc i)) j x y h e f = absurd cc

two_short :
    (i x : ℕ) → get_elem? {A = ℕ} (3_000_000 ∷ 8_000_000 ∷ []) i ≡ some x → x < 2 ^ 32 * 1000000
two_short zero x e = let a : 3_000_000 ≡ x = cc in omega arith
two_short (suc zero) x e = let a : 8_000_000 ≡ x = cc in omega arith
two_short (suc (suc i)) x e = absurd cc

two_calls-AreTimes : AreTimes (3_000_000 ∷ 8_000_000 ∷ [])
two_calls-AreTimes = record { ascending = two_ascending; short = two_short; few = omega arith }

generate_latency_timings-IsAscending_example :
    let (r', ds) =
      sorted_durations fine_library.sort (130 * second) (130 * second) (130 * second) two_calls in
    (l : StreamCmdLatency) × (generate_latency_timings fine fine_library.sort
        (λ k. stamps 130)
        two_calls
      ≡ some (l, r'))
    × IsAscending l
unfolding sorted_durations collect
generate_latency_timings-IsAscending_example =
    generate_latency_timings-IsAscending fine fine-IsOrdered fine_library.sort (λ k. stamps 130)
      two_calls two_calls-AreTimes (λ k. refl)

fine-IsCircuit : IsCircuit fine_sample failing fine_circuit
fine-IsCircuit = record { named = refl; first = refl }

new_timing-IsSmall : IsSmall fine_library.sort new_timing
unfolding new_timing collect
new_timing-IsSmall = record { collected = λ now. omega arith; stored = omega arith }

command_metric_consistent_example :
    (event : StreamCmdMetric) × (c' : CircuitBreaker fine_sample) × (command_metric fine_sample
        fine_library
        (glance 103)
        known
        fine_circuit
      ≡ some (event, known, c'))
    × (event.circuit_breaker_open ≡ (
        false
        || (leb event.circuit_breaker_request_volume_threshold event.request_count
            && not (slt event.error_pct event.circuit_breaker_error_threshold_percent))))
    × (event.error_pct ≡ percent fine event.request_count event.error_count)
    × (c'.opened ≡ event.circuit_breaker_open)
unfolding lookup
command_metric_consistent_example =
    command_metric_consistent fine_sample fine-IsOrdered fine_library failing fine_circuit
      fine-IsCircuit (glance 103) known new_timing-IsSmall new_timing-IsSmall refl (omega arith)
      (omega arith)

fine-IsJson : IsJson fine_sample fine_library
unfolding is_payload
fine-IsJson = record {
  command_text = λ event. ("{}", refl, refl);
  pool_text = λ event. ("{}", refl, refl);
}

fine-IsWatched : IsWatched fine_sample fine_library fine_circuit
fine-IsWatched = record {
  d = failing;
  is_circuit = fine-IsCircuit;
  total = new_timing-IsSmall;
  run = new_timing-IsSmall;
}

abbrev rounds : List (Round fine_sample fine_library × CircuitBreaker fine_sample)
rounds = (record { command = glance 103; pool = 103 * second }, fine_circuit) ∷ []

publish_all-read_events_example :
    (cbs : List (CircuitBreaker fine_sample)) × (m' : SettingsMap) × (clients' : Requests)
    × (waiting : List String) × (publish_all fine_sample fine_library rounds known ((7, []) ∷ [])
        ≡ some (cbs, m', clients'))
    × (events_of 7 clients' ≡ some waiting)
    × Published fine_sample fine_library rounds known (read_events (received waiting))
unfolding events_of
publish_all-read_events_example =
    publish_all-read_events fine_sample fine_library fine-IsOrdered fine-IsJson rounds known
      ((7, []) ∷ []) 7 (fine-IsWatched, tt) (omega arith) refl
