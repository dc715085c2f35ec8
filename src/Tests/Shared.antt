-- ===== src/Tests/Shared.antt =====
-- Runs of GetCircuit and Flush in hystrix/circuit.go.
use text.Mathlib.Text.{◌==◌ as str_eq}
use text.Mathlib.TextEquality.{eq_iff}
use hystrix_go.Base.{false, ◌≡◌, some, ◌^◌, ◌<◌, refl, [], ◌∷◌, arith, by_cases}
use hystrix_go.Base.Dict.{lookup}
use hystrix_go.Circuit.Create.{register_all}
use hystrix_go.Circuit.Shared.{Circuits, get_circuit, flush}
use hystrix_go.Circuit.Shared.Lookups.{Got, Grown, IsTable, get_circuit_lem}
use hystrix_go.Circuit.Shared.Flushed.{IsFlushed, flush_lem}
use hystrix_go.MetricCollector.{MetricCollector, initial_registry}
use hystrix_go.Settings.Lookup.{found}
use hystrix_go.Tests.Sample.{sample, known, quiet, circuit_with}

abbrev one : Circuits sample
one = record { made = circuit_with quiet ∷ []; table = ("a", 0) ∷ [] }

one-IsTable : IsTable sample one
unfolding lookup
one-IsTable n =
    by_cases (str_eq "a" n)
      (λ same.
        rw same
          (record { circuit = circuit_with quiet; there = refl; named = (eq_iff "a" n).0 same }))
      (λ other. rw other tt)

two_tickets : (found "a" (lookup "a" known) known).0.max_concurrent_requests < 2 ^ 63
unfolding lookup
two_tickets = omega arith

none_before : Grown [] one.table
unfolding lookup
none_before n = tt

-- Another goroutine has entered the circuit since the first load.
get_circuit_lem_example : Got sample "a" one (
    get_circuit sample "a"
      (register_all sample ((λ _. MetricCollector.custom 0) ∷ []) (initial_registry sample))
      []
      known
      one)
get_circuit_lem_example =
    get_circuit_lem sample ((λ _. MetricCollector.custom 0) ∷ []) "a" [] known one one-IsTable
      none_before two_tickets

-- With a `Flush` between its two loads, `GetCircuit` returns the circuit that the first one found,
-- which no name leads to any more.
flushed_between_run :
    get_circuit sample "a" (initial_registry sample) one.table known (flush sample one)
    ≡ some ((0, false), known, flush sample one)
unfolding get_circuit lookup
flushed_between_run = refl

a_at_0 : lookup "a" one.table ≡ some 0
unfolding lookup
a_at_0 = refl

flush_lem_example :
    ((flush sample one).table ≡ [])
    × IsFlushed sample (flush sample one).made 0 (circuit_with quiet)
flush_lem_example =
    flush_lem sample one "a" 0 quiet (circuit_with quiet) a_at_0 refl
      (record { named = refl; first = refl })
