-- ===== src/Tests/Circuit.antt =====
-- Runs of hystrix/circuit.go.
use hystrix_go.Base.{
  ℕ, ◌*◌, ◌^◌, ◌≤◌, ◌<◌, ◌≡◌, refl, true, false, some, [], ◌∷◌, arith, if◌then◌else◌,
}
use hystrix_go.Base.Dict.{lookup}
use hystrix_go.Circuit.{CircuitBreaker, is_open}
use hystrix_go.Circuit.Open.{IsCircuit, trips, settings_for, is_open_lem}
use hystrix_go.Circuit.Report.{report_event_lem, reported_to, reported}
use hystrix_go.Circuit.Trial.{allow_all, allow_all-single}
use hystrix_go.Hystrix.Errors.{not-eq}
use hystrix_go.Metrics.{percent}
use hystrix_go.Rolling.Number.{sum, sum_loop, new_number, increment_at}
use hystrix_go.Settings.{settings_of}
use hystrix_go.Settings.Lookup.{found}
use hystrix_go.Tests.Sample.{
  second, sample, at_second, ticks, strict, known, failing, circuit_with, open_circuit,
}

failing-IsCircuit : IsCircuit sample failing (circuit_with failing)
failing-IsCircuit = record { named = refl; first = refl }

open-IsCircuit : IsCircuit sample failing open_circuit
open-IsCircuit = record { named = refl; first = refl }

trips_run : trips sample (103 * second) strict failing ≡ true
unfolding sum sum_loop new_number increment_at percent
trips_run = refl

is_open_lem_example :
    let (s, m') = settings_for sample (circuit_with failing) known in
    is_open sample (ticks 103) known (circuit_with failing)
    ≡ some (
        if false
        then (true, known, circuit_with failing)
        else if trips sample (103 * second) s failing
        then (
          true,
          m',
          record (circuit_with failing) {
            opened = true;
            opened_or_last_tested_time = 103 * second;
          },
        )
        else (false, m', circuit_with failing))
is_open_lem_example =
    is_open_lem sample failing (circuit_with failing) failing-IsCircuit (ticks 103) known

known-a : lookup "a" known ≡ some strict
unfolding lookup
known-a = refl

allow_all-single_example :
    (n : ℕ) × (c' : CircuitBreaker sample) × (allow_all sample
        (ticks 106 ∷ ticks 107 ∷ ticks 110 ∷ [])
        known
        open_circuit
      ≡ some (n, known, c'))
    × (n ≤ 1)
    × (c'.opened ≡ true)
allow_all-single_example =
    allow_all-single sample known strict (ticks 106 ∷ ticks 107 ∷ ticks 110 ∷ []) (106 * second)
      open_circuit known-a refl (omega arith) (omega arith)
      ((omega arith, omega arith), ((omega arith, omega arith), ((omega arith, omega arith), tt)))

ten_tickets : (found "c" (lookup "c" known) known).0.max_concurrent_requests < 2 ^ 63
unfolding lookup settings_of
ten_tickets = omega arith

report_event_lem_example :
    let after =
      reported sample true
        (106 * second)
        (at_second 106)
        "success"
        ""
        (105 * second)
        second
        open_circuit in
    (after.0 ≡ true)
    × (after.1.opened ≡ false)
    × (after.1.opened_or_last_tested_time ≡ 100 * second)
    × (after.1.executor_pool ≡ open_circuit.executor_pool)
    × IsCircuit sample
        (reported_to sample true
          (106 * second)
          (at_second 106)
          "success"
          ""
          (105 * second)
          second
          open_circuit
          failing)
        after.1
report_event_lem_example =
    report_event_lem sample true (106 * second) (at_second 106) "success" "" (105 * second) second
      open_circuit failing open-IsCircuit (not-eq "success" "" refl)
