-- ===== src/Tests/Sample.antt =====
-- Concrete parameters for the tests: floats in steps of a half, a plugin that counts its updates,
-- and a circuit of two tickets.
use hystrix_go.Base.{ℕ, suc, ◌+◌, ◌*◌, ◌/◌, ◌≤◌, ◌<◌, ◌≡◌, refl, [], ◌∷◌, arith, false, true, ◌==◌}
use hystrix_go.Circuit.{CircuitBreaker, Ticks}
use hystrix_go.Float.{Float64, IsRounding}
use hystrix_go.MetricCollector.{DefaultMetricCollector, MetricCollector, Env, Readings}
use hystrix_go.Rolling.Number
use hystrix_go.Rolling.Timing
use hystrix_go.Settings.{Settings, SettingsMap}

abbrev pub second : ℕ
second = 1_000_000_000

-- A float is twice its value, cut off.
abbrev pub halves : Float64
halves = record {
  F = ℕ;
  of_int = λ n. 2 * n;
  to_int = λ x. x / 2;
  plus = λ x y. x + y;
  times = λ x y. x * y / 2;
  over = λ x y. 2 * x / y;
  ceil = λ x. (x + 1) / 2 * 2;
  is_zero = λ x. x == 0;
  positive = λ x. 0 < x;
  half = 1;
  le = ◌≤◌;
}

over_mono : (a b c : ℕ) → a ≤ b → 0 < c → 2 * (2 * a) / (2 * c) ≤ 2 * (2 * b) / (2 * c)
over_mono a b c h pos = grind arith

over_self : (a : ℕ) → 0 < a → 2 * (2 * a) / (2 * a) ≡ 2
over_self a pos = grind arith

pub halves-IsRounding : IsRounding halves
halves-IsRounding = record {
  over_mono = λ a b c le small pos small'. over_mono a b c le pos;
  over_zero = λ a pos small. omega arith;
  over_self = λ a pos small. over_self a pos;
  times_mono = λ x y le. omega arith;
  times_zero = refl;
  times_one = refl;
  plus_mono = λ x y le. omega arith;
  to_int_half = λ n le. omega arith;
  to_int_mono = λ x y lo le hi. omega arith;
}

abbrev pub sample : Env
sample = record { float = halves; Custom = ℕ; custom_update = λ r n. suc n; custom_reset = λ n. 0 }

abbrev pub at_second : ℕ → Readings
at_second s = record {
  now = s * second;
  total_current = s * second;
  total_removed = s * second;
  run_current = s * second;
  run_removed = s * second;
}

abbrev pub ticks : ℕ → Ticks
ticks s = record { checked = s * second; opened = s * second; tested = s * second }

-- Two tickets, opens at two requests with half of them errors, tests again after five seconds.
abbrev pub strict : Settings
strict = record {
  timeout = second;
  max_concurrent_requests = 2;
  request_volume_threshold = 2;
  sleep_window = 5 * second;
  error_percent_threshold = 50;
}

abbrev pub known : SettingsMap
known = ("a", strict) ∷ []

abbrev pub quiet : DefaultMetricCollector
quiet = record {
  num_requests = Number.new_number;
  errors = Number.new_number;
  successes = Number.new_number;
  failures = Number.new_number;
  rejects = Number.new_number;
  short_circuits = Number.new_number;
  timeouts = Number.new_number;
  context_canceled = Number.new_number;
  context_deadline_exceeded = Number.new_number;
  fallback_successes = Number.new_number;
  fallback_failures = Number.new_number;
  total_duration = Timing.new_timing;
  run_duration = Timing.new_timing;
}

-- Three requests in second 100, two of them failures.
abbrev pub failing : DefaultMetricCollector
failing = record quiet {
  num_requests = Number.increment_at (100 * second) 3 Number.new_number;
  errors = Number.increment_at (100 * second) 2 Number.new_number;
}

abbrev pub circuit_with : DefaultMetricCollector → CircuitBreaker sample
circuit_with d = record {
  name = "a";
  executor_pool = record {
    tickets = 2;
    capacity = 2;
    max_active_requests = Number.new_number;
    executed = Number.new_number;
    name = "a";
    max = 2;
  };
  metrics = record {
    name = "a";
    metric_collectors = MetricCollector.default d ∷ MetricCollector.custom 0 ∷ [];
  };
  opened_or_last_tested_time = 0;
  opened = false;
}

-- The circuit after it has opened in second 100.
abbrev pub open_circuit : CircuitBreaker sample
open_circuit = record (circuit_with failing) {
  opened_or_last_tested_time = 100 * second;
  opened = true;
}
