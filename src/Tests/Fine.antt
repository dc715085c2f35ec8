-- ===== src/Tests/Fine.antt =====
-- A float for the tests of the percentiles, in steps of a ten-thousandth, and what is built on it.
use hystrix_go.Base.{ℕ, suc, ◌+◌, ◌*◌, ◌/◌, ◌≤◌, ◌<◌, ◌≡◌, refl, ◌==◌, arith, false, some, [], ◌∷◌}
use hystrix_go.Circuit.{CircuitBreaker}
use hystrix_go.EventStream.Publish.{GoLibrary, Glance, Stamps}
use hystrix_go.Float.{Float64, IsFraction, IsOrdered}
use hystrix_go.MetricCollector.{MetricCollector, Env}
use hystrix_go.Rolling.Number
use hystrix_go.Rolling.Timing.{Timing}
use hystrix_go.Tests.Sample.{second, ticks, failing}

-- A float is ten thousand times its value, cut off.
abbrev pub fine : Float64
fine = record {
  F = ℕ;
  of_int = λ n. 10000 * n;
  to_int = λ x. x / 10000;
  plus = λ x y. x + y;
  times = λ x y. x * y / 10000;
  over = λ x y. 10000 * x / y;
  ceil = λ x. (x + 9999) / 10000 * 10000;
  is_zero = λ x. x == 0;
  positive = λ x. 0 < x;
  half = 5000;
  le = ◌≤◌;
}

fine_times : (x n : ℕ) → x * (10000 * n) / 10000 ≡ x * n
fine_times x n = grind arith

fine_product_le : (x n : ℕ) → x ≤ 10000 → x * n ≤ 10000 * n
fine_product_le x n h = grind arith

fine_product_pos : (x n : ℕ) → 0 < x → 0 < n → 0 < x * n
fine_product_pos x n h k = grind arith

pub fine-IsFraction : IsFraction fine
fine-IsFraction = record {
  over_le = λ x h. omega arith;
  over_positive = λ x h. omega arith;
  times_le = λ x n pos small h. rw (fine_times x n) (fine_product_le x n h);
  times_positive = λ x n k small h. rw (fine_times x n) (fine_product_pos x n h k);
  ceil_le = λ x n h. omega arith;
  ceil_positive = λ x h. omega arith;
  to_int_between = λ x n small lo hi. omega arith;
}

fine_times_mono : (x y n : ℕ) → x ≤ y → x * n ≤ y * n
fine_times_mono x y n h = grind arith

pub fine-IsOrdered : IsOrdered fine
fine-IsOrdered = record {
  fraction = fine-IsFraction;
  zero_is_zero = refl;
  suc_is_zero = λ a small. ground arith;
  half_is_zero = λ a small. ground arith;
  of_int_le = λ a b h small. omega arith;
  half_above = λ a small. omega arith;
  half_below = λ a small. omega arith;
  le_trans = λ x y z h k. omega arith;
  over_hundred_mono = λ x y h. omega arith;
  times_of_int_mono =
      λ x y n pos small h. rw (fine_times x n, fine_times y n) (fine_times_mono x y n h);
  ceil_mono = λ x y h. omega arith;
  to_int_mono_up = λ x y n small lo h hi. omega arith;
}

abbrev pub fine_sample : Env
fine_sample = record {
  float = fine;
  Custom = ℕ;
  custom_update = λ r n. suc n;
  custom_reset = λ n. 0;
}

-- The circuit of `failing` over this float.
abbrev pub fine_circuit : CircuitBreaker fine_sample
fine_circuit = record {
  name = "a";
  executor_pool = record {
    tickets = 2;
    capacity = 2;
    max_active_requests = Number.new_number;
    executed = Number.new_number;
    name = "a";
    max = 2;
  };
  metrics = record { name = "a"; metric_collectors = MetricCollector.default failing ∷ [] };
  opened_or_last_tested_time = 0;
  opened = false;
}

-- A sort that is enough for the tests, and one text for every event.
abbrev pub fine_library : GoLibrary ℕ
fine_library = record {
  sort = λ ds. ds;
  seconds = λ d. d / 100000;
  to_uint32 = λ x. x / 10000;
  marshal_command = λ event. some "{}";
  marshal_pool = λ event. some "{}";
}

abbrev pub stamps : ℕ → Stamps
stamps s = record { tested = s * second; now = s * second; cached = s * second }

abbrev pub glance : ℕ → Glance
glance s = record {
  now = s * second;
  time = s * second;
  opening = ticks s;
  total = λ k. stamps s;
  total_mean = stamps s;
  run = λ k. stamps s;
  run_mean = stamps s;
}

-- Three and eight milliseconds in second 100.
abbrev pub two_calls : Timing
two_calls = record {
  buckets = (100, 3_000_000 ∷ 8_000_000 ∷ []) ∷ [];
  cached_sorted_durations = [];
  last_cached_time = 0;
}
