-- ===== src/Tests/Prometheus.antt =====
-- Runs of the Prometheus collector.
use Prim.Native.String.{String}
use hystrix_go.Base.{ℕ, ◌*◌, ◌≡◌, refl, none, some, List, [], ◌∷◌, map, if◌then◌else◌}
use hystrix_go.Plugins.Prometheus.{Registerer, with_histogram_buckets, new_collector}
use hystrix_go.Plugins.Prometheus.Once.{mem, full_name, IsRegisterer, vectors, new_collector_once}
use hystrix_go.Tests.Metrics.{failed}
use hystrix_go.Tests.Sample.{second}
use hystrix_go.MetricCollector.{MetricResult}
use hystrix_go.Metrics.{build_result}

-- A registerer that knows the names that are taken.
abbrev by_name : Registerer ℕ
by_name = record {
  R = List String;
  register = λ v r. if mem (full_name v) r then none else some (full_name v ∷ r);
}

abbrev by_name-IsRegisterer : IsRegisterer by_name
by_name-IsRegisterer = record {
  taken = λ r. r;
  accepts = λ v r h. (full_name v ∷ r, rw h refl, refl);
  refuses = λ v r h. rw h refl;
}

abbrev buckets : List (List ℕ)
buckets = (1 ∷ []) ∷ (1 ∷ 5 ∷ []) ∷ []

new_collector_once_example :
    (r' : List String) × (new_collector by_name ("up" ∷ []) (map with_histogram_buckets buckets)
      ≡ some (vectors (record { histogram_buckets = 1 ∷ 5 ∷ [] }), r'))
    × (new_collector by_name r' [] ≡ none)
new_collector_once_example =
    new_collector_once by_name by_name-IsRegisterer ("up" ∷ []) buckets [] (
      refl,
      (
        refl,
        (
          refl,
          (
            refl,
            (refl, (refl, (refl, (refl, (refl, (refl, (refl, (refl, (refl, (refl, tt)))))))))),
          ),
        ),
      ),
    )

abbrev result : MetricResult ℕ
result = build_result (100 * second) failed
