-- ===== src/Plugins.antt =====
-- plugins: the collectors that send results to other systems.
--
-- What `Update` does is the list of its calls of the client, in their order. The client is external;
-- an error that it returns is at most logged. What is the same in every call of a collector (sample
-- rate, tags) is left out.
pub mod Statsd
pub mod Datadog
pub mod Counts
pub mod Gauge
pub mod Graphite
pub mod Prometheus
pub mod Deprecated
use Prim.Native.String.{String}
use Prim.Native.Char.{Char, code}
use text.Mathlib.Text.{◌==◌ as str_eq}
use hystrix_go.Base.{ℕ, zero, ◌+◌, ◌≡◌, refl, List, [], ◌∷◌, ◌++◌, ◌==◌, if◌then◌else◌, arith}

-- A call of the client. `F` is the type of floats.
pub data Call (F : Type 0) : Type 0 where
  -- a counter goes up
  inc : String → ℕ → Call F
  gauge : String → ℕ → Call F
  -- a duration in nanoseconds
  timing_duration : String → ℕ → Call F
  timing : String → ℕ → Call F
  -- a time in milliseconds
  time_in_milliseconds : String → F → Call F

module _ {F : Type 0} where
  -- How much a counter goes up in all.
  abbrev pub counted : String → List (Call F) → ℕ
  counted key [] = 0
  counted key (inc name i ∷ calls) = (if str_eq name key then i else 0) + counted key calls
  counted key (_ ∷ calls) = counted key calls

  pub counted-append :
      (key : String) (first rest : List (Call F))
      → counted key (first ++ rest) ≡ counted key first + counted key rest
  counted-append key [] rest = omega arith
  counted-append key (inc name i ∷ calls) rest = omega (arith, counted-append key calls rest)
  counted-append key (gauge name v ∷ calls) rest = counted-append key calls rest
  counted-append key (timing_duration name v ∷ calls) rest = counted-append key calls rest
  counted-append key (timing name v ∷ calls) rest = counted-append key calls rest
  counted-append key (time_in_milliseconds name v ∷ calls) rest = counted-append key calls rest
