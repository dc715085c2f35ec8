-- ===== src/Circuit/Shared/Silent.antt =====
-- What a circuit counts, and that it counts nothing.
use hystrix_go.Base.{ℕ, zero, suc, ◌≡◌, refl, List, [], ◌∷◌, map, All, arith}
use hystrix_go.MetricCollector.{DefaultMetricCollector}
use hystrix_go.Pool.{ExecutorPool}
use hystrix_go.Rolling.Number.{Number, number_bucket_size, sum, sum_loop, max, max_loop, reset}

-- Nothing is counted at any time.
abbrev pub IsSilent : Number → Type 0
IsSilent r = (now : ℕ) → (sum now r ≡ 0) × (max now r ≡ 0)

sum_loop-reset : (n now : ℕ) (r : Number) → sum_loop n now (reset r) ≡ 0
unfolding sum_loop reset
sum_loop-reset zero now r = refl
sum_loop-reset (suc n) now r = rw (sum_loop-reset n now r) (ground arith)

max_loop-reset : (n now : ℕ) (r : Number) → max_loop n now (reset r) ≡ 0
unfolding max_loop reset
max_loop-reset zero now r = refl
max_loop-reset (suc n) now r = rw (max_loop-reset n now r) (ground arith)

reset-IsSilent : (r : Number) → IsSilent (reset r)
unfolding sum max
reset-IsSilent r now =
    (sum_loop-reset number_bucket_size now r, max_loop-reset number_bucket_size now r)

pub map_reset-IsSilent : (rs : List Number) → All IsSilent (map reset rs)
map_reset-IsSilent [] = tt
map_reset-IsSilent (r ∷ rs) = (reset-IsSilent r, map_reset-IsSilent rs)

-- All that a circuit counts.
abbrev pub numbers : DefaultMetricCollector → ExecutorPool → List Number
numbers d p =
    d.num_requests ∷ d.errors ∷ d.successes ∷ d.failures ∷ d.rejects ∷ d.short_circuits ∷ d.timeouts
    ∷ d.context_canceled ∷ d.context_deadline_exceeded ∷ d.fallback_successes ∷ d.fallback_failures
    ∷ p.max_active_requests ∷ p.executed ∷ []
