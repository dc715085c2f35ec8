-- ===== src/Rolling/Log.antt =====
-- The history of a rolling statistic: what was reported to it, in order, and the sum and the
-- maximum of what falls in the window, computed from that history alone.
use hystrix_go.Base.{ℕ, ◌+◌, ◌/◌, ◌^◌, ◌≤◌, ◌<◌, List, [], ◌∷◌, leb, if◌then◌else◌, smax, arith}

-- `t.Unix()`
abbrev pub unix : ℕ → ℕ
unix t = t / 1_000_000_000

-- An amount with the instant at which it was reported.
abbrev pub Log : Type 0
Log = List (ℕ × ℕ)

-- The reports come in the order of their seconds, none before `from` and none after `to`.
abbrev pub IsOrdered : ℕ → Log → ℕ → Type 0
IsOrdered from [] to = from ≤ to
IsOrdered from ((t, _) ∷ log) to = (from ≤ unix t) × IsOrdered (unix t) log to

-- What a report counts for at `now`: it is in the window until ten seconds after its own second.
unfoldable pub amount : ℕ → ℕ → ℕ → ℕ
amount now t n = if leb (unix now) (unix t + 10) then n else 0

abbrev pub log_sum : ℕ → Log → ℕ
log_sum now [] = 0
log_sum now ((t, n) ∷ log) = amount now t n + log_sum now log

abbrev pub log_max : ℕ → Log → ℕ
log_max now [] = 0
log_max now ((t, n) ∷ log) = smax (amount now t n) (log_max now log)

-- Every amount is the pattern of an `int64`.
abbrev pub IsWords : Log → Type 0
IsWords [] = Unit
IsWords ((_, n) ∷ log) = (n < 2 ^ 64) × IsWords log

pub IsOrdered-le : (log : Log) {from to : ℕ} → IsOrdered from log to → from ≤ to
IsOrdered-le [] o = o
IsOrdered-le ((t, _) ∷ log) o = omega (arith, IsOrdered-le log o.1)
