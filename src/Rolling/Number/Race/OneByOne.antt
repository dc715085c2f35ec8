-- ===== src/Rolling/Number/Race/OneByOne.antt =====
-- What the calls of one second come to, one after the other.
use hystrix_go.Base.{ℕ, ◌^◌, ◌<◌, ◌≡◌, List, [], ◌∷◌, if◌then◌else◌, add64, sle, put, arith}
use hystrix_go.Rolling.Number.{NumberBucket, Number, increment_at, update_max_at}
use hystrix_go.Rolling.Number.Invariant.{kept}
use hystrix_go.Rolling.Number.Race.{Op, add, raise}

-- The calls one by one, the last one first.
abbrev pub one_by_one : ℕ → List Op → Number → Number
one_by_one t [] r = r
one_by_one t (add i ∷ ops) r = increment_at t i (one_by_one t ops r)
one_by_one t (raise n ∷ ops) r = update_max_at t n (one_by_one t ops r)

pub kept-increment_at :
    (t i : ℕ) (r : Number) → kept t r < 2 ^ 64 → kept t (increment_at t i r) ≡ add64 (kept t r) i
unfolding increment_at
kept-increment_at t i r h = ground arith

pub kept-update_max_at :
    (t n : ℕ) (r : Number)
    → kept t (update_max_at t n r) ≡ (if sle n (kept t r) then kept t r else n)
unfolding update_max_at
kept-update_max_at t n r = ground arith

-- A write to the value of a bucket leaves its key.
pub key-put :
    (p q v : ℕ) (b : ℕ → NumberBucket)
    → (put p (record { key = (b p).key; value = v }) b q).key ≡ (b q).key
key-put p q v b = ground arith
