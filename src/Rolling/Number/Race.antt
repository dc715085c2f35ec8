-- ===== src/Rolling/Number/Race.antt =====
-- hystrix/rolling/rolling.go: IncrementAt and UpdateMaxAt of one second, with goroutines that
-- interleave.
--
-- The calls of one second use one slot. The buckets that were ever made for it have addresses, and
-- the slot holds the address of one. Each load, compare-and-swap and atomic addition is a step of
-- its own. A bucket that is made and not stored is seen by nobody, so it is made when it is stored.
pub mod OneByOne
pub mod Linearized
use hystrix_go.Base.{
  ℕ, zero, suc, ◌^◌, ◌<◌, Bool, true, false, ◌≡◌, ◌≢◌, List, [], ◌∷◌, ◌==◌, if◌then◌else◌, add64,
  sle, put,
}
use hystrix_go.Rolling.Number.{NumberBucket}

-- A call of `IncrementAt` or of `UpdateMaxAt`.
pub data Op : Type 0 where
  add raise : ℕ → Op

-- The argument, an `int64`.
abbrev pub amount : Op → ℕ
amount (add i) = i
amount (raise n) = n

-- Where a goroutine stands in its call.
pub data Local : Type 0 where
  idle : Local
  -- at the head of the loop of `getBucketAt`
  calling : Op → Local
  -- it has loaded the slot
  loaded : Op → ℕ → Local
  -- `getBucketAt` has returned this bucket
  holding : Op → ℕ → Local
  -- in `updateMax`: it has loaded a value that is smaller
  reading : ℕ → ℕ → ℕ → Local

pub record Slot : Type 0 where
  pub buckets : ℕ → NumberBucket
  -- the next address
  pub fresh : ℕ
  pub current : ℕ
  pub locals : ℕ → Local
  -- the calls that have taken effect, the last one first
  pub finished : List Op

-- The write of a call that takes effect.
abbrev pub finish : ℕ → Op → ℕ → ℕ → Slot → Slot
finish g op p value s = record s {
  buckets = put p (record { key = (s.buckets p).key; value = value }) s.buckets;
  locals = put g idle s.locals;
  finished = op ∷ s.finished;
}

abbrev pub at_local : ℕ → Local → Slot → Slot
at_local g l s = record s { locals = put g l s.locals }

module _ (epoch : ℕ) where
  pub data Step (s : Slot) : Slot → Type 0 where
    call :
        (g : ℕ) (op : Op)
        → s.locals g ≡ idle
        → amount op < 2 ^ 64
        → Step s (at_local g (calling op) s)
    load_slot :
        (g : ℕ) (op : Op)
        → s.locals g ≡ calling op
        → op ≢ add 0
        → Step s (at_local g (loaded op s.current) s)
    right_key :
        (g : ℕ) (op : Op) (p : ℕ)
        → s.locals g ≡ loaded op p
        → ((s.buckets p).key == epoch) ≡ true
        → Step s (at_local g (holding op p) s)
    swap_slot :
        (g : ℕ) (op : Op) (p : ℕ)
        → s.locals g ≡ loaded op p
        → ((s.buckets p).key == epoch) ≡ false
        → s.current ≡ p
        → Step s (record s {
          buckets = put s.fresh (record { key = epoch; value = 0 }) s.buckets;
          fresh = suc s.fresh;
          current = s.fresh;
          locals = put g (holding op s.fresh) s.locals;
        })
    swap_fails :
        (g : ℕ) (op : Op) (p : ℕ)
        → s.locals g ≡ loaded op p
        → ((s.buckets p).key == epoch) ≡ false
        → s.current ≢ p
        → Step s (at_local g (calling op) s)
    -- `IncrementAt(t, 0)` returns at once.
    add_nothing : (g : ℕ) → s.locals g ≡ calling (add 0) → Step s (at_local g idle s)
    add_value :
        (g i p : ℕ)
        → s.locals g ≡ holding (add i) p
        → Step s (finish g (add i) p (add64 (s.buckets p).value i) s)
    -- `updateMax`: the value that is loaded is no smaller
    no_raise :
        (g n p : ℕ)
        → s.locals g ≡ holding (raise n) p
        → sle n (s.buckets p).value ≡ true
        → Step s (finish g (raise n) p (s.buckets p).value s)
    load_value :
        (g n p : ℕ)
        → s.locals g ≡ holding (raise n) p
        → sle n (s.buckets p).value ≡ false
        → Step s (at_local g (reading n p (s.buckets p).value) s)
    swap_value :
        (g n p v : ℕ)
        → s.locals g ≡ reading n p v
        → (s.buckets p).value ≡ v
        → Step s (finish g (raise n) p n s)
    value_changed :
        (g n p v : ℕ)
        → s.locals g ≡ reading n p v
        → (s.buckets p).value ≢ v
        → Step s (at_local g (holding (raise n) p) s)

  pub data Runs (s : Slot) : Slot → Type 0 where
    start : Runs s s
    after : {t u : Slot} → Runs s t → Step t u → Runs s u

-- A slot with any bucket, that nobody uses.
abbrev pub quiet : NumberBucket → Slot
quiet b = record { buckets = λ _. b; fresh = 1; current = 0; locals = λ _. idle; finished = [] }
