-- ===== src/Rolling/Number/Race/Linearized.antt =====
-- The interleaved calls of one second against calls one by one.
use mathlib.Core.Path.{subst}
use hystrix_go.Base.{
  ℕ, suc, ◌%◌, ◌^◌, ◌<◌, Bool, true, false, ◌≡◌, refl, ap, ◌∙◌, List, [], ◌∷◌, ◌==◌, add64, sle,
  put, put-each, arith, by_cases,
}
use hystrix_go.Rolling.Log.{unix}
use hystrix_go.Rolling.Number.{NumberBucket, Number, number_bucket_size}
use hystrix_go.Rolling.Number.Invariant.{kept}
use hystrix_go.Rolling.Number.Race.{
  Op, add, raise, amount, Local, idle, calling, loaded, holding, reading, Slot, finish, at_local,
  Step, call, load_slot, right_key, swap_slot, swap_fails, add_nothing, add_value, no_raise,
  load_value, swap_value, value_changed, Runs, start, after, quiet,
}
use hystrix_go.Rolling.Number.Race.OneByOne.{
  one_by_one, kept-increment_at, kept-update_max_at, key-put,
}

module _ (t : ℕ) (r : Number) where
  -- What the calls that have taken effect leave in the slot.
  abbrev due : List Op → ℕ
  due ops = kept t (one_by_one t ops r)

  abbrev fits : NumberBucket → Bool
  fits b = b.key == unix t

  -- Before the slot has a bucket of this second, and after that.
  data Phase (s : Slot) : Type 0 where
    stale : fits (s.buckets s.current) ≡ false → s.finished ≡ [] → due [] ≡ 0 → Phase s
    live :
        fits (s.buckets s.current) ≡ true → (s.buckets s.current).value ≡ due s.finished → Phase s

  -- A goroutine that has a bucket has the one of this second.
  abbrev Knows : (ℕ → NumberBucket) → ℕ → ℕ → Local → Type 0
  Knows buckets fresh current idle = Unit
  Knows buckets fresh current (calling op) = amount op < 2 ^ 64
  Knows buckets fresh current (loaded op p) = (amount op < 2 ^ 64) × (p < fresh)
  Knows buckets fresh current (holding op p) =
      (p ≡ current) × (fits (buckets current) ≡ true) × (amount op < 2 ^ 64)
  Knows buckets fresh current (reading n p v) =
      (p ≡ current) × (fits (buckets current) ≡ true) × (sle n v ≡ false) × (n < 2 ^ 64)

  record Inv (s : Slot) : Type 0 where
    phase : Phase s
    old : s.current < s.fresh
    small : due s.finished < 2 ^ 64
    only : (p : ℕ) → p < s.fresh → fits (s.buckets p) ≡ true → p ≡ s.current
    knows : (g : ℕ) → Knows s.buckets s.fresh s.current (s.locals g)

  local-Inv :
      (g : ℕ) (l : Local) (s : Slot)
      → Inv s
      → Knows s.buckets s.fresh s.current l
      → Inv (at_local g l s)
  local-Inv g l s inv k = record {
    phase = elim inv.phase [ stale a b c ↦ stale a b c | live a b ↦ live a b ];
    old = inv.old;
    small = inv.small;
    only = inv.only;
    knows =
        put-each (λ _ l. Knows s.buckets s.fresh s.current l) g l s.locals (λ _ _. k)
          (λ q _. inv.knows q);
  }

  -- What a goroutine that stands at `l` knows.
  known :
      (g : ℕ) (l : Local) (s : Slot) → Inv s → s.locals g ≡ l → Knows s.buckets s.fresh s.current l
  known g l s inv e = subst (λ l. Knows s.buckets s.fresh s.current l) e (inv.knows g)

  Knows-put :
      (b : ℕ → NumberBucket) (fresh current p v : ℕ) (l : Local)
      → Knows b fresh current l
      → Knows (put p (record { key = (b p).key; value = v }) b) fresh current l
  Knows-put b fresh current p v idle k = tt
  Knows-put b fresh current p v (calling op) k = k
  Knows-put b fresh current p v (loaded op q) k = k
  Knows-put b fresh current p v (holding op q) k =
      (k.0, ground (arith, key-put p current v b, k.1), k.2)
  Knows-put b fresh current p v (reading n q w) k =
      (k.0, ground (arith, key-put p current v b, k.1), k.2, k.3)

  -- A call that takes effect on the bucket of this second.
  finish-Inv :
      (g : ℕ) (op : Op) (p v : ℕ) (s : Slot)
      → Inv s
      → p ≡ s.current
      → fits (s.buckets s.current) ≡ true
      → v ≡ due (op ∷ s.finished)
      → v < 2 ^ 64
      → Inv (finish g op p v s)
  finish-Inv g op p v s inv here right value word = record {
    phase = live (ground (arith, key-put p s.current v s.buckets)) (ground arith);
    old = inv.old;
    small = rw (← value) word;
    only = λ q lt f. inv.only q lt (ground (arith, key-put p q v s.buckets));
    knows =
        put-each (λ _ l. Knows (finish g op p v s).buckets s.fresh s.current l) g idle s.locals
          (λ _ _. tt) (λ q _. Knows-put s.buckets s.fresh s.current p v (s.locals q) (inv.knows q));
  }

  -- The value of the bucket of this second.
  valued :
      (s : Slot)
      → Inv s
      → fits (s.buckets s.current) ≡ true
      → (s.buckets s.current).value ≡ due s.finished
  valued s inv right = elim inv.phase [ stale a b c ↦ cc | live a b ↦ b ]

  Knows-swap :
      (s : Slot) (l : Local)
      → Inv s
      → fits (s.buckets s.current) ≡ false
      → Knows s.buckets s.fresh s.current l
      → Knows (put s.fresh (record { key = unix t; value = 0 }) s.buckets) (suc s.fresh) s.fresh l
  Knows-swap s idle inv wrong k = tt
  Knows-swap s (calling op) inv wrong k = k
  Knows-swap s (loaded op q) inv wrong k = (k.0, omega arith)
  Knows-swap s (holding op q) inv wrong k = absurd (cc (k.1))
  Knows-swap s (reading n q w) inv wrong k = absurd (cc (k.1))

  nothing_yet : (s : Slot) → Inv s → fits (s.buckets s.current) ≡ false → due s.finished ≡ 0
  nothing_yet s inv wrong = elim inv.phase [ stale a b c ↦ rw b c | live a b ↦ cc ]

  swap-Inv :
      (g : ℕ) (op : Op) (s : Slot)
      → Inv s
      → fits (s.buckets s.current) ≡ false
      → amount op < 2 ^ 64
      → Inv (record s {
        buckets = put s.fresh (record { key = unix t; value = 0 }) s.buckets;
        fresh = suc s.fresh;
        current = s.fresh;
        locals = put g (holding op s.fresh) s.locals;
      })
  swap-Inv g op s inv wrong word = record {
    phase = live (ground arith) (ground (arith, nothing_yet s inv wrong));
    old = omega arith;
    small = inv.small;
    only = λ q lt f.
        by_cases (s.fresh == q) (λ e. ground (arith, e))
          (λ e. absurd (ground (arith, e, wrong, inv.only q)));
    knows =
        put-each
          (λ _ l.
            Knows (put s.fresh (record { key = unix t; value = 0 }) s.buckets) (suc s.fresh) s.fresh
              l)
          g (holding op s.fresh) s.locals (λ _ _. (refl, ground arith, word))
          (λ q _. Knows-swap s (s.locals q) inv wrong (inv.knows q));
  }

  Step-Inv : {s u : Slot} → Inv s → Step (unix t) s u → Inv u
  Step-Inv {s} inv (call g op e word) = local-Inv g (calling op) s inv word
  Step-Inv {s} inv (load_slot g op e n) =
      local-Inv g (loaded op s.current) s inv (known g (calling op) s inv e, inv.old)
  Step-Inv {s} inv (right_key g op p e f) =
      let k = known g (loaded op p) s inv e in
      let here = inv.only p k.1 f in local-Inv g (holding op p) s inv (here, rw (← here) f, k.0)
  Step-Inv {s} inv (swap_slot g op p e f here) =
      swap-Inv g op s inv (rw here f) (known g (loaded op p) s inv e).0
  Step-Inv {s} inv (swap_fails g op p e f ne) =
      local-Inv g (calling op) s inv (known g (loaded op p) s inv e).0
  Step-Inv {s} inv (add_nothing g e) = local-Inv g idle s inv tt
  Step-Inv {s} inv (add_value g i p e) =
      let k = known g (holding (add i) p) s inv e in
      finish-Inv g (add i) p (add64 (s.buckets p).value i) s inv k.0 k.1
        (ground (
          arith,
          k.0,
          valued s inv k.1,
          kept-increment_at t i (one_by_one t s.finished r) inv.small,
        ))
        (omega arith)
  Step-Inv {s} inv (no_raise g n p e f) =
      let k = known g (holding (raise n) p) s inv e in
      let same = ap (λ p. (s.buckets p).value) k.0 ∙ valued s inv k.1 in
      finish-Inv g (raise n) p (s.buckets p).value s inv k.0 k.1
        (ground (arith, same, f, kept-update_max_at t n (one_by_one t s.finished r)))
        (ground (arith, same, inv.small))
  Step-Inv {s} inv (load_value g n p e f) =
      let k = known g (holding (raise n) p) s inv e in
      local-Inv g (reading n p (s.buckets p).value) s inv (k.0, k.1, f, k.2)
  Step-Inv {s} inv (swap_value g n p v e f) =
      let k = known g (reading n p v) s inv e in
      let same = ap (λ p. (s.buckets p).value) k.0 ∙ valued s inv k.1 in
      finish-Inv g (raise n) p n s inv k.0 k.1
        (ground (arith, same, f, k.2, kept-update_max_at t n (one_by_one t s.finished r))) k.3
  Step-Inv {s} inv (value_changed g n p v e f) =
      let k = known g (reading n p v) s inv e in
      local-Inv g (holding (raise n) p) s inv (k.0, k.1, k.3)

  quiet-Inv :
      (r.buckets (unix t % number_bucket_size)).value < 2 ^ 64
      → Inv (quiet (r.buckets (unix t % number_bucket_size)))
  quiet-Inv small = record {
    phase =
        by_cases (fits (r.buckets (unix t % number_bucket_size))) (λ e. live e (ground (arith, e)))
          (λ e. stale e refl (ground (arith, e)));
    old = omega arith;
    small = ground arith;
    only = λ p lt f. omega arith;
    knows = λ g. tt;
  }

  Runs-Inv : {s u : Slot} → Inv s → Runs (unix t) s u → Inv u
  Runs-Inv inv start = inv
  Runs-Inv inv (after run step) = Step-Inv (Runs-Inv inv run) step

-- Any number of goroutines call `IncrementAt` and `UpdateMaxAt` in one second, on a slot that nobody
-- used before and whose value is below 2^64, and their loads, compare-and-swaps and additions
-- interleave in any way. Once a call has taken effect, the slot holds the bucket of that second, and
-- its value is the one that the calls which have taken effect give one after the other: no report
-- is lost and none counts twice.
pub linearized :
    (t : ℕ) (r : Number) {s : Slot} (op : Op) (ops : List Op)
    → (r.buckets (unix t % number_bucket_size)).value < 2 ^ 64
    → Runs (unix t) (quiet (r.buckets (unix t % number_bucket_size))) s
    → s.finished ≡ op ∷ ops
    → ((s.buckets s.current).key ≡ unix t)
      × ((s.buckets s.current).value ≡ kept t (one_by_one t s.finished r))
linearized t r {s} op ops small run e = elim (Runs-Inv t r (quiet-Inv t r small) run).phase [
  | stale wrong nothing at_zero ↦ absurd cc
  | live right value ↦ (ground (arith, right), value)
]
