-- ===== src/TimerPool/Own.antt =====
-- Who has which timer, and what one step does to that.
use hystrix_go.Base.{
  ℕ, suc, ◌≤◌, ◌<◌, false, ◌≡◌, ◌≢◌, refl, ap, sym, ◌∙◌, ◌⊎◌, inl, inr, Option, none, some, List,
  ◌==◌, All, put, put_self, put_same, ltb, arith, by_cases,
}
use hystrix_go.TimerPool.{
  Clock, stopped, set, fired, Caller, before, taken, waiting, ended, halted, over, Shared, moved,
}

-- The timer that a command has.
abbrev pub has : Caller → Option ℕ
has before = none
has (taken t) = some t
has (waiting t) = some t
has (ended t) = some t
has (halted t) = some t
has over = none

-- The command that had set a timer which is set or has fired.
abbrev pub for_whom : Clock → Option ℕ
for_whom stopped = none
for_whom (set j) = some j
for_whom (fired j) = some j

pub data Owner : Type 0 where
  pooled loose : Owner
  held : ℕ → Owner

pub record Inv (s : Shared) : Type 0 where
  pub own : ℕ → Owner
  pub holds : (k t : ℕ) → has (s.callers k) ≡ some t → own t ≡ held k
  pub mine : (k t j : ℕ) → s.callers k ≡ waiting t → for_whom (s.clocks t) ≡ some j → k ≡ j
  pub pools : (t : ℕ) → (s.pool t ≡ 0) ⊎ ((s.pool t ≡ 1) × (own t ≡ pooled))
  pub new : (t : ℕ) → s.fresh ≤ t → (own t ≡ loose) × (s.pool t ≡ 0)
  pub owned : All (λ (k, j). k ≡ j) s.received

-- A step of one command and one timer.
abbrev changed : ℕ → ℕ → Caller → Clock → ℕ → ℕ → List (ℕ × ℕ) → Shared → Shared
changed k t c x n fresh received s = record {
  callers = put k c s.callers;
  clocks = put t x s.clocks;
  pool = put t n s.pool;
  fresh = fresh;
  received = received;
}

changed-Inv :
    (k t : ℕ) (c : Caller) (x : Clock) (o : Owner) (n fresh : ℕ) (received : List (ℕ × ℕ))
    (s : Shared) (inv : Inv s)
    → ((j : ℕ) → (k == j) ≡ false → inv.own t ≢ held j)
    → ((i : ℕ) → has c ≡ some i → (t ≡ i) × (o ≡ held k))
    → ((i j : ℕ) → c ≡ waiting i → for_whom x ≡ some j → k ≡ j)
    → ((n ≡ 0) ⊎ ((n ≡ 1) × (o ≡ pooled)))
    → s.fresh ≤ fresh
    → t < fresh
    → All (λ (k, j). k ≡ j) received
    → Inv (changed k t c x n fresh received s)
changed-Inv k t c x o n fresh received s inv free this mine pools le lt owned = record {
  own = put t o inv.own;
  holds = λ j i.
      by_cases (k == j)
        (λ e. rw e (λ h.
          let (at, o_held) = this i h in
          let same : k ≡ j = ground (arith, e) in
          rw (← at) (put_self t o inv.own ∙ o_held ∙ ap held same)))
        (λ e. rw e (λ h.
          by_cases (t == i)
            (λ f.
              let same : t ≡ i = ground (arith, f) in
              absurd (free j e (ap inv.own same ∙ inv.holds j i h)))
            (λ f. rw f (inv.holds j i h))));
  mine = λ j i l.
      by_cases (k == j)
        (λ e.
          let same : k ≡ j = ground (arith, e) in
          rw e (λ h.
            let here : t ≡ i = (this i (ap has h)).0 in
            let at : put t x s.clocks i ≡ x = rw (← here) (put_self t x s.clocks) in
            rw at (λ f. sym same ∙ mine i l h f)))
        (λ e. rw e (λ h.
          by_cases (t == i)
            (λ f.
              let same : t ≡ i = ground (arith, f) in
              absurd (free j e (ap inv.own same ∙ inv.holds j i (ap has h))))
            (λ f. rw f (inv.mine j i l h))));
  pools = λ i. by_cases (t == i) (λ e. rw e pools) (λ e. rw e (inv.pools i));
  new = λ i h.
      by_cases (t == i) (λ e. absurd (ground (arith, e))) (λ e. rw e (inv.new i (omega arith)));
  owned = owned;
}

module _ (s : Shared) (inv : Inv s) where
  open inv use {own, holds}

  -- A timer in the pool is there once.
  in_pool : (t : ℕ) {n : ℕ} → s.pool t ≡ suc n → (n ≡ 0) × (own t ≡ pooled)
  in_pool t e = elim (inv.pools t) [
    | inl empty ↦ absurd (omega arith)
    | inr there ↦ (omega arith, there.1)
  ]

  -- A timer that a command has is not in the pool, was made, and is nobody else's.
  module _ (k t : ℕ) (h : has (s.callers k) ≡ some t) where
    out : s.pool t ≡ 0
    out = elim (inv.pools t) [
      | inl empty ↦ empty
      | inr there ↦ absurd (let o = holds k t h in cc (there.1))
    ]

    made : t < s.fresh
    made =
        by_cases (ltb t s.fresh) (λ e. ground (arith, e))
          (λ e. absurd (let o = holds k t h in let n = (inv.new t (ground (arith, e))).0 in cc))

    free : (j : ℕ) → (k == j) ≡ false → own t ≢ held j
    free j e i = let o = holds k t h in ground arith

    -- A step of the command that leaves the pool alone.
    pub moved-Inv :
        (c : Caller) (x : Clock) (received : List (ℕ × ℕ))
        → has c ≡ some t
        → ((i j : ℕ) → c ≡ waiting i → for_whom x ≡ some j → k ≡ j)
        → All (λ (k, j). k ≡ j) received
        → Inv (record (moved k t c x s) { received = received })
    moved-Inv c x received here mine owned = rw (put_same t s.pool) at (
        changed-Inv k t c x (held k) (s.pool t) s.fresh received s inv free (λ i e. (cc, refl)) mine
          (inl out) (omega arith) made owned)

  pub begin_new :
      (k : ℕ) → Inv (record (moved k s.fresh (waiting s.fresh) (set k) s) { fresh = suc s.fresh })
  begin_new k =
      let new = inv.new s.fresh (omega arith) in
      rw (put_same s.fresh s.pool) at (
        changed-Inv k s.fresh (waiting s.fresh) (set k) (held k) (s.pool s.fresh) (suc s.fresh)
          s.received s inv (λ j e h. cc (new.0)) (λ i e. (cc, refl)) (λ i j e f. cc) (inl (new.1))
          (omega arith) (omega arith) inv.owned)

  pub begin_pooled :
      (k t : ℕ) {n : ℕ}
      → s.pool t ≡ suc n
      → Inv (record (moved k t (taken t) (s.clocks t) s) { pool = put t n s.pool })
  begin_pooled k t {n} e =
      let there = in_pool t e in
      let was_made : t < s.fresh =
        by_cases (ltb t s.fresh) (λ e. ground (arith, e))
          (λ e. absurd (let n = (inv.new t (ground (arith, e))).0 in cc (there.1))) in
      changed-Inv k t (taken t) (s.clocks t) (held k) n s.fresh s.received s inv
        (λ j e h. cc (there.1)) (λ i e. (cc, refl)) (λ i j e f. absurd cc) (inl (there.0))
        (omega arith) was_made inv.owned

  pub dropped : (t : ℕ) {n : ℕ} → s.pool t ≡ suc n → Inv (record s { pool = put t n s.pool })
  dropped t {n} e =
      let there = in_pool t e in
      record {
        own = own;
        holds = holds;
        mine = inv.mine;
        pools = λ i. by_cases (t == i) (λ e. rw e (inl (there.0))) (λ e. rw e (inv.pools i));
        new = λ i h.
            ((inv.new i h).0, by_cases (t == i) (λ e. rw e (there.0)) (λ e. rw e (inv.new i h).1));
        owned = inv.owned;
      }

  pub fires : (t j : ℕ) → s.clocks t ≡ set j → Inv (record s { clocks = put t (fired j) s.clocks })
  fires t j e = record {
    own = own;
    holds = holds;
    mine = λ k i l h.
        by_cases (t == i)
          (λ f.
            let same : t ≡ i = ground (arith, f) in
            rw f (λ g.
              inv.mine k i l h (ap (λ i. for_whom (s.clocks i)) (sym same) ∙ ap for_whom e ∙ g)))
          (λ f. rw f (inv.mine k i l h));
    pools = inv.pools;
    new = inv.new;
    owned = inv.owned;
  }

  pub puts_back :
      (k t : ℕ)
      → s.callers k ≡ halted t
      → Inv (record (moved k t over (s.clocks t) s) { pool = put t (suc (s.pool t)) s.pool })
  puts_back k t e =
      let h : has (s.callers k) ≡ some t = ap has e in
      let empty = out k t h in
      changed-Inv k t over (s.clocks t) pooled (suc (s.pool t)) s.fresh s.received s inv
        (free k t h) (λ i e. absurd cc) (λ i j e f. absurd cc) (inr (omega arith, refl))
        (omega arith) (made k t h) inv.owned
