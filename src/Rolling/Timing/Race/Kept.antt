-- ===== src/Rolling/Timing/Race/Kept.antt =====
-- Which durations are kept.
use hystrix_go.Base.{
  ℕ, zero, suc, ◌+◌, ◌≤◌, ◌<◌, false, ◌≡◌, refl, some, List, [], ◌∷◌, ◌++◌, ◌==◌, put, put_self,
  put-each, count, count-append, arith, by_cases, ◌∙◌,
}
use mathlib.Core.Path.{subst}
use hystrix_go.Rolling.Timing.Race.{
  Local, idle, missing, holding, Second, Step, finds, misses, creates, appends, Runs, start, after,
  untouched,
}

-- How often a duration stands in the first buckets.
unfoldable pub total : ℕ → (ℕ → List ℕ) → ℕ → ℕ
total d buckets zero = 0
total d buckets (suc n) = total d buckets n + count d (buckets n)

total-put_above :
    (d p : ℕ) (ds : List ℕ) (buckets : ℕ → List ℕ) (n : ℕ)
    → n ≤ p
    → total d (put p ds buckets) n ≡ total d buckets n
unfolding total
total-put_above d p ds buckets zero h = refl
total-put_above d p ds buckets (suc n) h =
    let other : (p == n) ≡ false = ground arith in
    rw (other, total-put_above d p ds buckets n (omega arith)) refl

total-put :
    (d p e : ℕ) (buckets : ℕ → List ℕ) (n : ℕ)
    → p < n
    → total d (put p (buckets p ++ e ∷ []) buckets) n ≡ total d buckets n + count d (e ∷ [])
unfolding total
total-put d p e buckets zero h = absurd (omega arith)
total-put d p e buckets (suc n) h =
    by_cases (p == n)
      (λ here.
        let same : p ≡ n = ground (arith, here) in
        rw (here, total-put_above d p (buckets p ++ e ∷ []) buckets n (omega arith), ← same)
          (omega (arith, count-append d (buckets p) (e ∷ []))))
      (λ other. rw (other, total-put d p e buckets n (ground (arith, other))) (omega arith))

record Inv (s : Second) : Type 0 where
  all : (d : ℕ) → total d s.buckets s.made ≡ count d s.finished
  fits : (g d p : ℕ) → s.locals g ≡ holding d p → p < s.made
  last : (p : ℕ) → s.current ≡ some p → s.made ≡ suc p

-- A goroutine that gets a bucket.
fits-put :
    (s : Second) (n g : ℕ) (l : Local)
    → s.made ≤ n
    → ((d p : ℕ) → l ≡ holding d p → p < n)
    → Inv s
    → (h d p : ℕ) → put g l s.locals h ≡ holding d p
    → p < n
fits-put s n g l le this inv =
    put-each (λ h l. (d p : ℕ) → l ≡ holding d p → p < n) g l s.locals (λ h e. this)
      (λ h e d p f. omega (arith, inv.fits h d p f))

Step-Inv : {s u : Second} → Inv s → Step s u → Inv u
unfolding total
Step-Inv {s} inv (finds g d p e f) = record {
  all = inv.all;
  fits =
      fits-put s s.made g (holding d p) (omega arith)
        (λ d' p' h. let same : p ≡ p' = cc in omega (arith, inv.last p f)) inv;
  last = inv.last;
}
Step-Inv {s} inv (misses g d e f) = record {
  all = inv.all;
  fits = fits-put s s.made g (missing d) (omega arith) (λ d' p' h. absurd cc) inv;
  last = inv.last;
}
Step-Inv {s} inv (creates g d e) = record {
  all = λ d.
      rw (put_self s.made [] s.buckets, total-put_above d s.made [] s.buckets s.made (omega arith))
        (omega (arith, inv.all d));
  fits =
      fits-put s (suc s.made) g (holding d s.made) (omega arith)
        (λ d' p' h. let same : s.made ≡ p' = cc in omega arith) inv;
  last = λ p h. let same : s.made ≡ p = cc in omega arith;
}
Step-Inv {s} inv (appends g d p e) = record {
  all = λ d'.
      rw (total-put d' p d s.buckets s.made (inv.fits g d p e))
        (omega (arith, inv.all d', count-append d' (d ∷ []) s.finished));
  fits = fits-put s s.made g idle (omega arith) (λ d' p' h. absurd cc) inv;
  last = inv.last;
}

untouched-Inv : Inv untouched
unfolding total
untouched-Inv = record { all = λ d. refl; fits = λ g d p h. absurd cc; last = λ p h. absurd cc }

Runs-Inv : {t s : Second} → Inv t → Runs t s → Inv s
Runs-Inv inv start = inv
Runs-Inv inv (after r st) = Step-Inv (Runs-Inv inv r) st

-- The newest bucket, and those before it.
latest :
    (s : Second) {m : ℕ} (d p : ℕ)
    → s.made ≡ suc p
    → total d s.buckets s.made ≡ m
    → total d s.buckets p + count d (s.buckets p) ≡ m
unfolding total
latest s d p n e = rw n at e

-- A call that is over, or that holds the bucket at `p`.
abbrev pub HoldsOnly : ℕ → Local → Type 0
HoldsOnly p idle = Unit
HoldsOnly p (missing d) = ⊥
HoldsOnly p (holding d q) = q ≡ p

-- The map has the bucket at `p`, and every call that is under way holds that one.
pub record IsSettled (p : ℕ) (s : Second) : Type 0 where
  pub mapped : s.current ≡ some p
  pub held : (g : ℕ) → HoldsOnly p (s.locals g)

held-put :
    (p g : ℕ) (l : Local) (s : Second)
    → HoldsOnly p l
    → IsSettled p s
    → (h : ℕ) → HoldsOnly p (put g l s.locals h)
held-put p g l s new settled =
    put-each (λ _ l. HoldsOnly p l) g l s.locals (λ h e. new) (λ h e. settled.held h)

-- What a step from a settled state leaves: the buckets before the one in the map are as they were.
record Stays (p : ℕ) (s u : Second) : Type 0 where
  settled : IsSettled p u
  older : (d : ℕ) → total d u.buckets p ≡ total d s.buckets p

Step-Stays : {s u : Second} (p : ℕ) → IsSettled p s → Step s u → Stays p s u
Step-Stays {s} p settled (finds g d q e f) = record {
  settled = record {
    mapped = settled.mapped;
    held =
        held-put p g (holding d q) s (let m = settled.mapped in let same : q ≡ p = cc in same)
          settled;
  };
  older = λ d. refl;
}
Step-Stays p settled (misses g d e f) = absurd (let m = settled.mapped in cc)
Step-Stays p settled (creates g d e) = absurd (subst (HoldsOnly p) e (settled.held g))
Step-Stays {s} p settled (appends g d q e) =
    let same : q ≡ p = subst (HoldsOnly p) e (settled.held g) in
    record {
      settled = record { mapped = settled.mapped; held = held-put p g idle s tt settled };
      older = λ d'. total-put_above d' q (s.buckets q ++ d ∷ []) s.buckets p (omega (arith, same));
    }

Runs-Stays : {t s : Second} (p : ℕ) → IsSettled p t → Runs t s → Stays p t s
Runs-Stays p settled start = record { settled = settled; older = λ d. refl }
Runs-Stays p settled (after r st) =
    let before = Runs-Stays p settled r in
    let now = Step-Stays p before.settled st in
    record { settled = now.settled; older = λ d. now.older d ∙ before.older d }

-- Calls of `Add` in one second interleave in any way, from the first one on, and come to a moment
-- at which the map has a bucket and every call that is under way holds that one. After any further
-- steps this bucket is still in the map, and no other has been made. It and the buckets before it,
-- as they were at that moment, hold the durations of all calls that are over, each as often as
-- it was added. So no call that ends after that moment is lost or counts twice, and if there was
-- no bucket before, no call of the second is.
pub kept_durations :
    {t s : Second} (p : ℕ)
    → Runs untouched t
    → IsSettled p t
    → Runs t s
    → (d : ℕ)
    → (s.current ≡ some p)
      × (s.made ≡ suc p)
      × (total d t.buckets p + count d (s.buckets p) ≡ count d s.finished)
kept_durations {t} {s} p r settled r' d =
    let inv = Runs-Inv (Runs-Inv untouched-Inv r) r' in
    let stays = Runs-Stays p settled r' in
    let n = inv.last p stays.settled.mapped in
    (stays.settled.mapped, n, omega (arith, latest s d p n (inv.all d), stays.older d))
