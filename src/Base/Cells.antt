-- ===== src/Base/Cells.antt =====
-- Memory whose cells have numbers: goroutines by number, objects by address.
use Prim.Native.Nat.{ℕ}
use mathlib.Core.Path.{◌≡◌, refl, ap, fun_ext}
use mathlib.Core.Bool.{true, false}
use native.Mathlib.Omega.{arith}
use hystrix_go.Base.Tests.{◌==◌, if◌then◌else◌, by_cases}

-- A write to one cell.
abbrev pub put {ℓ} : {A : Type ℓ} → ℕ → A → (ℕ → A) → ℕ → A
put p x cells q = if p == q then x else cells q

-- A predicate of every cell after a write: of the new value there, and of the old values elsewhere.
pub put-each {ℓ κ} :
    {A : Type ℓ} (P : ℕ → A → Type κ) (p : ℕ) (x : A) (cells : ℕ → A)
    → ((q : ℕ) → (p == q) ≡ true → P q x)
    → ((q : ℕ) → (p == q) ≡ false → P q (cells q))
    → (q : ℕ) → P q (put p x cells q)
put-each P p x cells here there q = by_cases (p == q) (λ e. rw e (here q e)) (λ e. rw e (there q e))

==_self : (p : ℕ) → (p == p) ≡ true
==_self p = ground arith

pub put_self {ℓ} : {A : Type ℓ} (p : ℕ) (x : A) (cells : ℕ → A) → put p x cells p ≡ x
put_self p x cells = rw (==_self p) refl

-- A write of what is there.
pub put_same {ℓ} : {A : Type ℓ} (p : ℕ) (cells : ℕ → A) → put p (cells p) cells ≡ cells
put_same p cells = fun_ext λ q.
    by_cases (p == q) (λ e. let same : p ≡ q = ground (arith, e) in rw e (ap cells same))
      (λ e. rw e refl)
