-- ===== src/TimerPool/Ticks.antt =====
-- Whose timer a command receives from (hystrix/hystrix.go).
use hystrix_go.Base.{inr, arith, ◌≤◌, ℕ, ◌≡◌, refl, ap, inl, ◌∷◌, All}
use hystrix_go.TimerPool.{
  stopped, set, waiting, ended, halted, Shared, Step, acquire_new, acquire_pooled, reset, drop,
  fire, receive, finish, stop, put_back, Runs, start, after, unused,
}
use hystrix_go.TimerPool.Own.{
  has, for_whom, loose, Inv, moved-Inv, begin_new, begin_pooled, dropped, fires, puts_back,
}

Step-Inv : {s u : Shared} → Inv s → Step s u → Inv u
Step-Inv {s} inv (acquire_new k e) = begin_new s inv k
Step-Inv {s} inv (acquire_pooled k t e f) = begin_pooled s inv k t f
Step-Inv {s} inv (reset k t e) =
    moved-Inv s inv k t (ap has e) (waiting t) (set k) s.received refl (λ i j e f. cc) inv.owned
Step-Inv {s} inv (drop t e) = dropped s inv t e
Step-Inv {s} inv (fire t j e) = fires s inv t j e
Step-Inv {s} inv (receive k t j e f) =
    moved-Inv s inv k t (ap has e) (ended t) stopped ((k, j) ∷ s.received) refl
      (λ i j e f. absurd cc) (inv.mine k t j e (ap for_whom f), inv.owned)
Step-Inv {s} inv (finish k t e) =
    moved-Inv s inv k t (ap has e) (ended t) (s.clocks t) s.received refl (λ i j e f. absurd cc)
      inv.owned
Step-Inv {s} inv (stop k t e) =
    moved-Inv s inv k t (ap has e) (halted t) stopped s.received refl (λ i j e f. absurd cc)
      inv.owned
Step-Inv {s} inv (put_back k t e) = puts_back s inv k t e

unused-Inv : Inv unused
unused-Inv = record {
  own = λ _. loose;
  holds = λ k t h. absurd cc;
  mine = λ k t j h f. absurd cc;
  pools = λ t. inl refl;
  new = λ t h. (refl, refl);
  owned = tt;
}

Runs-Inv : {s : Shared} → Runs unused s → Inv s
Runs-Inv start = unused-Inv
Runs-Inv (after r st) = Step-Inv (Runs-Inv r) st

-- However commands take timers, start them, receive from them, stop them and put them back, and
-- timers fire, from the start on, a command that receives from its timer receives what fired for
-- itself, never what a command before it had set, and a timer is in the pool at most once.
pub own_timer :
    {s : Shared} (t : ℕ) → Runs unused s → All (λ (k, j). k ≡ j) s.received × (s.pool t ≤ 1)
own_timer {s} t r =
    let inv = Runs-Inv r in
    (inv.owned, elim (inv.pools t) [ inl z ↦ omega arith | inr there ↦ omega arith ])
