-- ===== src/Tests/TimerPool.antt =====
-- Runs of commands that use the timers of hystrix/internal/pool again.
use hystrix_go.Base.{◌≤◌, ◌≡◌, refl, [], ◌∷◌, All}
use hystrix_go.TimerPool.{
  Shared, acquire_new, acquire_pooled, reset, fire, receive, finish, stop, put_back, Runs, start,
  after, unused,
}
use hystrix_go.TimerPool.Ticks.{own_timer}

-- The timer of command 0 fires after command 0 has its result. Command 1 gets it, and times out.
reused : (s : Shared) × Runs unused s × (s.received ≡ (1, 1) ∷ [])
reused = (
  _,
  after
      (after
        (after
          (after
            (after
              (after
                (after (after (after start (acquire_new 0 refl)) (finish 0 0 refl)) (fire 0 0 refl))
                (stop 0 0 refl))
              (put_back 0 0 refl))
            (acquire_pooled 1 0 {n = 0} refl refl))
          (reset 1 0 refl))
        (fire 0 1 refl))
      (receive 1 0 1 refl refl),
  refl,
)

own_timer_example : All (λ (k, j). k ≡ j) reused.0.received × (reused.0.pool 0 ≤ 1)
own_timer_example = own_timer 0 reused.1
