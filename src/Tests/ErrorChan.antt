-- ===== src/Tests/ErrorChan.antt =====
-- Runs of commands that use the channels of hystrix/internal/pool again.
use hystrix_go.Base.{◌≤◌, ◌≡◌, refl, [], ◌∷◌, All}
use hystrix_go.ErrorChan.{
  Shared, running, sent, Step, acquire_new, acquire_pooled, send, receive, release, leave, Runs,
  start, after, unused,
}
use hystrix_go.ErrorChan.Results.{own_results, send_progress}

-- Command 0 is done with channel 0, which command 1 gets. Command 2 has left channel 1.
reused :
    (s : Shared) × Runs unused s × (s.received ≡ (1, 1) ∷ (0, 0) ∷ []) × (s.runners 2 ≡ running 1)
reused = (
  _,
  after
      (after
        (after
          (after
            (after
              (after
                (after
                  (after (after (after start (acquire_new 0 refl)) (send 0 0 refl refl))
                    (receive 0 0 0 refl refl))
                  (release 0 0 refl))
                (acquire_pooled 1 0 {n = 0} refl refl))
              (acquire_new 2 refl))
            (leave 2 1 refl))
          (send 1 0 refl refl))
        (receive 1 0 1 refl refl))
      (release 1 0 refl),
  refl,
  refl,
)

own_results_example : All (λ (k, j). k ≡ j) reused.0.received × (reused.0.pool 0 ≤ 1)
own_results_example = own_results reused.1 0

send_progress_example : (u : Shared) × Step reused.0 u × (u.runners 2 ≡ sent)
send_progress_example = send_progress 2 1 reused.1 reused.3
