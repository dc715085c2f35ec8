-- ===== src/Tests/LoadTest.antt =====
-- The load test service, the life of the stream and the start of a statsd client at concrete inputs.
use text.Mathlib.Text.{◌==◌ as str_eq}
use hystrix_go.Base.{
  ℕ, ◌≡◌, ◌≢◌, ◌≤◌, ◌<◌, ◌⊎◌, refl, false, Option, none, some, [], ◌∷◌, ◌==◌, if◌then◌else◌,
}
use hystrix_go.EventStream.Life.{
  starts, stops, StreamHandler, new_stream_handler, call_all, waiting,
}
use hystrix_go.EventStream.Life.Ends.{is_some, call_all-new}
use hystrix_go.Hystrix.{err_timeout}
use hystrix_go.LoadTest.{rotations, rotate_delay}
use hystrix_go.LoadTest.Delay.{wave, rotations-wave}
use hystrix_go.LoadTest.Handle.{
  Request, Step, Runs, arrives, steps, start_run, time_out, run_sends, arrive, slept, falls_back,
  pending, internal_server_error,
}
use hystrix_go.LoadTest.Handle.Answered.{IsHandled, handled}
use hystrix_go.LoadTest.Handle.Left.{left}
use hystrix_go.Plugins.Statsd.Client.{
  Statter, ClientConfig, CollectorConfig, IsAttached, initialize_collector,
  initialize_collector-IsAttached,
}

-- Rates and errors are numbers, and the address decides whether there is a client.
abbrev dial : ClientConfig → Statter ℕ × Option ℕ
dial config = if str_eq config.address "" then (Statter.nil, some 7) else (Statter.client 5, none)

abbrev config : CollectorConfig ℕ ℕ ℕ (λ r. r == 0) 1 dial
config = record { statsd_addr = "host"; prefix = "p"; sample_rate = 0; flush_bytes = 0 }

initialize_collector-IsAttached_example :
    IsAttached ℕ ℕ ℕ
      (λ r. r == 0)
      1
      dial
      config
      "a"
      (initialize_collector ℕ ℕ ℕ (λ r. r == 0) 1 dial config)
initialize_collector-IsAttached_example =
    initialize_collector-IsAttached ℕ ℕ ℕ (λ r. r == 0) 1 dial config "a" (λ e h. cc)

call_all-new_example :
    is_some (call_all (starts ∷ starts ∷ stops ∷ stops ∷ []) new_stream_handler) ≡ false
call_all-new_example = call_all-new (starts ∷ starts ∷ stops ∷ stops ∷ [])

-- A handler that was started twice and stopped, while the first loop waits on its old channel.
abbrev stopped : StreamHandler
stopped = record {
  done = some 1;
  requests = some [];
  closed = λ ch. ch == 1;
  loops = λ p. waiting p;
  fresh = 2;
  ticks = 3;
}

rotations-wave_example :
    ((rotations 50).1 ≡ wave 50) × (35 ≤ (rotations 50).1) × ((rotations 50).1 ≤ 55)
rotations-wave_example = rotations-wave 50

rotations_run : (rotations 50).1 ≡ 45
unfolding rotations rotate_delay
rotations_run = refl

-- The command times out, and then its run function sends.
abbrev late : Request
late = record {
  runner = slept;
  caller = falls_back err_timeout;
  done = 1;
  err_chan = [];
  answer = pending;
}

late_runs : Runs late
unfolding arrive
late_runs = steps (steps (steps arrives (start_run refl)) (time_out refl)) (run_sends refl refl)

handled_example :
    ((r : Request) → Step late r → left r < left late)
    × (pending ≢ internal_server_error)
    × (IsHandled late ⊎ ((r : Request) × Step late r))
handled_example = handled late_runs
