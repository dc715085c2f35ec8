-- ===== src/LoadTest.antt =====
-- loadtest/service/main.go: a server that runs a command for every request, and whose command takes
-- longer and shorter by turns.
--
-- The flags, the statsd client and HTTP are left out, and so are the log lines.
pub mod Delay
pub mod Handle
use hystrix_go.Base.{
  ℕ, zero, suc, ◌+◌, ◌≡◌, ◌<◌, Bool, true, false, not, ◌&&◌, ◌-◌, ◌^◌, Option, none, some, List, [],
  ◌∷◌, ◌==◌, if◌then◌else◌, add64, mul64,
}
use hystrix_go.Hystrix.{Err, Fallback, err_timeout, try_fallback, go_c}
use hystrix_go.Settings.{SettingsMap, configure_command, zero_config}

abbrev pub delta_window : ℕ
delta_window = 10

abbrev pub min_delay : ℕ
min_delay = 35

abbrev pub max_delay : ℕ
max_delay = 55

pub data Direction : Type 0 where
  up down : Direction

abbrev pub is_up : Direction → Bool
is_up up = true
is_up down = false

-- `ConfigureCommand` in `main`.
unfoldable pub configured : SettingsMap
configured = configure_command "test" (record zero_config { timeout = 50 }) []

-- How long the run function of `handle` sleeps, where `delta` is the random number.
abbrev pub sleep_time : ℕ → ℕ → ℕ
sleep_time delay delta = mul64 (add64 delay delta) 1_000_000

-- The direction after the two tests of `rotateDelay`.
abbrev pub turn_at_top : Direction → ℕ → Direction
turn_at_top direction delay = if is_up direction && (delay == max_delay) then down else direction

abbrev pub turn_at_bottom : Direction → ℕ → Direction
turn_at_bottom direction delay =
    if not (is_up direction) && (delay == min_delay) then up else direction

-- A round of `rotateDelay`.
unfoldable pub rotate_delay : Direction × ℕ → Direction × ℕ
rotate_delay (direction, delay) =
    let direction = turn_at_bottom (turn_at_top direction delay) delay in
    (direction, if is_up direction then add64 delay 1 else add64 delay (2 ^ 64 - 1))

-- After `n` rounds.
unfoldable pub rotations : ℕ → Direction × ℕ
rotations zero = (up, min_delay)
rotations (suc n) = rotate_delay (rotations n)
