-- ===== src/Pool.antt =====
-- hystrix/pool.go: the tickets of a command.
--
-- The tickets in the channel are alike, so the channel is their number. `none` stands for a panic
-- or for a send that blocks.
pub mod Tickets
use Prim.Native.String.{String}
use hystrix_go.Base.{
  ℕ, zero, suc, ◌+◌, ◌-◌, ◌%◌, ◌^◌, Bool, true, false, Option, none, some, ltb, if◌then◌else◌, slt,
}
use hystrix_go.Metrics.{◌>>=◌}
use hystrix_go.Rolling.Number
use hystrix_go.Rolling.Number.{Number}
use hystrix_go.Settings.{Settings, SettingsMap, get_settings}

pub record ExecutorPool : Type 0 where
  pub tickets : ℕ  -- how many the channel holds
  pub capacity : ℕ  -- of the channel
  pub max_active_requests : Number
  pub executed : Number
  pub name : String
  pub max : ℕ

-- `tickets <- &struct{}{}`
abbrev pub send : ExecutorPool → Option ExecutorPool
send p = if ltb p.tickets p.capacity then some (record p { tickets = p.tickets + 1 }) else none

-- The loop of `newExecutorPool` with the rounds left. It ends with a full channel.
unfoldable pub fill : ℕ → ExecutorPool → Option ExecutorPool
fill zero p = some p
fill (suc n) p = send p >>= fill n

-- `make` panics at a negative size; one beyond what the memory allows is left out.
unfoldable pub new_executor_pool : String → SettingsMap → Option (ExecutorPool × SettingsMap)
new_executor_pool name settings = do
  (s, settings') ← get_settings name settings
  let max_requests = s.max_concurrent_requests
  pool ←
      if slt max_requests 0
      then none
      else fill max_requests (record {
        tickets = 0;
        capacity = max_requests;
        max_active_requests = Number.new_number;
        executed = Number.new_number;
        name = name;
        max = max_requests;
      })
  some (pool, settings')

-- `p.Max - len(p.Tickets)`
unfoldable pub active_count : ExecutorPool → ℕ
active_count p = (p.max + 2 ^ 64 - p.tickets) % 2 ^ 64

-- `select { case ticket = <-p.Tickets: … default: … }`: whether there was one.
unfoldable pub acquire : ExecutorPool → Bool × ExecutorPool
acquire p = if ltb 0 p.tickets then (true, record p { tickets = p.tickets - 1 }) else (false, p)

-- `Return`, where `ticket` says whether there is one.
unfoldable pub return_ticket : Bool → ℕ → ExecutorPool → Option ExecutorPool
return_ticket false now p = some p
return_ticket true now p = send (record p {
  executed = Number.increment_at now 1 p.executed;
  max_active_requests = Number.update_max_at now (active_count p) p.max_active_requests;
})

unfoldable pub reset_metrics : ExecutorPool → ExecutorPool
reset_metrics p = record p {
  max_active_requests = Number.reset p.max_active_requests;
  executed = Number.reset p.executed;
}
