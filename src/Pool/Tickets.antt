-- ===== src/Pool/Tickets.antt =====
-- The tickets of hystrix/pool.go, in the channel and with the commands.
use Prim.Native.String.{String}
use hystrix_go.Base.{
  ℕ, zero, suc, ◌+◌, ◌^◌, ◌≤◌, ◌<◌, ◌≡◌, refl, true, none, some, ltb, if◌then◌else◌, arith,
}
use hystrix_go.Rolling.Number
use hystrix_go.Pool.{ExecutorPool, fill, new_executor_pool, active_count, acquire, return_ticket}
use hystrix_go.Settings.{SettingsMap}
use hystrix_go.Settings.Lookup.{found, get_settings_total}
use hystrix_go.Base.Dict.{lookup}

-- `out` tickets are with running commands, the others are in the channel.
pub record HasOut (out : ℕ) (p : ExecutorPool) : Type 0 where
  pub sound : p.capacity ≡ p.max
  pub word : p.max < 2 ^ 63
  pub balance : p.tickets + out ≡ p.max

fill-eq :
    (n : ℕ) (p : ExecutorPool)
    → p.tickets + n ≤ p.capacity
    → fill n p ≡ some (record p { tickets = p.tickets + n })
unfolding fill
fill-eq zero p h = ground arith
fill-eq (suc n) p h = ground (arith, fill-eq n (record p { tickets = p.tickets + 1 }))

-- The number of active requests is the number of tickets that are out.
pub active_count-eq : {out : ℕ} {p : ExecutorPool} → HasOut out p → active_count p ≡ out
unfolding active_count
active_count-eq h = omega arith

-- `select` finds a ticket exactly if fewer than `Max` are out, and then one more is out.
pub acquire_lem :
    {out : ℕ} {p : ExecutorPool}
    → HasOut out p
    → ((acquire p).0 ≡ ltb out p.max)
      × ((acquire p).1.max ≡ p.max)
      × HasOut (if ltb out p.max then suc out else out) (acquire p).1
unfolding acquire
acquire_lem h = ground arith

-- A ticket that is out can be given back at once, and then one fewer is out.
pub return_ticket_lem :
    {out : ℕ} {p : ExecutorPool} (now : ℕ)
    → HasOut (suc out) p
    → (p' : ExecutorPool) × (return_ticket true now p ≡ some p') × HasOut out p' × (p'.max ≡ p.max)
unfolding return_ticket
return_ticket_lem {out} {p} now h = (
  record p {
    tickets = p.tickets + 1;
    executed = Number.increment_at now 1 p.executed;
    max_active_requests = Number.update_max_at now (active_count p) p.max_active_requests;
  },
  ground arith,
  ground arith,
  refl,
)

module _ (name : String) (m : SettingsMap) where
  abbrev size : ℕ
  size = (found name (lookup name m) m).0.max_concurrent_requests

  empty : ExecutorPool
  empty = record {
    tickets = 0;
    capacity = size;
    max_active_requests = Number.new_number;
    executed = Number.new_number;
    name = name;
    max = size;
  }

  -- A new pool holds all of its tickets, as many as its settings allow.
  pub new_executor_pool_lem :
      size < 2 ^ 63
      → (p : ExecutorPool) × (new_executor_pool name m ≡ some (p, (found name (lookup name m) m).1))
        × HasOut 0 p
        × (p.max ≡ size)
  unfolding new_executor_pool empty
  new_executor_pool_lem small =
      rw get_settings_total
        (record empty { tickets = size }, ground (arith, fill-eq size empty), ground arith, refl)

  -- A negative number of tickets is a panic.
  pub new_executor_pool-negative : 2 ^ 63 ≤ size → size < 2 ^ 64 → new_executor_pool name m ≡ none
  unfolding new_executor_pool
  new_executor_pool-negative big word = rw get_settings_total (ground arith)
