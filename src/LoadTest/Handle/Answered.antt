-- ===== src/LoadTest/Handle/Answered.antt =====
-- How a request to the load test service (loadtest/service/main.go) ends.
use hystrix_go.Base.{ℕ, zero, suc, ◌+◌, ◌≤◌, ◌<◌, ◌≡◌, ◌≢◌, refl, [], ◌⊎◌, arith, inl, inr}
use hystrix_go.Hystrix.{Err, err_circuit_open, err_max_concurrency, err_timeout, try_fallback, go_c}
use hystrix_go.LoadTest.Handle.{
  Runner, unstarted, sleeping, slept, Caller, asks, waits, falls_back, finished, Answer, pending,
  ok, internal_server_error, Request, arrive, Step, short_circuit, reject, start_run, time_out,
  run_sends, run_returns, fallback_sends, answer_ok, answer_error, Runs, arrives, steps,
}
use hystrix_go.LoadTest.Handle.Left.{left, Step-left}

abbrev slept_once : Runner → ℕ
slept_once unstarted = 0
slept_once sleeping = 0
slept_once slept = 1

abbrev is_finished : Caller → ℕ
is_finished asks = 0
is_finished waits = 0
is_finished (falls_back _) = 0
is_finished finished = 1

abbrev answered : Answer → ℕ
answered pending = 0
answered ok = 1
answered internal_server_error = 1

-- The run function is started when the command is let through.
abbrev Fits : Caller → Runner → Type 0
Fits asks unstarted = Unit
Fits asks sleeping = ⊥
Fits asks slept = ⊥
Fits waits unstarted = ⊥
Fits waits sleeping = Unit
Fits waits slept = Unit
Fits (falls_back _) _ = Unit
Fits finished _ = Unit

asks-slept_once : (k : Runner) → Fits asks k → slept_once k ≡ 0
asks-slept_once unstarted f = refl
asks-slept_once sleeping f = refl
asks-slept_once slept f = absurd f

waits-slept : (c : Caller) (k : Runner) → Fits c k → k ≡ sleeping → Fits c slept
waits-slept asks k f e = rw e at f
waits-slept waits k f e = tt
waits-slept (falls_back err) k f e = tt
waits-slept finished k f e = tt

-- `told` counts the sends of the fallback.
record Inv (r : Request) : Type 0 where
  told : ℕ
  balance : r.done + answered r.answer ≡ slept_once r.runner + told
  late : told ≤ is_finished r.caller
  some_send : is_finished r.caller ≤ slept_once r.runner + told
  no_error : r.err_chan ≡ []
  fine : r.answer ≢ internal_server_error
  fits : Fits r.caller r.runner

module _ {r : Request} (inv : Inv r) where
  fall_back : (err : Err) → is_finished r.caller ≡ 0 → Inv (record r { caller = falls_back err })
  fall_back err e = record {
    told = inv.told;
    balance = inv.balance;
    late = omega (arith, inv.late, e);
    some_send = omega arith;
    no_error = inv.no_error;
    fine = inv.fine;
    fits = tt;
  }

  Step-Inv : {r' : Request} → Step r r' → Inv r'
  unfolding try_fallback go_c
  Step-Inv (short_circuit e) = fall_back err_circuit_open (rw e refl)
  Step-Inv (reject e) = fall_back err_max_concurrency (rw e refl)
  Step-Inv (time_out e) = fall_back err_timeout (rw e refl)
  Step-Inv (start_run e) =
      let none_slept = asks-slept_once r.runner (rw e at inv.fits) in
      let none_told : inv.told ≤ 0 = rw e at inv.late in
      record {
        told = inv.told;
        balance = omega (arith, inv.balance, none_slept);
        late = none_told;
        some_send = omega arith;
        no_error = inv.no_error;
        fine = inv.fine;
        fits = tt;
      }
  Step-Inv (run_sends e h) =
      let balance : 0 + answered r.answer ≡ 0 + inv.told = rw (h, e) at inv.balance in
      let some_send : is_finished r.caller ≤ 0 + inv.told = rw e at inv.some_send in
      record {
        told = inv.told;
        balance = omega (arith, balance);
        late = inv.late;
        some_send = omega (arith, some_send);
        no_error = inv.no_error;
        fine = inv.fine;
        fits = waits-slept r.caller r.runner inv.fits e;
      }
  Step-Inv (run_returns e h) = record {
    told = inv.told;
    balance = inv.balance;
    late = let none_told : inv.told ≤ 0 = rw e at inv.late in omega arith;
    some_send = rw h (omega arith);
    no_error = refl;
    fine = inv.fine;
    fits = tt;
  }
  Step-Inv (fallback_sends err e h) =
      let none_told : inv.told ≤ 0 = rw e at inv.late in
      let balance : 0 + answered r.answer ≡ slept_once r.runner + inv.told = rw h at inv.balance in
      record {
        told = suc inv.told;
        balance = omega (arith, balance);
        late = omega arith;
        some_send = omega arith;
        no_error = refl;
        fine = inv.fine;
        fits = tt;
      }
  Step-Inv (answer_ok {n} e h) =
      let balance : suc n + 0 ≡ slept_once r.runner + inv.told = rw (h, e) at inv.balance in
      record {
        told = inv.told;
        balance = omega (arith, balance);
        late = inv.late;
        some_send = inv.some_send;
        no_error = inv.no_error;
        fine = λ e. cc;
        fits = inv.fits;
      }
  Step-Inv (answer_error err e h) = absurd (let x = inv.no_error in cc)

Runs-Inv : {r : Request} → Runs r → Inv r
unfolding arrive
Runs-Inv arrives = record {
  told = 0;
  balance = refl;
  late = omega arith;
  some_send = omega arith;
  no_error = refl;
  fine = λ e. cc;
  fits = tt;
}
Runs-Inv (steps run s) = Step-Inv (Runs-Inv run) s

-- The handler has answered with OK, and no goroutine is left that will send.
pub record IsHandled (r : Request) : Type 0 where
  pub answered_ok : r.answer ≡ ok
  pub command_over : r.caller ≡ finished
  pub run_over : r.runner ≢ sleeping

slept_once-le : (k : Runner) → slept_once k ≤ 1
slept_once-le unstarted = omega arith
slept_once-le sleeping = omega arith
slept_once-le slept = omega arith

-- Once the command is over, something was sent.
unsent : {r : Request} → Inv r → r.caller ≡ finished → r.answer ≡ pending → r.done ≡ 0 → ⊥
unsent {r} inv ec ea en =
    let some_send : 1 ≤ slept_once r.runner + inv.told = rw ec at inv.some_send in
    let balance : 0 + 0 ≡ slept_once r.runner + inv.told = rw (en, ea) at inv.balance in
    omega (arith, some_send, balance)

by_state :
    {r : Request}
    → Inv r
    → (c : Caller) (k : Runner) (a : Answer) (n : ℕ) → r.caller ≡ c
    → r.runner ≡ k
    → r.answer ≡ a
    → r.done ≡ n
    → IsHandled r ⊎ ((r' : Request) × Step r r')
by_state inv c k internal_server_error n ec ek ea en = absurd (inv.fine ea)
by_state inv c k pending (suc n) ec ek ea en = inr (_, answer_ok ea en)
by_state inv asks k a n ec ek ea en = inr (_, short_circuit ec)
by_state inv waits k a n ec ek ea en = inr (_, time_out ec)
by_state inv (falls_back err) k a zero ec ek ea en = inr (_, fallback_sends err ec en)
by_state inv (falls_back err) k ok (suc n) ec ek ea en =
    let balance : suc n + 1 ≡ slept_once k + inv.told = rw (en, ea, ek) at inv.balance in
    let none_told : inv.told ≤ 0 = rw ec at inv.late in
    absurd (omega (arith, balance, none_told, slept_once-le k))
by_state inv finished sleeping a zero ec ek ea en = inr (_, run_sends ek en)
by_state inv finished sleeping ok (suc n) ec ek ea en =
    let balance : suc n + 1 ≡ 0 + inv.told = rw (en, ea, ek) at inv.balance in
    let once : inv.told ≤ 1 = rw ec at inv.late in absurd (omega (arith, balance, once))
by_state inv finished unstarted ok n ec ek ea en =
    inl (record { answered_ok = ea; command_over = ec; run_over = λ e. cc })
by_state inv finished slept ok n ec ek ea en =
    inl (record { answered_ok = ea; command_over = ec; run_over = λ e. cc })
by_state inv finished unstarted pending zero ec ek ea en = absurd (unsent inv ec ea en)
by_state inv finished slept pending zero ec ek ea en = absurd (unsent inv ec ea en)

-- A request to the load test service, in any state that it can reach: every step leaves fewer steps to
-- take, and either one can be taken or the handler has answered with OK, the command is over and its run
-- function does not wait. So every request is answered with OK, whether its command runs in time or not
-- or is turned down, and no goroutine waits forever at a channel. The handler never answers with an error.
pub handled :
    {r : Request}
    → Runs r
    → ((r' : Request) → Step r r' → left r' < left r)
      × (r.answer ≢ internal_server_error)
      × (IsHandled r ⊎ ((r' : Request) × Step r r'))
handled {r} runs =
    let inv = Runs-Inv runs in
    (
      λ r' s. Step-left s,
      inv.fine,
      by_state inv r.caller r.runner r.answer r.done refl refl refl refl,
    )
