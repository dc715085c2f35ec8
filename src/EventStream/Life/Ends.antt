-- ===== src/EventStream/Life/Ends.antt =====
-- When `Start` and `Stop` panic, and how the loops end (hystrix/eventstream.go).
use hystrix_go.Base.{
  ℕ, suc, ◌≤◌, ◌<◌, ◌≡◌, ◌≢◌, refl, Bool, true, false, not, Option, none, some, List, [], ◌∷◌, put,
  put_self, ◌==◌, arith, by_cases, inl, inr, Option-cases,
}
use hystrix_go.EventStream.{Requests}
use hystrix_go.EventStream.Life.{
  Loop, absent, ready, waiting, returned, StreamHandler, new_stream_handler, start, stop, selects,
  publishes, returns, Steps, here, next, Call, starts, stops, call_all, is_proper,
}

-- Started, and not stopped since.
abbrev is_started : Option ℕ → (ℕ → Bool) → Bool
is_started none closed = false
is_started (some ch) closed = not (closed ch)

abbrev pub is_some {ℓ} : {A : Type ℓ} → Option A → Bool
is_some none = false
is_some (some _) = true

-- A channel that will be made is not closed, and the last one has been made.
record Inv (sh : StreamHandler) : Type 0 where
  unmade : (ch : ℕ) → sh.fresh ≤ ch → sh.closed ch ≡ false
  made : (ch : ℕ) → sh.done ≡ some ch → ch < sh.fresh

start-Inv : (sh : StreamHandler) → Inv sh → Inv (start sh)
unfolding start
start-Inv sh inv = record {
  unmade = λ ch le. inv.unmade ch (omega arith);
  made = λ ch e. let same : sh.fresh ≡ ch = cc in omega arith;
}

closed-Inv :
    (sh : StreamHandler) (ch : ℕ)
    → Inv sh
    → sh.done ≡ some ch
    → Inv (record sh { closed = put ch true sh.closed })
closed-Inv sh ch inv e = record {
  unmade = λ ch' le.
      let differs : (ch == ch') ≡ false = ground (arith, inv.made ch e) in
      rw differs (inv.unmade ch' le);
  made = inv.made;
}

stop-none : (sh : StreamHandler) → sh.done ≡ none → stop sh ≡ none
unfolding stop
stop-none sh e = rw e refl

stop-closed :
    (sh : StreamHandler) (ch : ℕ) → sh.done ≡ some ch → sh.closed ch ≡ true → stop sh ≡ none
unfolding stop
stop-closed sh ch e h = rw (e, h) refl

stop-some :
    (sh : StreamHandler) (ch : ℕ)
    → sh.done ≡ some ch
    → sh.closed ch ≡ false
    → stop sh ≡ some (record sh { closed = put ch true sh.closed })
unfolding stop
stop-some sh ch e h = simp (e, h) refl

call_all-is_proper :
    (calls : List Call) (sh : StreamHandler) (started : Bool)
    → Inv sh
    → is_started sh.done sh.closed ≡ started
    → is_some (call_all calls sh) ≡ is_proper started calls
unfolding call_all start
call_all-is_proper [] sh started inv h = refl
call_all-is_proper (starts ∷ calls) sh started inv h =
    call_all-is_proper calls (start sh) true (start-Inv sh inv)
      (rw (inv.unmade sh.fresh (omega arith)) refl)
call_all-is_proper (stops ∷ calls) sh started inv h = elim (Option-cases sh.done) [
  | inl e ↦ rw (stop-none sh e, ← (rw e at h)) refl
  | inr (ch, e) ↦
      by_cases (sh.closed ch) (λ k. rw (stop-closed sh ch e k, ← (rw (e, k) at h)) refl)
        (λ k.
          rw (stop-some sh ch e k, ← (rw (e, k) at h))
            (call_all-is_proper calls (record sh { closed = put ch true sh.closed }) false
              (closed-Inv sh ch inv e) (rw (e, put_self ch true sh.closed) refl)))
]

-- Calls of `Start` and `Stop` on a new handler panic exactly if some `Stop` does not have a `Start`
-- before it without another `Stop` between the two. Any number of `Start` in a row is no panic.
pub call_all-new :
    (calls : List Call) → is_some (call_all calls new_stream_handler) ≡ is_proper false calls
call_all-new calls =
    call_all-is_proper calls new_stream_handler false
      (record { unmade = λ ch le. refl; made = λ ch e. absurd (cc (e)) }) refl

module _ (publish : Requests → Requests) (p ch : ℕ) where
  Returned : StreamHandler → ℕ → Type 0
  Returned sh n =
      (sh' : StreamHandler) × Steps publish sh sh' × (sh'.loops p ≡ returned) × (sh'.ticks ≤ n)

  waiting_returns :
      (sh : StreamHandler) (ch' : ℕ)
      → sh.loops p ≡ waiting ch'
      → sh.closed ch' ≡ true
      → Returned sh sh.ticks
  unfolding Returned
  waiting_returns sh ch' at closed = (
    record sh { loops = put p returned sh.loops },
    next (returns p ch' at closed) here,
    put_self p returned sh.loops,
    omega arith,
  )

  ready_returns :
      (sh : StreamHandler)
      → sh.loops p ≡ ready
      → sh.done ≡ some ch
      → sh.closed ch ≡ true
      → Returned sh sh.ticks
  unfolding Returned
  ready_returns sh at e closed =
      let (sh', steps, there, le) =
        waiting_returns (record sh { loops = put p (waiting ch) sh.loops }) ch
          (put_self p (waiting ch) sh.loops) closed in
      (sh', next (selects p ch at e) steps, there, le)

  module _ (sh : StreamHandler) (requests : Requests) (e : sh.done ≡ some ch)
      (closed : sh.closed ch ≡ true) (there : sh.requests ≡ some requests) where
    by_loop : (l : Loop) → sh.loops p ≡ l → l ≢ absent → Returned sh (suc sh.ticks)
    unfolding Returned
    by_loop absent at runs = absurd (runs refl)
    by_loop ready at runs =
        let (sh', steps, back, le) = ready_returns sh at e closed in (sh', steps, back, omega arith)
    by_loop returned at runs = (sh, here, at, omega arith)
    by_loop (waiting ch') at runs =
        by_cases (sh.closed ch')
          (λ k.
            let (sh', steps, back, le) = waiting_returns sh ch' at k in
            (sh', steps, back, omega arith))
          (λ k.
            let (sh', steps, back, le) =
              ready_returns
                (record sh {
                  loops = put p ready sh.loops;
                  requests = some (publish requests);
                  ticks = suc sh.ticks;
                })
                (put_self p ready sh.loops) e closed in
            (sh', next (publishes p ch' requests at there) steps, back, le))

-- Once `Stop` has closed the last channel, each loop can return, whatever channel it waits on
-- and however often the stream was started, and it publishes at most once more before. The map of the
-- requests is there.
pub loop_ends :
    (publish : Requests → Requests) (sh : StreamHandler) (p ch : ℕ) (requests : Requests)
    → sh.done ≡ some ch
    → sh.closed ch ≡ true
    → sh.requests ≡ some requests
    → sh.loops p ≢ absent
    → (sh' : StreamHandler) × Steps publish sh sh'
      × (sh'.loops p ≡ returned)
      × (sh'.ticks ≤ suc sh.ticks)
unfolding Returned
loop_ends publish sh p ch requests e closed there runs =
    by_loop publish p ch sh requests e closed there (sh.loops p) refl runs
