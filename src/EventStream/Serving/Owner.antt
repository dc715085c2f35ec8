-- ===== src/EventStream/Serving/Owner.antt =====
-- For whom durations are collected.
use hystrix_go.Base.{
  ℕ, Bool, true, false, ◌≡◌, refl, ◌↔◌, put, put-each, put_self, by_cases, arith, sym, ap, ◌∙◌,
}
use hystrix_go.EventStream.Serving.{
  Handler, idle, entered, streaming, leaving, Shared, start, enter, begin_stream, end_stream, leave,
  Step, enters, registers, unregisters, leaves, Runs, starts, steps,
}

abbrev pub owns : Handler → Bool
owns idle = false
owns (entered owner) = owner
owns (streaming owner) = owner
owns (leaving owner) = owner

-- Whose compare-and-swap set the flag.
data Owned (s : Shared) : Type 0 where
  nobody : s.timing ≡ false → ((p : ℕ) → owns (s.handlers p) ≡ false) → Owned s
  somebody :
      (p : ℕ)
      → s.timing ≡ true
      → owns (s.handlers p) ≡ true
      → ((q : ℕ) → owns (s.handlers q) ≡ true → p ≡ q)
      → Owned s

-- A handler that goes on keeps what it owns.
goes_on :
    (s s' : Shared) (p : ℕ) (h : Handler)
    → s'.timing ≡ s.timing
    → s'.handlers ≡ put p h s.handlers
    → owns h ≡ owns (s.handlers p)
    → Owned s
    → Owned s'
goes_on s s' p h t hs same owned =
    let each : (q : ℕ) → owns (s'.handlers q) ≡ owns (s.handlers q) = λ q. rw hs (
      put-each (λ r k. owns k ≡ owns (s.handlers r)) p h s.handlers
        (λ r e. let at : p ≡ r = ground (arith, e) in same ∙ ap (λ r. owns (s.handlers r)) at)
        (λ r e. refl) q) in
    elim owned [
      | nobody off none_owns ↦ nobody (t ∙ off) (λ q. each q ∙ none_owns q)
      | somebody o on owner only ↦
          somebody o (t ∙ on) (each o ∙ owner) (λ q e. only q (sym (each q) ∙ e))
    ]

start-Owned : Owned start
unfolding start
start-Owned = nobody refl (λ p. refl)

enter-Owned : (p : ℕ) (s : Shared) → s.handlers p ≡ idle → Owned s → Owned (enter p s)
unfolding enter
enter-Owned p s at (somebody o on owner only) =
    let s' : Shared = record s { timing = true; handlers = put p (entered false) s.handlers } in
    rw on
      (goes_on s s' p (entered false) (sym on) refl (sym (ap owns at)) (somebody o on owner only))
enter-Owned p s at (nobody off none_owns) = rw off (
    somebody p refl (ap owns (put_self p (entered true) s.handlers)) (
      put-each (λ q h. owns h ≡ true → p ≡ q) p (entered true) s.handlers
        (λ q e o. ground (arith, e)) (λ q e o. absurd (let f = none_owns q in cc))))

leave-Owned :
    (p : ℕ) (owner : Bool) (s : Shared)
    → s.handlers p ≡ leaving owner
    → Owned s
    → Owned (leave p owner s)
unfolding leave
leave-Owned p false s at owned = goes_on s _ p idle refl refl (sym (ap owns at)) owned
leave-Owned p true s at (nobody off none_owns) =
    absurd (let f = none_owns p in let g = ap owns at in cc)
leave-Owned p true s at (somebody o on owner only) = nobody refl (
    put-each (λ q h. owns h ≡ false) p idle s.handlers (λ q e. refl)
      (λ q e.
        by_cases (owns (s.handlers q))
          (λ f. let a = only q f in let b = only p (ap owns at) in absurd (ground (arith, e, a, b)))
          (λ f. f)))

step-Owned : {s s' : Shared} → Step s s' → Owned s → Owned s'
unfolding begin_stream end_stream
step-Owned (enters {s} p at) owned = enter-Owned p s at owned
step-Owned (registers {s} p owner at) owned =
    goes_on s _ p (streaming owner) refl refl (sym (ap owns at)) owned
step-Owned (unregisters {s} p owner at) owned =
    goes_on s _ p (leaving owner) refl refl (sym (ap owns at)) owned
step-Owned (leaves {s} p owner at) owned = leave-Owned p owner s at owned

Runs-Owned : {s : Shared} → Runs s → Owned s
Runs-Owned starts = start-Owned
Runs-Owned (steps r st) = step-Owned st (Runs-Owned r)

-- In every state that the handlers reach, durations are collected exactly if a handler whose own
-- compare-and-swap set the flag has not yet set it back, whether or not other handlers stream.
pub timing_of_owner :
    {s : Shared} → Runs s → (s.timing ≡ true) ↔ ((p : ℕ) × (owns (s.handlers p) ≡ true))
timing_of_owner r = elim (Runs-Owned r) [
  | nobody off none_owns ↦ ((λ on. absurd cc), (λ (p, o). absurd (let f = none_owns p in cc)))
  | somebody o on owner only ↦ ((λ _. (o, owner)), (λ _. on))
]
