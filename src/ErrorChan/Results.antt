-- ===== src/ErrorChan/Results.antt =====
-- Whose result a command receives (hystrix/hystrix.go).
use hystrix_go.Base.{
  ℕ, suc, ◌≤◌, ◌≡◌, refl, ◌∙◌, inl, inr, none, some, ◌∷◌, ◌==◌, All, put, put_self, put_same, arith,
  by_cases,
}
use hystrix_go.ErrorChan.{
  waiting, drained, over, running, sent, Shared, begin_on, Step, acquire_new, acquire_pooled, drop,
  send, receive, release, leave, Runs, start, after, unused,
}
use hystrix_go.ErrorChan.Own.{
  pooled, loose, held, unborn, both, ready, emptied, alone, gone, Inv, held-ne, made, changed-Inv,
  running_case, waiting_case, drained_case,
}

module _ (s : Shared) (inv : Inv s) where
  open inv use {own}

  -- A channel in the pool is there once, and nobody has it.
  in_pool :
      (ch : ℕ) {n : ℕ} → s.pool ch ≡ suc n → (n ≡ 0) × (own ch ≡ pooled) × (s.buffer ch ≡ none)
  in_pool ch e = elim (inv.chans ch) [
    | inl empty ↦ absurd (omega arith)
    | inr there ↦ (omega arith, there.1, there.2)
  ]

  -- A channel that a command has is not in the pool.
  not_in_pool : (ch k : ℕ) → own ch ≡ held k → s.pool ch ≡ 0
  not_in_pool ch k o = elim (inv.chans ch) [
    | inl none_there ↦ none_there
    | inr there ↦ absurd (cc (there.1))
  ]

  begin_new : (k : ℕ) → Inv (begin_on k s.fresh (record s { fresh = suc s.fresh }))
  begin_new k =
      let new = inv.new s.fresh (omega arith) in
      rw (put_same s.fresh s.buffer, put_same s.fresh s.pool) at
        (changed-Inv k s.fresh (waiting s.fresh) (running s.fresh) (held k) (s.buffer s.fresh)
          (s.pool s.fresh) (suc s.fresh) s.received s inv (λ j e h. cc (new.0))
          (both s.fresh refl refl (put_self s.fresh (held k) own)
            (put_self s.fresh (s.buffer s.fresh) s.buffer ∙ new.2))
          (inl (new.1)) (omega arith) (omega arith) inv.owned)

  begin_pooled :
      (k ch : ℕ) {n : ℕ}
      → s.pool ch ≡ suc n
      → Inv (begin_on k ch (record s { pool = put ch n s.pool }))
  begin_pooled k ch {n} e =
      let there = in_pool ch e in
      rw (put_same ch s.buffer) at (
        changed-Inv k ch (waiting ch) (running ch) (held k) (s.buffer ch) n s.fresh s.received s inv
          (λ j e h. cc (there.1))
          (both ch refl refl (put_self ch (held k) own)
            (put_self ch (s.buffer ch) s.buffer ∙ there.2))
          (inl (there.0)) (omega arith) (made s inv ch (λ h. cc (there.1))) inv.owned)

  dropped : (ch : ℕ) {n : ℕ} → s.pool ch ≡ suc n → Inv (record s { pool = put ch n s.pool })
  dropped ch {n} e =
      let there = in_pool ch e in
      record {
        own = own;
        chans = λ i.
            by_cases (ch == i) (λ e. rw e (inl (there.0)))
              (λ e. rw e (elim (inv.chans i) [ inl z ↦ inl z | inr t ↦ inr t ]));
        new = λ i h. (
          (inv.new i h).0,
          by_cases (ch == i) (λ e. rw e (there.0)) (λ e. rw e (inv.new i h).1),
          (inv.new i h).2,
        );
        cmds = inv.cmds;
        owned = inv.owned;
      }

  sends :
      (k ch : ℕ)
      → s.runners k ≡ running ch
      → Inv (record s { runners = put k sent s.runners; buffer = put ch (some k) s.buffer })
  sends k ch e =
      let here = running_case own s.buffer k ch (s.callers k) (s.runners k) e (inv.cmds k) in
      let still : put ch (held k) own ch ≡ held k = put_self ch (held k) own in
      rw (put_same k s.callers, put_same ch s.pool) at
        (changed-Inv k ch (s.callers k) sent (held k) (some k) (s.pool ch) s.fresh s.received s inv
          (λ j e. held-ne own ch k j (here.0) e)
          (elim (here.2) [
            | inl w ↦ ready ch w refl still (put_self ch (some k) s.buffer)
            | inr o ↦ gone o refl
          ])
          (inl (not_in_pool ch k (here.0))) (omega arith) (made s inv ch (λ h. cc (here.0)))
          inv.owned)

  receives :
      (k ch j : ℕ)
      → s.callers k ≡ waiting ch
      → s.buffer ch ≡ some j
      → Inv (record s {
        callers = put k (drained ch) s.callers;
        buffer = put ch none s.buffer;
        received = (k, j) ∷ s.received;
      })
  receives k ch j e f =
      let here = waiting_case own s.buffer k ch (s.callers k) (s.runners k) e (inv.cmds k) in
      let mine : (s.runners k ≡ sent) × (k ≡ j) = elim (here.1) [
        | inl x ↦ absurd (cc (x.1))
        | inr x ↦ (x.0, cc (x.1))
      ] in
      rw (put_same k s.runners, put_same ch s.pool) at
        (changed-Inv k ch (drained ch) (s.runners k) (held k) none (s.pool ch) s.fresh
          ((k, j) ∷ s.received) s inv (λ j e. held-ne own ch k j (here.0) e)
          (emptied ch refl (mine.0) (put_self ch (held k) own) (put_self ch none s.buffer))
          (inl (not_in_pool ch k (here.0))) (omega arith) (made s inv ch (λ h. cc (here.0)))
          (mine.1, inv.owned))

  releases :
      (k ch : ℕ)
      → s.callers k ≡ drained ch
      → Inv (record s { callers = put k over s.callers; pool = put ch (suc (s.pool ch)) s.pool })
  releases k ch e =
      let here = drained_case own s.buffer k ch (s.callers k) (s.runners k) e (inv.cmds k) in
      let away = not_in_pool ch k (here.0) in
      rw (put_same k s.runners, put_same ch s.buffer) at
        (changed-Inv k ch over (s.runners k) pooled (s.buffer ch) (suc (s.pool ch)) s.fresh
          s.received s inv (λ j e. held-ne own ch k j (here.0) e) (gone refl (here.2))
          (inr (omega arith, refl, here.1)) (omega arith) (made s inv ch (λ h. cc (here.0)))
          inv.owned)

  leaves : (k ch : ℕ) → s.callers k ≡ waiting ch → Inv (record s { callers = put k over s.callers })
  leaves k ch e =
      let here = waiting_case own s.buffer k ch (s.callers k) (s.runners k) e (inv.cmds k) in
      rw (put_same k s.runners, put_same ch s.buffer, put_same ch s.pool) at
        (changed-Inv k ch over (s.runners k) (held k) (s.buffer ch) (s.pool ch) s.fresh s.received s
          inv (λ j e. held-ne own ch k j (here.0) e)
          (elim (here.1) [
            | inl x ↦
                alone ch refl (x.0) (put_self ch (held k) own)
                  (put_self ch (s.buffer ch) s.buffer ∙ x.1)
            | inr x ↦ gone refl (x.0)
          ])
          (inl (not_in_pool ch k (here.0))) (omega arith) (made s inv ch (λ h. cc (here.0)))
          inv.owned)

Step-Inv : {s u : Shared} → Inv s → Step s u → Inv u
Step-Inv {s} inv (acquire_new k e) = begin_new s inv k
Step-Inv {s} inv (acquire_pooled k ch e f) = begin_pooled s inv k ch f
Step-Inv {s} inv (drop ch e) = dropped s inv ch e
Step-Inv {s} inv (send k ch e f) = sends s inv k ch e
Step-Inv {s} inv (receive k ch j e f) = receives s inv k ch j e f
Step-Inv {s} inv (release k ch e) = releases s inv k ch e
Step-Inv {s} inv (leave k ch e) = leaves s inv k ch e

unused-Inv : Inv unused
unused-Inv = record {
  own = λ _. loose;
  chans = λ ch. inl refl;
  new = λ ch h. (refl, refl, refl);
  cmds = λ k. unborn refl refl;
  owned = tt;
}

Runs-Inv : {s : Shared} → Runs unused s → Inv s
Runs-Inv start = unused-Inv
Runs-Inv (after r st) = Step-Inv (Runs-Inv r) st

-- However commands take channels from the pool, send, receive, put channels back and leave without
-- a result, a command that receives a result receives that of its own run function, and a channel
-- is in the pool at most once.
pub own_results :
    {s : Shared} → Runs unused s → (ch : ℕ) → All (λ (k, j). k ≡ j) s.received × (s.pool ch ≤ 1)
own_results {s} r ch =
    ((Runs-Inv r).owned, elim ((Runs-Inv r).chans ch) [ inl z ↦ omega arith | inr t ↦ omega arith ])

-- A run function that returns can always send its result, also when its command has left: its
-- goroutine does not wait for ever.
pub send_progress :
    {s : Shared} (k ch : ℕ)
    → Runs unused s
    → s.runners k ≡ running ch
    → (u : Shared) × Step s u × (u.runners k ≡ sent)
send_progress {s} k ch r e =
    let inv = Runs-Inv r in
    let here = running_case inv.own s.buffer k ch (s.callers k) (s.runners k) e (inv.cmds k) in
    (_, send k ch e (here.1), put_self k sent s.runners)
