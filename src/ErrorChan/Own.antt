-- ===== src/ErrorChan/Own.antt =====
-- Who has which channel, and what one step does to that.
use hystrix_go.Base.{
  ℕ, ◌≤◌, ◌<◌, false, ◌≡◌, ◌≢◌, refl, ap, ◌∙◌, ◌⊎◌, inl, inr, Option, none, some, List, ◌==◌, All,
  put, ltb, arith, by_cases,
}
use hystrix_go.ErrorChan.{
  Caller, before, waiting, drained, over, Runner, absent, running, sent, Shared,
}

-- Who may use a channel.
pub data Owner : Type 0 where
  pooled loose : Owner
  held : ℕ → Owner

abbrev pub Owners : Type 0
Owners = ℕ → Owner

-- A command's caller and its goroutine share a channel that is theirs alone.
pub data Fine (own : Owners) (buffer : ℕ → Option ℕ) (k : ℕ) (c : Caller) (r : Runner)
    : Type 0 where
  unborn : c ≡ before → r ≡ absent → Fine own buffer k c r
  both :
      (ch : ℕ)
      → c ≡ waiting ch
      → r ≡ running ch
      → own ch ≡ held k
      → buffer ch ≡ none
      → Fine own buffer k c r
  ready :
      (ch : ℕ)
      → c ≡ waiting ch
      → r ≡ sent
      → own ch ≡ held k
      → buffer ch ≡ some k
      → Fine own buffer k c r
  emptied :
      (ch : ℕ)
      → c ≡ drained ch
      → r ≡ sent
      → own ch ≡ held k
      → buffer ch ≡ none
      → Fine own buffer k c r
  alone :
      (ch : ℕ)
      → c ≡ over
      → r ≡ running ch
      → own ch ≡ held k
      → buffer ch ≡ none
      → Fine own buffer k c r
  gone : c ≡ over → r ≡ sent → Fine own buffer k c r

-- A command keeps what it has where its channel is left alone.
abbrev Keeps : Owners → (ℕ → Option ℕ) → Owners → (ℕ → Option ℕ) → ℕ → Type 0
Keeps own buffer own' buffer' k =
    (ch : ℕ) → own ch ≡ held k → (own' ch ≡ held k) × (buffer' ch ≡ buffer ch)

Fine-Keeps :
    (own own' : Owners) (buffer buffer' : ℕ → Option ℕ) (k : ℕ) (c : Caller) (r : Runner)
    → Keeps own buffer own' buffer' k
    → Fine own buffer k c r
    → Fine own' buffer' k c r
Fine-Keeps own own' buffer buffer' k c r keeps (unborn a b) = unborn a b
Fine-Keeps own own' buffer buffer' k c r keeps (both ch a b o e) =
    both ch a b (keeps ch o).0 ((keeps ch o).1 ∙ e)
Fine-Keeps own own' buffer buffer' k c r keeps (ready ch a b o e) =
    ready ch a b (keeps ch o).0 ((keeps ch o).1 ∙ e)
Fine-Keeps own own' buffer buffer' k c r keeps (emptied ch a b o e) =
    emptied ch a b (keeps ch o).0 ((keeps ch o).1 ∙ e)
Fine-Keeps own own' buffer buffer' k c r keeps (alone ch a b o e) =
    alone ch a b (keeps ch o).0 ((keeps ch o).1 ∙ e)
Fine-Keeps own own' buffer buffer' k c r keeps (gone a b) = gone a b

abbrev pub InPool : Owners → Shared → ℕ → Type 0
InPool own s ch = (s.pool ch ≡ 1) × (own ch ≡ pooled) × (s.buffer ch ≡ none)

pub record Inv (s : Shared) : Type 0 where
  pub own : Owners
  pub chans : (ch : ℕ) → (s.pool ch ≡ 0) ⊎ InPool own s ch
  pub new : (ch : ℕ) → s.fresh ≤ ch → (own ch ≡ loose) × (s.pool ch ≡ 0) × (s.buffer ch ≡ none)
  pub cmds : (k : ℕ) → Fine own s.buffer k (s.callers k) (s.runners k)
  pub owned : All (λ (k, j). k ≡ j) s.received

-- A channel that command `j` does not have changes hands.
others_keep :
    (own : Owners) (buffer : ℕ → Option ℕ) (ch j : ℕ) (o : Owner) (x : Option ℕ)
    → own ch ≢ held j
    → Keeps own buffer (put ch o own) (put ch x buffer) j
others_keep own buffer ch j o x ne i h =
    by_cases (ch == i) (λ e. let same : ch ≡ i = ground (arith, e) in absurd (ne (ap own same ∙ h)))
      (λ e. rw e (h, refl))

pub held-ne : (own : Owners) (ch k j : ℕ) → own ch ≡ held k → (k == j) ≡ false → own ch ≢ held j
held-ne own ch k j h e i = ground arith

-- A channel that someone has was made.
pub made : (s : Shared) (inv : Inv s) (ch : ℕ) → inv.own ch ≢ loose → ch < s.fresh
made s inv ch ne =
    by_cases (ltb ch s.fresh) (λ e. ground (arith, e))
      (λ e. absurd (ne (inv.new ch (ground (arith, e))).0))

-- One step: command `k` and the channel `ch` change.
abbrev pub changed : ℕ → ℕ → Caller → Runner → Option ℕ → ℕ → ℕ → List (ℕ × ℕ) → Shared → Shared
changed k ch c r x n fresh received s = record {
  callers = put k c s.callers;
  runners = put k r s.runners;
  buffer = put ch x s.buffer;
  pool = put ch n s.pool;
  fresh = fresh;
  received = received;
}

pub changed-Inv :
    (k ch : ℕ) (c : Caller) (r : Runner) (o : Owner) (x : Option ℕ) (n fresh : ℕ)
    (received : List (ℕ × ℕ)) (s : Shared) (inv : Inv s)
    → ((j : ℕ) → (k == j) ≡ false → inv.own ch ≢ held j)
    → Fine (put ch o inv.own) (put ch x s.buffer) k c r
    → ((n ≡ 0) ⊎ ((n ≡ 1) × (o ≡ pooled) × (x ≡ none)))
    → s.fresh ≤ fresh
    → ch < fresh
    → All (λ (k, j). k ≡ j) received
    → Inv (changed k ch c r x n fresh received s)
changed-Inv k ch c r o x n fresh received s inv free this chan le lt owned = record {
  own = put ch o inv.own;
  chans = λ i. by_cases (ch == i) (λ e. rw e chan) (λ e. rw e (inv.chans i));
  new = λ i h.
      by_cases (ch == i) (λ e. absurd (ground (arith, e))) (λ e. rw e (inv.new i (omega arith)));
  cmds = λ j.
      by_cases (k == j) (λ e. let same : k ≡ j = ground (arith, e) in rw e (rw same at this))
        (λ e. rw e (
          Fine-Keeps inv.own (put ch o inv.own) s.buffer (put ch x s.buffer) j (s.callers j)
            (s.runners j) (others_keep inv.own s.buffer ch j o x (free j e)) (inv.cmds j)));
  owned = owned;
}

module _ (own : Owners) (buffer : ℕ → Option ℕ) (k ch : ℕ) (c : Caller) (r : Runner) where
  pub running_case :
      r ≡ running ch
      → Fine own buffer k c r
      → (own ch ≡ held k) × (buffer ch ≡ none) × ((c ≡ waiting ch) ⊎ (c ≡ over))
  running_case e (unborn a b) = absurd cc
  running_case e (both i a b o f) = let same : i ≡ ch = cc in (rw same at o, rw same at f, inl (cc))
  running_case e (ready i a b o f) = absurd cc
  running_case e (emptied i a b o f) = absurd cc
  running_case e (alone i a b o f) = let same : i ≡ ch = cc in (rw same at o, rw same at f, inr a)
  running_case e (gone a b) = absurd cc

  pub waiting_case :
      c ≡ waiting ch
      → Fine own buffer k c r
      → (own ch ≡ held k)
        × (((r ≡ running ch) × (buffer ch ≡ none)) ⊎ ((r ≡ sent) × (buffer ch ≡ some k)))
  waiting_case e (unborn a b) = absurd cc
  waiting_case e (both i a b o f) = let same : i ≡ ch = cc in (rw same at o, inl (cc, cc))
  waiting_case e (ready i a b o f) = let same : i ≡ ch = cc in (rw same at o, inr (b, cc))
  waiting_case e (emptied i a b o f) = absurd cc
  waiting_case e (alone i a b o f) = absurd cc
  waiting_case e (gone a b) = absurd cc

  pub drained_case :
      c ≡ drained ch → Fine own buffer k c r → (own ch ≡ held k) × (buffer ch ≡ none) × (r ≡ sent)
  drained_case e (unborn a b) = absurd cc
  drained_case e (both i a b o f) = absurd cc
  drained_case e (ready i a b o f) = absurd cc
  drained_case e (emptied i a b o f) = let same : i ≡ ch = cc in (rw same at o, rw same at f, b)
  drained_case e (alone i a b o f) = absurd cc
  drained_case e (gone a b) = absurd cc
