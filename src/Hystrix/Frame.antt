-- ===== src/Hystrix/Frame.antt =====
-- What the admission of a command leaves alone.
use hystrix_go.Base.{
  ℕ, suc, ◌<◌, ◌≡◌, refl, Bool, true, false, Option, none, some, ltb, if◌then◌else◌, ap, ◌∙◌, arith,
  by_cases,
}
use hystrix_go.Circuit.{Ticks, CircuitBreaker, allow_request}
use hystrix_go.Circuit.Open.{IsCircuit, settings_for, trips}
use hystrix_go.Circuit.Trial.{allow_request-opened, allow_request-closed}
use hystrix_go.Hystrix.{Admission, short_circuited, rejected, admitted, do_c_begin}
use hystrix_go.MetricCollector.{DefaultMetricCollector, Env}
use hystrix_go.Metrics.{◌>>=◌}
use hystrix_go.Pool.{ExecutorPool, acquire}
use hystrix_go.Pool.Tickets.{HasOut, acquire_lem}
use hystrix_go.Settings.{SettingsMap}

module _ (env : Env) where
  -- Only the state of the breaker differs.
  pub record SameBut (c c' : CircuitBreaker env) : Type 0 where
    pub name : c'.name ≡ c.name
    pub metrics : c'.metrics ≡ c.metrics
    pub pool : c'.executor_pool ≡ c.executor_pool

  -- There is a result, and its circuit has the name, the metrics and the tickets of `c`.
  abbrev pub Frames : CircuitBreaker env → Option (Bool × SettingsMap × CircuitBreaker env) → Type 0
  Frames c none = ⊥
  Frames c (some r) = SameBut c r.2

  Frames-if :
      (c : CircuitBreaker env) (b : Bool) (x y : Bool × SettingsMap × CircuitBreaker env)
      → SameBut c x.2
      → SameBut c y.2
      → Frames c (some (if b then x else y))
  Frames-if c true x y hx hy = hx
  Frames-if c false x y hx hy = hy

  pub allow_request-Frames :
      (at : Ticks) (m : SettingsMap) (d : DefaultMetricCollector) (c : CircuitBreaker env)
      → IsCircuit env d c
      → Frames c (allow_request env at m c)
  allow_request-Frames at m d c wf =
      by_cases c.opened
        (λ h. rw (allow_request-opened env at m c h) (
          Frames-if c _ _ _ (record { name = refl; metrics = refl; pool = refl })
            (record { name = refl; metrics = refl; pool = refl })))
        (λ h. rw (allow_request-closed env at m d c wf h) (
          by_cases (trips env at.checked (settings_for env c m).0 d)
            (λ e. rw e (
              Frames-if c _ _ _ (record { name = refl; metrics = refl; pool = refl })
                (record { name = refl; metrics = refl; pool = refl })))
            (λ e. rw e (record { name = refl; metrics = refl; pool = refl }))))

  -- The tickets that are out after an admission.
  abbrev pub out_after : Admission → ℕ → ℕ
  out_after admitted out = suc out
  out_after short_circuited out = out
  out_after rejected out = out

  -- What the verdict says about the tickets.
  abbrev pub Explains : Admission → ℕ → ℕ → Type 0
  Explains admitted out max = out < max
  Explains rejected out max = out ≡ max
  Explains short_circuited out max = Unit

  pub record Begun (d : DefaultMetricCollector) (out : ℕ) (c : CircuitBreaker env) (a : Admission)
      (c' : CircuitBreaker env) : Type 0 where
    pub well : IsCircuit env d c'
    pub name : c'.name ≡ c.name
    pub metrics : c'.metrics ≡ c.metrics
    pub max : c'.executor_pool.max ≡ c.executor_pool.max
    pub tickets : HasOut (out_after a out) c'.executor_pool
    pub reason : Explains a out c.executor_pool.max

  abbrev pub Begins :
      DefaultMetricCollector
      → ℕ
      → CircuitBreaker env
      → Option (Admission × SettingsMap × CircuitBreaker env)
      → Type 0
  Begins d out c none = ⊥
  Begins d out c (some r) = Begun d out c r.0 r.2

  -- The part of `DoC` between `AllowRequest` and the goroutine.
  abbrev admit :
      Bool → SettingsMap → CircuitBreaker env → Admission × SettingsMap × CircuitBreaker env
  admit allowed m c =
      if allowed
      then (let (got, pool) = acquire c.executor_pool in
          (if got then admitted else rejected, m, record c { executor_pool = pool }))
      else (short_circuited, m, c)

  SameBut-IsCircuit :
      (d : DefaultMetricCollector) (c c' : CircuitBreaker env)
      → SameBut c c'
      → IsCircuit env d c
      → IsCircuit env d c'
  SameBut-IsCircuit d c c' same wf = record {
    named = rw (same.metrics, same.name) wf.named;
    first = rw same.metrics wf.first;
  }

  module _ (d : DefaultMetricCollector) (out : ℕ) (c : CircuitBreaker env) (wf : IsCircuit env d c)
      (tickets : HasOut out c.executor_pool) where
    admit-Begun :
        (allowed : Bool) (m : SettingsMap) (c' : CircuitBreaker env)
        → SameBut c c'
        → let r = admit allowed m c' in Begun d out c r.0 r.2
    admit-Begun false m c' same = record {
      well = SameBut-IsCircuit d c c' same wf;
      name = same.name;
      metrics = same.metrics;
      max = ap (λ (p : ExecutorPool). p.max) same.pool;
      tickets = rw same.pool tickets;
      reason = tt;
    }
    admit-Begun true m c' same =
        by_cases (ltb out c'.executor_pool.max)
          (λ e. rw (got ∙ e) (record {
            well = record { named = well.named; first = well.first };
            name = same.name;
            metrics = same.metrics;
            max = (acquire_lem held).1 ∙ max;
            tickets = rw e at left;
            reason = ground (arith, max);
          }))
          (λ e. rw (got ∙ e) (record {
            well = record { named = well.named; first = well.first };
            name = same.name;
            metrics = same.metrics;
            max = (acquire_lem held).1 ∙ max;
            tickets = rw e at left;
            reason = ground (arith, max, tickets.balance);
          }))
      where
        well : IsCircuit env d c'
        well = SameBut-IsCircuit d c c' same wf

        max : c'.executor_pool.max ≡ c.executor_pool.max
        max = ap (λ (p : ExecutorPool). p.max) same.pool

        held : HasOut out c'.executor_pool
        held = rw same.pool tickets

        got : (acquire c'.executor_pool).0 ≡ ltb out c'.executor_pool.max
        got = (acquire_lem held).0

        left :
            HasOut
              (if ltb out c'.executor_pool.max then suc out else out)
              (acquire c'.executor_pool).1
        left = (acquire_lem held).2

    begin-Begins :
        (r : Option (Bool × SettingsMap × CircuitBreaker env))
        → Frames c r
        → Begins d out c (r >>= λ r. some (admit r.0 r.1 r.2))
    begin-Begins none h = h
    begin-Begins (some (allowed, m, c')) h = admit-Begun allowed m c' h

    -- `DoC` gets to a verdict without a panic. It takes a ticket exactly if it runs the command,
    -- which it does only if fewer than `Max` tickets are out; it turns a command down for want of
    -- a ticket only if all are out. The metrics are left alone.
    pub do_c_begin-Begins : (at : Ticks) (m : SettingsMap) → Begins d out c (do_c_begin env at m c)
    unfolding do_c_begin
    do_c_begin-Begins at m =
        begin-Begins (allow_request env at m c) (allow_request-Frames at m d c wf)
