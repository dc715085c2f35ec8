-- ===== src/Hystrix/Spec/Begins.antt =====
-- A circuit that stands for an abstract service, and the admission of a command (hystrix/hystrix.go).
use hystrix_go.Base.{
  ℕ, suc, ◌^◌, ◌≤◌, ◌<◌, ◌≡◌, refl, Bool, true, false, some, if◌then◌else◌, ltb, length, by_cases,
  ap, ap₂, ◌∙◌,
}
use mathlib.Core.Path.{subst}
use hystrix_go.Circuit.{Ticks}
use hystrix_go.Circuit.Spec.{Breaker, answer}
use hystrix_go.Circuit.Spec.Asked.{IsRefined, ask-Answered}
use hystrix_go.Hystrix.{Admission, short_circuited, rejected, admitted, Circuit, do_c_begin}
use hystrix_go.Hystrix.Frame.{SameBut, Frames, allow_request-Frames}
use hystrix_go.Hystrix.Spec.{begins, Reply, verdict, Service, admit, take, act}
use hystrix_go.MetricCollector.{Env}
use hystrix_go.Pool.{ExecutorPool, acquire}
use hystrix_go.Pool.Tickets.{HasOut, acquire_lem}
use hystrix_go.Rolling.Log.{unix}
use hystrix_go.Settings.{Settings, SettingsMap}

module _ (env : Env) (m : SettingsMap) (s : Settings) where
  open env use {float}

  -- The circuit stands for the abstract service.
  pub record IsServing (last : ℕ) (c : Circuit env) (v : Service) : Type 0 where
    pub breaker : IsRefined env m s last c v.breaker
    pub tickets : HasOut v.running c.executor_pool
    pub max : c.executor_pool.max ≡ s.max_concurrent_requests

  abbrev pub with_pool : Circuit env → ExecutorPool → Circuit env
  with_pool c p = record c { executor_pool = p }

  pub with_pool-IsRefined :
      (last : ℕ) (c : Circuit env) (b : Breaker) (p : ExecutorPool)
      → IsRefined env m s last c b
      → IsRefined env m s last (with_pool c p) b
  with_pool-IsRefined last c b p r = record {
    collector = r.collector;
    circuit = record { named = r.circuit.named; first = r.circuit.first };
    counted = r.counted;
    opened_lem = r.opened_lem;
    tested_lem = r.tested_lem;
    early = r.early;
    known = r.known;
  }

  -- The same reply, and a circuit that stands for the service after it.
  abbrev Serves : ℕ → Reply × SettingsMap × Circuit env → Reply × Service → Type 0
  Serves last (reply, m', c) (reply', v) = (reply ≡ reply') × (m' ≡ m) × IsServing last c v

  -- The part of `DoC` between `AllowRequest` and the goroutine.
  abbrev taken : Bool → Circuit env → Reply × SettingsMap × Circuit env
  taken allowed c =
      if allowed
      then (let (got, pool) = acquire c.executor_pool in
          (verdict (if got then admitted else rejected), m, with_pool c pool))
      else (verdict short_circuited, m, c)

  abbrev begun : Bool → Circuit env → Admission × SettingsMap × Circuit env
  begun allowed c =
      if allowed
      then (let (got, pool) = acquire c.executor_pool in
          (if got then admitted else rejected, m, with_pool c pool))
      else (short_circuited, m, c)

  taken-begun :
      (allowed : Bool) (c : Circuit env)
      → some (verdict (begun allowed c).0, (begun allowed c).1, (begun allowed c).2)
        ≡ some (taken allowed c)
  taken-begun true c = refl
  taken-begun false c = refl

  taken-name : (allowed : Bool) (c : Circuit env) → (taken allowed c).2.name ≡ c.name
  taken-name true c = refl
  taken-name false c = refl

  taken-Serves :
      (last n : ℕ) (allowed : Bool) (c : Circuit env) (b : Breaker)
      → IsRefined env m s last c b
      → HasOut n c.executor_pool
      → c.executor_pool.max ≡ s.max_concurrent_requests
      → Serves last (taken allowed c) (take float s allowed b n)
  taken-Serves last n false c b r held max =
      (refl, refl, record { breaker = r; tickets = held; max = max })
  taken-Serves last n true c b r held max =
      let (got, kept, left) = acquire_lem held in
      let (_, p) = acquire c.executor_pool in
      let after = with_pool-IsRefined last c b p r in
      let e = got ∙ ap (ltb n) max in
      let left' = subst (λ x. HasOut (if ltb n x then suc n else n) p) max left in
      by_cases (ltb n s.max_concurrent_requests)
        (λ h.
          rw (e, h)
            (refl, refl, record { breaker = after; tickets = rw h at left'; max = kept ∙ max }))
        (λ h.
          rw (e, h)
            (refl, refl, record { breaker = after; tickets = rw h at left'; max = kept ∙ max }))

  module _ (short : s.sleep_window < 2 ^ 62) where
    pub begins-serve :
        (timing : Bool) (last : ℕ) (at : Ticks) (c : Circuit env) (v : Service)
        → IsServing last c v
        → last ≤ unix at.checked
        → at.opened < 2 ^ 62
        → at.tested < 2 ^ 62
        → length v.breaker.reports < 2 ^ 63
        → (c' : Circuit env) × (act env timing (begins at) m c
            ≡ some ((admit float s at v).0, m, c'))
          × IsServing last c' (admit float s at v).1
          × (c'.name ≡ c.name)
    unfolding do_c_begin
    begins-serve timing last at c v r le early early' few =
        let (allowed, b) = answer float s at v.breaker in
        let (c', e, r') =
          ask-Answered env m s short last at c v.breaker r.breaker le early early' few in
        let same : SameBut env c c' =
          subst (Frames env c) e (allow_request-Frames env at m _ c r.breaker.circuit) in
        let (said, settled, serving) =
          taken-Serves last v.running allowed c' b r' (rw same.pool (r.tickets))
            (rw same.pool (r.max)) in
        (
          (taken allowed c').2,
          rw e (
              taken-begun allowed c' ∙ ap₂ (λ x y. some (x, y, (taken allowed c').2)) said settled),
          serving,
          taken-name allowed c' ∙ same.name,
        )
