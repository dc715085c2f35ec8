-- ===== src/Circuit/Spec/Heard.antt =====
-- What a report does to a circuit that stands for an abstract breaker.
use text.Mathlib.Text.{◌==◌ as str_eq}
use text.Mathlib.TextEquality.{eq_iff}
use mathlib.Core.Path.{subst}
use hystrix_go.Base.{
  ℕ, ◌≤◌, ◌≡◌, ◌≢◌, refl, Bool, true, false, not, ◌&&◌, [], if◌then◌else◌, arith, by_cases, ap, sym,
  ◌∙◌,
}
use hystrix_go.Circuit.{CircuitBreaker}
use hystrix_go.Circuit.Report.{
  reported, report_event-empty, report_event-name, report_event_lem, execution,
}
use hystrix_go.Circuit.Spec.{Event, Breaker, hear, record_event}
use hystrix_go.Circuit.Spec.Window.{IsCounted, reset-IsCounted, update-IsCounted}
use hystrix_go.Circuit.Trial.{tested}
use hystrix_go.MetricCollector.{update_default, reset_default, Env}
use hystrix_go.Metrics.{CommandExecution, build_result}
use hystrix_go.Rolling.Log.{unix}
use hystrix_go.Settings.{Settings, SettingsMap}
use hystrix_go.Circuit.Spec.Asked.{IsRefined, IsRefined-later}

module _ (env : Env) where
  open env use {float}

  module _ (timing : Bool) (m : SettingsMap) (s : Settings) (last : ℕ) (e : Event)
      (c : CircuitBreaker env) (b : Breaker) (r : IsRefined env m s last c b)
      (le : last ≤ unix e.at.now) where
    abbrev pub heard : CircuitBreaker env
    heard = (reported env timing e.built e.at e.primary e.secondary e.start e.run_duration c).1

    abbrev run : CommandExecution float.F
    run = execution env timing e.built e.at e.primary e.secondary e.start e.run_duration c

    recorded-IsCounted :
        (k : Bool)
        → IsCounted (unix e.at.now) (record_event e k b).reports (
            update_default timing e.at
              (build_result e.built run)
              (if k then reset_default r.collector else r.collector))
    recorded-IsCounted true =
        update-IsCounted timing e.built e.at run last [] (reset_default r.collector)
          (reset-IsCounted last r.collector) le
    recorded-IsCounted false =
        update-IsCounted timing e.built e.at run last b.reports r.collector r.counted le

    recorded-tested : (k : Bool) → (record_event e k b).tested ≡ b.tested
    recorded-tested true = refl
    recorded-tested false = refl

    recorded-opened :
        (c.opened && not (str_eq e.primary "success"))
        ≡ (record_event e (str_eq e.primary "success" && c.opened) b).opened
    recorded-opened = ground (arith, r.opened_lem)

    recorded-IsRefined :
        e.primary ≢ ""
        → IsRefined env m s
            (unix e.at.now)
            heard
            (record_event e (str_eq e.primary "success" && c.opened) b)
    recorded-IsRefined ne =
        let k = str_eq e.primary "success" && c.opened in
        let (_, opened, tested, _, circuit) =
          report_event_lem env timing e.built e.at e.primary e.secondary e.start e.run_duration c
            r.collector r.circuit ne in
        record {
          collector = _;
          circuit = circuit;
          counted = recorded-IsCounted k;
          opened_lem = opened ∙ recorded-opened;
          tested_lem = tested ∙ r.tested_lem ∙ sym (recorded-tested k);
          early = rw (recorded-tested k) (r.early);
          known =
              rw
                (report_event-name env timing e.built e.at e.primary e.secondary e.start
                  e.run_duration c)
                (r.known);
        }

    pub hear-IsRefined : IsRefined env m s (unix e.at.now) heard (hear e b)
    hear-IsRefined =
        by_cases (str_eq e.primary "")
          (λ h.
            let same =
              report_event-empty env timing e.built e.at e.primary e.secondary e.start
                e.run_duration c ((eq_iff e.primary "").0 h) in
            rw h (
              subst (λ x. IsRefined env m s (unix e.at.now) x b) (sym (ap (λ x. x.1) same))
                (IsRefined-later env m s last (unix e.at.now) c b r le)))
          (λ h. rw h (
            subst
              (λ o.
                IsRefined env m s (unix e.at.now) heard
                  (record_event e (str_eq e.primary "success" && o) b))
              (r.opened_lem) (recorded-IsRefined (λ q. let t = (eq_iff e.primary "").1 q in cc))))
