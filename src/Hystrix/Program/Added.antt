-- ===== src/Hystrix/Program/Added.antt =====
-- The first command of a name: the circuit that `GetCircuit` (hystrix/circuit.go) adds for it.
use Prim.Native.String.{String}
use text.Mathlib.Text.{◌==◌ as str_eq}
use text.Mathlib.TextEquality.{eq_iff}
use mathlib.Core.Path.{subst}
use hystrix_go.Base.{
  ℕ, ◌^◌, ◌<◌, ◌≡◌, refl, Bool, false, Option, none, some, List, [], ◌∷◌, ◌++◌, length, arith,
  by_cases, ap, ◌∙◌,
}
use hystrix_go.Base.Dict.{lookup, insert, lookup-insert}
use hystrix_go.Circuit.Create.{empty_default}
use hystrix_go.Circuit.Open.{IsCircuit}
use hystrix_go.Pool.Tickets.{HasOut}
use hystrix_go.Circuit.Shared.Lookups.{get_elem?-kept, get_elem?-last}
use hystrix_go.Circuit.Spec.Window.{reset-IsCounted}
use hystrix_go.Hystrix.{Circuit}
use hystrix_go.Hystrix.Spec.{Service, new_service}
use hystrix_go.Hystrix.Program.{Services}
use hystrix_go.MetricCollector.{MetricCollector, Env}
use hystrix_go.Settings.{SettingsMap}
use hystrix_go.Settings.Lookup.{found, lookup-found, lookup-found_other, found-settings}
use hystrix_go.Hystrix.Program.Served.{
  World, settings_of_name, Live, Entry, Inv, IsServing-settings,
}

module _ (env : Env) (timing : Bool) (is : List (String → MetricCollector env))
    (initial : SettingsMap) where
  open env use {float}

  -- The circuit of a name in a memory that stands for the services; or there is none on either side.
  pub record IsOpened (last : String → ℕ) (left : ℕ) (n : String) (vs : Services) (cb : ℕ)
      (w : World env timing is initial) : Type 0 where
    pub inv : Inv env timing is initial last left w vs
    pub service : Service
    pub known : lookup n vs ≡ some service
    pub tabled : lookup n w.circuits.table ≡ some cb

  module _ (last : String → ℕ) (left : ℕ) (w : World env timing is initial) (vs : Services)
      (inv : Inv env timing is initial last left w vs) (n : String) where
    -- The first command of a name.
    module _ (small : (settings_of_name env timing is initial n).max_concurrent_requests < 2 ^ 63)
        (few : left < 2 ^ 63) (c : Circuit env) (circuit : IsCircuit env (empty_default env) c)
        (tickets : HasOut 0 c.executor_pool)
        (max : c.executor_pool.max
          ≡ (settings_of_name env timing is initial n).max_concurrent_requests)
        (closed : c.opened ≡ false) (untested : c.opened_or_last_tested_time ≡ 0)
        (named : c.name ≡ n) (fresh : lookup n w.settings ≡ lookup n initial) where
      abbrev pub stored : SettingsMap
      stored = (found n (lookup n w.settings) w.settings).1

      abbrev pub added : World env timing is initial
      added = record {
        settings = stored;
        circuits = record {
          made = w.circuits.made ++ c ∷ [];
          table = insert n (length w.circuits.made) w.circuits.table;
        };
      }

      stored_lem : lookup n stored ≡ some (settings_of_name env timing is initial n)
      stored_lem =
          lookup-found n w.settings
          ∙ ap some (
              ap (λ o. (found n o w.settings).0) fresh
              ∙ found-settings n (lookup n initial) w.settings initial)

      new_Live :
          Live env timing is initial
            (last n)
            left
            stored
            (w.circuits.made ++ c ∷ [])
            n
            new_service
            (length w.circuits.made)
      new_Live = record {
        circuit = c;
        there = get_elem?-last w.circuits.made c;
        named = named;
        serving = record {
          breaker = record {
            collector = empty_default env;
            circuit = circuit;
            counted = reset-IsCounted (last n) _;
            opened_lem = closed;
            tested_lem = untested;
            early = omega arith;
            known = rw named stored_lem;
          };
          tickets = tickets;
          max = max;
        };
        few = omega arith;
      }

      Entry-kept :
          (n' : String) (found_v : Option Service) (found_cb : Option ℕ)
          → str_eq n n' ≡ false
          → Entry env timing is initial
              (last n')
              left
              w.settings
              w.circuits.made
              n'
              found_v
              found_cb
          → Entry env timing is initial
              (last n')
              left
              stored
              (w.circuits.made ++ c ∷ [])
              n'
              found_v
              found_cb
      Entry-kept n' none none ne e = lookup-found_other n n' w.settings ne ∙ e
      Entry-kept n' none (some _) ne e = e
      Entry-kept n' (some _) none ne e = e
      Entry-kept n' (some v) (some cb) ne e = record {
        circuit = e.circuit;
        there = get_elem?-kept w.circuits.made (c ∷ []) cb e.circuit e.there;
        named = e.named;
        serving =
            IsServing-settings env timing is initial w.settings stored
              (settings_of_name env timing is initial n') (last n') e.circuit v e.serving
              (rw (e.named) (
                lookup-found_other n n' w.settings ne ∙ (rw (e.named) at e.serving.breaker.known)));
        few = e.few;
      }

      added-Inv : Inv env timing is initial last left added (insert n new_service vs)
      added-Inv n' =
          by_cases (str_eq n n')
            (λ h.
              subst
                (λ x.
                  Entry env timing is initial (last x) left stored (w.circuits.made ++ c ∷ []) x
                    (lookup x (insert n new_service vs)) (lookup x added.circuits.table))
                ((eq_iff n n').0 h)
                (rw
                  (
                    lookup-insert n n new_service vs,
                    lookup-insert n n (length w.circuits.made) w.circuits.table,
                    (eq_iff n n).1 refl,
                  )
                  new_Live))
            (λ h.
              rw
                (
                  lookup-insert n n' new_service vs,
                  lookup-insert n n' (length w.circuits.made) w.circuits.table,
                  h,
                )
                (Entry-kept n' (lookup n' vs) (lookup n' w.circuits.table) h (inv n')))

      pub added-IsOpened :
          IsOpened last left n (insert n new_service vs) (length w.circuits.made) added
      added-IsOpened = record {
        inv = added-Inv;
        service = new_service;
        known = rw (lookup-insert n n new_service vs, (eq_iff n n).1 refl) refl;
        tabled =
            rw (lookup-insert n n (length w.circuits.made) w.circuits.table, (eq_iff n n).1 refl)
              refl;
      }
