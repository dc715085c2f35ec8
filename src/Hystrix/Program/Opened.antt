-- ===== src/Hystrix/Program/Opened.antt =====
-- `GetCircuit` (hystrix/circuit.go) at the beginning of a command.
use Prim.Native.String.{String}
use hystrix_go.Base.{
  ℕ, ◌^◌, ◌<◌, ◌≡◌, refl, Bool, true, false, Option, none, some, List, [], ◌∷◌, ◌++◌, length, ap,
  ◌∙◌,
}
use hystrix_go.Base.Dict.{lookup, insert}
use hystrix_go.Circuit.Create.{register_all, new_circuit_breaker_lem}
use hystrix_go.Circuit.{Ticks, new_circuit_breaker}
use hystrix_go.Circuit.Shared.{get_circuit}
use hystrix_go.Hystrix.{Circuit}
use hystrix_go.Hystrix.Spec.{Act, begins, turned_down, ends, Service}
use hystrix_go.Hystrix.Program.{Services, first_use, open_service, open_circuit}
use hystrix_go.MetricCollector.{MetricCollector, Env, initial_registry}
use hystrix_go.Metrics.{◌>>=◌}
use hystrix_go.Settings.{Settings, SettingsMap}
use hystrix_go.Settings.Lookup.{found, found-settings}
use hystrix_go.Hystrix.Program.Served.{World, settings_of_name, Inv}
use hystrix_go.Hystrix.Program.Added.{IsOpened, added-IsOpened}

module _ (env : Env) (timing : Bool) (is : List (String → MetricCollector env))
    (initial : SettingsMap) where
  open env use {float}

  abbrev pub Opens :
      (String → ℕ) → ℕ → String → Services → Option (ℕ × World env timing is initial) → Type 0
  Opens last left n vs none = lookup n vs ≡ none
  Opens last left n vs (some (cb, w)) = IsOpened env timing is initial last left n vs cb w

  module _ (last : String → ℕ) (left : ℕ) (w : World env timing is initial) (vs : Services)
      (inv : Inv env timing is initial last left w vs) (n : String) where
    there_lem :
        (found_v : Option Service) (found_cb : Option ℕ)
        → lookup n vs ≡ found_v
        → lookup n w.circuits.table ≡ found_cb
        → Opens last left n vs (found_cb >>= λ cb. some (cb, w))
    there_lem none none ev ecb = ev
    there_lem (some v) (some cb) ev ecb = record {
      inv = inv;
      service = v;
      known = ev;
      tabled = ecb;
    }
    there_lem none (some cb) ev ecb = absurd (rw (ev, ecb) at (inv n))
    there_lem (some v) none ev ecb = absurd (rw (ev, ecb) at (inv n))

    get_circuit-new :
        (c : Circuit env) (m : SettingsMap)
        → lookup n w.circuits.table ≡ none
        → new_circuit_breaker env n (register_all env is (initial_registry env)) w.settings
          ≡ some (c, m)
        → get_circuit env n
            (register_all env is (initial_registry env))
            w.circuits.table
            w.settings
            w.circuits
          ≡ some (
            (length w.circuits.made, true),
            m,
            record {
              made = w.circuits.made ++ c ∷ [];
              table = insert n (length w.circuits.made) w.circuits.table;
            },
          )
    unfolding get_circuit
    get_circuit-new c m e made = rw (get_circuit, e, e, made)

    get_circuit-there :
        (cb : ℕ)
        → lookup n w.circuits.table ≡ some cb
        → get_circuit env n
            (register_all env is (initial_registry env))
            w.circuits.table
            w.settings
            w.circuits
          ≡ some ((cb, false), w.settings, w.circuits)
    unfolding get_circuit
    get_circuit-there cb e = rw (get_circuit, e)

    module _ (small : (settings_of_name env timing is initial n).max_concurrent_requests < 2 ^ 63)
        (few : left < 2 ^ 63) where
      begins_lem :
          (at : Ticks) (found_v : Option Service) (found_cb : Option ℕ)
          → lookup n vs ≡ found_v
          → lookup n w.circuits.table ≡ found_cb
          → Opens last left n (first_use n found_v vs) (open_circuit env timing is n (begins at) w)
      begins_lem at none (some cb) ev ecb = absurd (rw (ev, ecb) at (inv n))
      begins_lem at (some v) none ev ecb = absurd (rw (ev, ecb) at (inv n))
      begins_lem at (some v) (some cb) ev ecb =
          rw (get_circuit-there cb ecb)
            (record { inv = inv; service = v; known = ev; tabled = ecb })
      begins_lem at none none ev ecb =
          let fresh : lookup n w.settings ≡ lookup n initial = rw (ev, ecb) at (inv n) in
          let same : (found n (lookup n w.settings) w.settings).0
              ≡ settings_of_name env timing is initial n =
            ap (λ o. (found n o w.settings).0) fresh
            ∙ found-settings n (lookup n initial) w.settings initial in
          let (c, made, circuit, tickets, max, closed, untested, named) =
            new_circuit_breaker_lem env is n w.settings (rw same small) in
          rw (get_circuit-new c _ ecb made) (
            added-IsOpened env timing is initial last left w vs inv n small few c circuit tickets
              (max ∙ ap (λ (s : Settings). s.max_concurrent_requests) same) closed untested named
              fresh)

      pub open_lem :
          (a : Act) → Opens last left n (open_service n a vs) (open_circuit env timing is n a w)
      open_lem (begins at) = begins_lem at (lookup n vs) (lookup n w.circuits.table) refl refl
      open_lem (turned_down t k err) = there_lem (lookup n vs) (lookup n w.circuits.table) refl refl
      open_lem (ends t k done) = there_lem (lookup n vs) (lookup n w.circuits.table) refl refl
