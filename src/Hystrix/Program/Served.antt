-- ===== src/Hystrix/Program/Served.antt =====
-- The memory of hystrix/circuit.go and hystrix/settings.go, and the services that it stands for.
use Prim.Native.String.{String}
use text.Mathlib.Text.{◌==◌ as str_eq}
use text.Mathlib.TextEquality.{eq_iff}
use mathlib.Core.Path.{subst}
use hystrix_go.Base.{
  ℕ, suc, ◌+◌, ◌^◌, ◌≤◌, ◌<◌, ◌≡◌, refl, Bool, false, Option, none, some, List, ◌==◌, if◌then◌else◌,
  length, get_elem?, arith, by_cases, ◌∙◌,
}
use hystrix_go.Base.Dict.{lookup, insert, lookup-insert}
use hystrix_go.Circuit.Shared.{change_at}
use hystrix_go.Circuit.Shared.Flushed.{get_elem?-change_at_self, get_elem?-change_at_other}
use hystrix_go.Hystrix.{Circuit}
use hystrix_go.Hystrix.Spec.{Act, Reply, Service, serve, act}
use hystrix_go.Hystrix.Spec.Acts.{Comes, reported_at, Acts, act-serve}
use hystrix_go.Hystrix.Spec.Begins.{IsServing}
use hystrix_go.Hystrix.Program.{Services, settings_at, serve_open, Memory, act_at}
use hystrix_go.MetricCollector.{MetricCollector, Env}
use hystrix_go.Metrics.{◌>>=◌}
use hystrix_go.Settings.{Settings, SettingsMap}

module _ (env : Env) (timing : Bool) (is : List (String → MetricCollector env))
    (initial : SettingsMap) where
  open env use {float}

  abbrev pub World : Type 0
  World = Memory env timing is

  abbrev pub settings_of_name : String → Settings
  settings_of_name = settings_at float initial

  -- The circuit of a name in memory, which stands for the service of the name.
  pub record Live (last left : ℕ) (m : SettingsMap) (made : List (Circuit env)) (n : String)
      (v : Service) (cb : ℕ) : Type 0 where
    pub circuit : Circuit env
    pub there : get_elem? made cb ≡ some circuit
    pub named : circuit.name ≡ n
    pub serving : IsServing env m (settings_of_name n) last circuit v
    pub few : length v.breaker.reports + left < 2 ^ 63

  -- A name has a circuit exactly if it has a service; otherwise its settings are the initial ones.
  abbrev pub Entry :
      ℕ → ℕ → SettingsMap → List (Circuit env) → String → Option Service → Option ℕ → Type 0
  Entry last left m made n none none = lookup n m ≡ lookup n initial
  Entry last left m made n none (some cb) = ⊥
  Entry last left m made n (some v) none = ⊥
  Entry last left m made n (some v) (some cb) = Live last left m made n v cb

  abbrev pub Inv : (String → ℕ) → ℕ → World → Services → Type 0
  Inv last left w vs =
      (n : String)
      → Entry (last n) left w.settings w.circuits.made n (lookup n vs) (lookup n w.circuits.table)

  pub IsServing-settings :
      (m m' : SettingsMap) (s : Settings) (last : ℕ) (c : Circuit env) (v : Service)
      → IsServing env m s last c v
      → lookup c.name m' ≡ some s
      → IsServing env m' s last c v
  IsServing-settings m m' s last c v r known = record {
    breaker = record {
      collector = r.breaker.collector;
      circuit = r.breaker.circuit;
      counted = r.breaker.counted;
      opened_lem = r.breaker.opened_lem;
      tested_lem = r.breaker.tested_lem;
      early = r.breaker.early;
      known = known;
    };
    tickets = r.tickets;
    max = r.max;
  }

  -- Two names do not share a circuit.
  apart :
      (last last' left left' : ℕ) (m m' : SettingsMap) (made : List (Circuit env)) (n n' : String)
      (v v' : Service) (cb cb' : ℕ)
      → Live last left m made n v cb
      → Live last' left' m' made n' v' cb'
      → str_eq n n' ≡ false
      → (cb == cb') ≡ false
  apart last last' left left' m m' made n n' v v' cb cb' l l' ne =
      by_cases (cb == cb')
        (λ e.
          let same : cb ≡ cb' = ground (arith, e) in
          let there : get_elem? made cb ≡ some l'.circuit = rw same (l'.there) in
          let equal : n ≡ n' = let a = l.there in let b = l.named in let c = l'.named in cc in
          let contra = (eq_iff n n').1 equal in absurd (cc (contra)))
        (λ e. e)

  -- Another circuit changes.
  changed_other :
      (last left left' : ℕ) (m : SettingsMap) (made : List (Circuit env)) (n : String) (v : Service)
      (cb p : ℕ) (c : Circuit env)
      → Live last left m made n v cb
      → left' ≤ left
      → (p == cb) ≡ false
      → Live last left' m (change_at (λ _. c) p made) n v cb
  changed_other last left left' m made n v cb p c l le ne = record {
    circuit = l.circuit;
    there = get_elem?-change_at_other (λ _. c) p cb made ne ∙ l.there;
    named = l.named;
    serving = l.serving;
    few = let h = l.few in omega arith;
  }

  abbrev pub moved : String → ℕ → (String → ℕ) → String → ℕ
  moved n t last n' = if str_eq n n' then t else last n'

  -- The same reply, and a memory that stands for the services after it; or both come to nothing.
  abbrev pub Acted : (String → ℕ) → ℕ → Option (Reply × Services) → Option (Reply × World) → Type 0
  Acted last left none y = y ≡ none
  Acted last left (some (reply, vs)) y = (w : World) × (y ≡ some (reply, w)) × Inv last left w vs

  module _ (last : String → ℕ) (left : ℕ) (w : World) (vs : Services)
      (inv : Inv last (suc left) w vs) (n : String) (v : Service) (cb : ℕ)
      (live : Live (last n) (suc left) w.settings w.circuits.made n v cb)
      (tabled : lookup n w.circuits.table ≡ some cb)
      (short : (settings_of_name n).sleep_window < 2 ^ 62) where
    abbrev written : Circuit env → World
    written c = record w {
      circuits = record w.circuits { made = change_at (λ _. c) cb w.circuits.made };
    }

    Entry-other :
        (c : Circuit env) (n' : String) (found_v : Option Service) (found_cb : Option ℕ)
        → str_eq n n' ≡ false
        → Entry (last n') (suc left) w.settings w.circuits.made n' found_v found_cb
        → Entry
            (last n')
            left
            w.settings
            (change_at (λ _. c) cb w.circuits.made)
            n'
            found_v
            found_cb
    Entry-other c n' none none ne e = e
    Entry-other c n' none (some _) ne e = e
    Entry-other c n' (some _) none ne e = e
    Entry-other c n' (some v') (some cb') ne e =
        changed_other (last n') (suc left) left w.settings w.circuits.made n' v' cb' cb c e
          (omega arith)
          (apart (last n) (last n') (suc left) (suc left) w.settings w.settings w.circuits.made n n'
            v v' cb cb' live e ne)

    written-Inv :
        (t : ℕ) (c : Circuit env) (v' : Service)
        → Live t left w.settings (change_at (λ _. c) cb w.circuits.made) n v' cb
        → Inv (moved n t last) left (written c) (insert n v' vs)
    written-Inv t c v' l n' =
        by_cases (str_eq n n')
          (λ h.
            subst
              (λ x.
                Entry (moved n t last x) left w.settings (change_at (λ _. c) cb w.circuits.made) x
                  (lookup x (insert n v' vs)) (lookup x w.circuits.table))
              ((eq_iff n n').0 h) (rw (lookup-insert n n v' vs, (eq_iff n n).1 refl, tabled) l))
          (λ h.
            rw (lookup-insert n n' v' vs, h)
              (Entry-other c n' (lookup n' vs) (lookup n' w.circuits.table) h (inv n')))

    by_act :
        (a : Act) (t : ℕ) (x : Option (Reply × Service))
        (y : Option (Reply × SettingsMap × Circuit env))
        → Acts env timing w.settings
            (settings_of_name n)
            short
            t
            (length v.breaker.reports)
            live.circuit
            x
            y
        → Acted (moved n t last) left (x >>= λ r. some (r.0, insert n r.1 vs)) (
            y >>= λ r. some (
              r.0,
              record {
                settings = r.1;
                circuits = record w.circuits { made = change_at (λ _. r.2) cb w.circuits.made };
              },
            ))
    by_act a t none y h = rw h refl
    by_act a t (some (reply, v')) y (c', e, r, named, le) = (
      written c',
      rw e refl,
      written-Inv t c' v' (record {
        circuit = c';
        there = get_elem?-change_at_self (λ _. c') cb w.circuits.made live.circuit live.there;
        named = named ∙ live.named;
        serving = r;
        few = let h = live.few in omega arith;
      }),
    )

    -- A part on the circuit of its name.
    pub act_at-Acted :
        (a : Act)
        → lookup n vs ≡ some v
        → Comes (last n) a
        → Acted
            (moved n (reported_at (last n) a) last)
            left
            (serve_open float initial n a vs)
            (act_at env timing is cb a w)
    act_at-Acted a known comes =
        rw (known, live.there)
          (by_act a (reported_at (last n) a) (serve float (settings_of_name n) a v)
            (act env timing a w.settings live.circuit)
            (act-serve env timing w.settings (settings_of_name n) short a (last n) live.circuit v
              live.serving comes (let h = live.few in omega arith)))
