-- ===== src/Circuit/Shared/Lookups.antt =====
-- Who gets which circuit.
use Prim.Native.String.{String}
use text.Mathlib.Text.{◌==◌ as str_eq}
use text.Mathlib.TextEquality.{eq_iff}
use hystrix_go.Base.{
  ℕ, zero, suc, ◌^◌, ◌<◌, ◌≡◌, refl, Bool, true, false, Option, none, some, List, [], ◌∷◌, ◌++◌,
  length, get_elem?, if◌then◌else◌, Option-cases, by_cases, inl, inr, ap, ◌∙◌, sym,
}
use mathlib.Core.Path.{subst}
use mathlib.Core.List.{append-nil}
use hystrix_go.Base.Dict.{lookup, insert, lookup-insert}
use hystrix_go.Circuit.{CircuitBreaker}
use hystrix_go.Circuit.Create.{register_all, new_circuit_breaker_lem}
use hystrix_go.Circuit.Shared.{Table, Circuits, get_circuit}
use hystrix_go.MetricCollector.{Env, MetricCollector, initial_registry}
use hystrix_go.Settings.{SettingsMap}
use hystrix_go.Settings.Lookup.{found}

pub get_elem?-kept :
    {A : Type 0} (xs ys : List A) (i : ℕ) (x : A)
    → get_elem? xs i ≡ some x
    → get_elem? (xs ++ ys) i ≡ some x
get_elem?-kept [] ys i x h = cc
get_elem?-kept (a ∷ xs) ys zero x h = h
get_elem?-kept (a ∷ xs) ys (suc i) x h = get_elem?-kept xs ys i x h

pub get_elem?-last :
    {A : Type 0} (xs : List A) (x : A) → get_elem? (xs ++ x ∷ []) (length xs) ≡ some x
get_elem?-last [] x = refl
get_elem?-last (a ∷ xs) x = get_elem?-last xs x

abbrev Keeps : Option ℕ → Option ℕ → Type 0
Keeps none now = Unit
Keeps (some cb) now = now ≡ some cb

-- What the older table has, the newer one has too.
abbrev pub Grown : Table → Table → Type 0
Grown older newer = (n : String) → Keeps (lookup n older) (lookup n newer)

abbrev pub is_new : Option ℕ → Bool
is_new none = true
is_new (some _) = false

module _ (env : Env) where
  -- The circuit at a place goes by the name.
  pub record Stands (made : List (CircuitBreaker env)) (n : String) (cb : ℕ) : Type 0 where
    pub circuit : CircuitBreaker env
    pub there : get_elem? made cb ≡ some circuit
    pub named : circuit.name ≡ n

  abbrev pub Leads : List (CircuitBreaker env) → String → Option ℕ → Type 0
  Leads made n none = Unit
  Leads made n (some cb) = Stands made n cb

  -- Every name in the table leads to a circuit of that name.
  abbrev pub IsTable : Circuits env → Type 0
  IsTable s = (n : String) → Leads s.made n (lookup n s.table)

  -- What a call of `GetCircuit` for the name does to the circuits `s`.
  pub record Got (name : String) (s : Circuits env)
      (r : Option ((ℕ × Bool) × SettingsMap × Circuits env)) : Type 0 where
    pub cb : ℕ
    pub settings : SettingsMap
    pub after : Circuits env
    pub returns : r ≡ some ((cb, is_new (lookup name s.table)), settings, after)
    pub sound : IsTable after
    pub tabled :
        (other : String)
        → lookup other after.table ≡ (if str_eq name other then some cb else lookup other s.table)
    pub extra : List (CircuitBreaker env)
    pub kept : after.made ≡ s.made ++ extra

  Leads-append :
      (made extra : List (CircuitBreaker env)) (n : String) (p : Option ℕ)
      → Leads made n p
      → Leads (made ++ extra) n p
  Leads-append made extra n none old = tt
  Leads-append made extra n (some cb) old = record {
    circuit = old.circuit;
    there = get_elem?-kept made extra cb old.circuit old.there;
    named = old.named;
  }

  add_circuit :
      (name : String) (c : CircuitBreaker env) (s : Circuits env)
      → IsTable s
      → c.name ≡ name
      → IsTable (record { made = s.made ++ c ∷ []; table = insert name (length s.made) s.table })
  add_circuit name c s sound named n = rw (lookup-insert name n (length s.made) s.table) (
      by_cases (str_eq name n)
        (λ same. rw same (record {
          circuit = c;
          there = get_elem?-last s.made c;
          named = named ∙ (eq_iff name n).0 same;
        }))
        (λ other. rw other (Leads-append s.made (c ∷ []) n (lookup n s.table) (sound n))))

  -- What the first load found is what the table has.
  still_there :
      (loaded now : Table) (n : String) (p : ℕ)
      → Grown loaded now
      → lookup n loaded ≡ some p
      → lookup n now ≡ some p
  still_there loaded now n p older h = subst (λ x. Keeps x (lookup n now)) h (older n)

  -- A name that is there already.
  again :
      (name other : String) (t : Table) (cb : ℕ)
      → lookup name t ≡ some cb
      → lookup other t ≡ (if str_eq name other then some cb else lookup other t)
  again name other t cb h =
      by_cases (str_eq name other)
        (λ same. rw same (ap (λ n. lookup n t) (sym ((eq_iff name other).0 same)) ∙ h))
        (λ other. rw other refl)

  -- `GetCircuit` does not panic, for settings with a number of tickets of zero or more, a map
  -- that leads each name to a circuit of that name, and a first load of the map to which names
  -- were at most added until the mutex is held, so that no `Flush` comes between. It returns the
  -- circuit that the map has for the name, and makes one exactly if the map has none when the
  -- mutex is held. Then the name leads to the circuit that it returns, all other names to the
  -- circuits of before, and each name to a circuit of that name. No circuit is changed.
  pub get_circuit_lem :
      (is : List (String → MetricCollector env)) (name : String) (loaded : Table) (m : SettingsMap)
      (s : Circuits env)
      → IsTable s
      → Grown loaded s.table
      → (found name (lookup name m) m).0.max_concurrent_requests < 2 ^ 63
      → Got name s (get_circuit env name (register_all env is (initial_registry env)) loaded m s)
  unfolding get_circuit
  get_circuit_lem is name loaded m s sound older small = elim (Option-cases (lookup name s.table)) [
    | inr (cb, present) ↦ record {
      cb = cb;
      settings = m;
      after = s;
      returns = elim (Option-cases (lookup name loaded)) [
        | inl unseen ↦ rw (get_circuit, unseen, present)
        | inr (p, seen) ↦
            let same : p ≡ cb = let now = still_there loaded s.table name p older seen in cc in
            rw (get_circuit, seen, present, same)
      ];
      sound = sound;
      tabled = λ other. again name other s.table cb present;
      extra = [];
      kept = sym (append-nil s.made);
    }
    | inl absent ↦
        let (c, e, well, tickets, max, closed, untested, named) =
          new_circuit_breaker_lem env is name m small in
        record {
          cb = length s.made;
          settings = (found name (lookup name m) m).1;
          after = record { made = s.made ++ c ∷ []; table = insert name (length s.made) s.table };
          returns = elim (Option-cases (lookup name loaded)) [
            | inl unseen ↦ rw (get_circuit, unseen, absent, e)
            | inr (p, seen) ↦ absurd (let now = still_there loaded s.table name p older seen in cc)
          ];
          sound = add_circuit name c s sound named;
          tabled = λ other. lookup-insert name other (length s.made) s.table;
          extra = c ∷ [];
          kept = refl;
        }
  ]
