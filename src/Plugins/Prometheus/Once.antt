-- ===== src/Plugins/Prometheus/Once.antt =====
-- What `NewCollector` registers, once and again.
use Prim.Native.String
use Prim.Native.String.{String}
use text.Mathlib.Text.{◌==◌ as str_eq}
use text.Mathlib.TextEquality.{eq_iff}
use hystrix_go.Base.{
  ℕ, zero, suc, ◌≡◌, refl, not, ◌&&◌, arith, Bool, true, false, ◌||◌, map, ◌∙◌, none, some, List,
  [], ◌∷◌, All,
}
use hystrix_go.Plugins.Prometheus.{
  Options, apply_options, build_options, with_histogram_buckets, Vec, counter_vec, gauge_vec,
  histogram_vec, Vectors, Registerer, new_counter_vec, new_gauge_vec, new_histogram_vec,
  new_collector,
}

abbrev pub mem : String → List String → Bool
mem n [] = false
mem n (m ∷ ms) = str_eq n m || mem n ms

-- The name under which a vector is known: `hystrix_attempts`.
abbrev pub full_name : {F : Type 0} → Vec F → String
full_name (counter_vec subsystem name help) = String.◌++◌ subsystem (String.◌++◌ "_" name)
full_name (gauge_vec subsystem name help) = String.◌++◌ subsystem (String.◌++◌ "_" name)
full_name (histogram_vec subsystem name help buckets) = String.◌++◌ subsystem (String.◌++◌ "_" name)

-- A registerer takes a vector exactly if its name is not taken, and then it is.
pub record IsRegisterer {F : Type 0} (reg : Registerer F) : Type 0 where
  pub taken : reg.R → List String
  pub accepts :
      (v : Vec F) (r : reg.R)
      → mem (full_name v) (taken r) ≡ false
      → (r' : reg.R) × (reg.register v r ≡ some r') × (taken r' ≡ full_name v ∷ taken r)
  pub refuses :
      (v : Vec F) (r : reg.R) → mem (full_name v) (taken r) ≡ true → reg.register v r ≡ none

-- The vectors for some options.
abbrev pub vectors : {F : Type 0} → Options F → Vectors (Vec F)
vectors o = record {
  attempts = counter_vec "hystrix" "attempts" "[counter] subsystem: hystrix, metric: attempts";
  successes = counter_vec "hystrix" "successes" "[counter] subsystem: hystrix, metric: successes";
  errors = counter_vec "hystrix" "errors" "[counter] subsystem: hystrix, metric: errors";
  failures = counter_vec "hystrix" "failures" "[counter] subsystem: hystrix, metric: failures";
  rejects = counter_vec "hystrix" "rejects" "[counter] subsystem: hystrix, metric: rejects";
  short_circuits =
      counter_vec "hystrix" "short_circuits" "[counter] subsystem: hystrix, metric: short_circuits";
  timeouts = counter_vec "hystrix" "timeouts" "[counter] subsystem: hystrix, metric: timeouts";
  fallback_successes =
      counter_vec "hystrix" "fallback_successes"
        "[counter] subsystem: hystrix, metric: fallback_successes";
  fallback_failures =
      counter_vec "hystrix" "fallback_failures"
        "[counter] subsystem: hystrix, metric: fallback_failures";
  context_deadline_exceeded =
      counter_vec "hystrix" "context_deadline_exceeded"
        "[counter] subsystem: hystrix, metric: context_deadline_exceeded";
  context_canceled =
      counter_vec "hystrix" "context_canceled"
        "[counter] subsystem: hystrix, metric: context_canceled";
  total_duration =
      histogram_vec "hystrix" "total_duration"
        "[histogram] subsystem: hystrix, metric: total_duration" o.histogram_buckets;
  run_duration =
      histogram_vec "hystrix" "run_duration" "[histogram] subsystem: hystrix, metric: run_duration"
        o.histogram_buckets;
  concurrency_in_use =
      gauge_vec "hystrix" "concurrency_in_use"
        "[gauge] subsystem: hystrix, metric: concurrency_in_use";
}

-- The buckets that the last option sets.
abbrev pub last_buckets : {F : Type 0} → List (List F) → List F
last_buckets [] = []
last_buckets (b ∷ []) = b
last_buckets (_ ∷ b ∷ bs) = last_buckets (b ∷ bs)

apply_options-last :
    {F : Type 0} (bs : List (List F)) (b : List F)
    → apply_options (map with_histogram_buckets bs) (record { histogram_buckets = b })
      ≡ record { histogram_buckets = last_buckets (b ∷ bs) }
unfolding apply_options with_histogram_buckets
apply_options-last [] b = refl
apply_options-last (b' ∷ bs) b = apply_options-last bs b'

build_options-last :
    {F : Type 0} (bs : List (List F))
    → build_options (map with_histogram_buckets bs) ≡ record { histogram_buckets = last_buckets bs }
unfolding build_options apply_options with_histogram_buckets
build_options-last [] = refl
build_options-last (b ∷ bs) = apply_options-last bs b

-- The names that the collector takes.
abbrev pub hystrix_names : List String
hystrix_names =
    "hystrix_attempts" ∷ "hystrix_successes" ∷ "hystrix_errors" ∷ "hystrix_failures"
    ∷ "hystrix_rejects" ∷ "hystrix_short_circuits" ∷ "hystrix_timeouts"
    ∷ "hystrix_fallback_successes" ∷ "hystrix_fallback_failures"
    ∷ "hystrix_context_deadline_exceeded" ∷ "hystrix_context_canceled" ∷ "hystrix_total_duration"
    ∷ "hystrix_run_duration" ∷ "hystrix_concurrency_in_use" ∷ []

-- The names after the first ones.
abbrev drop : ℕ → List String → List String
drop zero ns = ns
drop (suc k) [] = []
drop (suc k) (n ∷ ns) = drop k ns

-- None of the names is the first one.
abbrev differ : String → List String → Bool
differ n [] = true
differ n (m ∷ ms) = not (str_eq m n) && differ n ms

module _ {F : Type 0} (reg : Registerer F) (laws : IsRegisterer reg) where
  open reg use {R, register}
  open laws use {taken, accepts, refuses}

  -- None of the names is taken.
  abbrev pub AreFree : List String → R → Type 0
  AreFree ns r = All (λ n. mem n (taken r) ≡ false) ns

  -- What holds when a vector has been registered.
  record Registered (v : Vec F) (rest : List String) (r : R) : Type 0 where
    next : R
    accepted : register v r ≡ some next
    free : AreFree rest next
    has : mem (full_name v) (taken next) ≡ true
    kept : (n : String) → mem n (taken r) ≡ true → mem n (taken next) ≡ true

  AreFree-next :
      (name : String) (ns : List String) (r r' : R)
      → taken r' ≡ name ∷ taken r
      → differ name ns ≡ true
      → AreFree ns r
      → AreFree ns r'
  AreFree-next name [] r r' e d free = tt
  AreFree-next name (n ∷ ns) r r' e d free =
      (rw e (ground (arith, d, free.0)), AreFree-next name ns r r' e (ground (arith, d)) free.1)

  registered :
      (v : Vec F) (rest : List String) (r : R)
      → AreFree (full_name v ∷ rest) r
      → differ (full_name v) rest ≡ true
      → Registered v rest r
  registered v rest r free d =
      let (r', e, names) = accepts v r free.0 in
      let same : str_eq (full_name v) (full_name v) ≡ true =
        (eq_iff (full_name v) (full_name v)).1 refl in
      record {
        next = r';
        accepted = e;
        free = AreFree-next (full_name v) rest r r' names d free.1;
        has = rw (names, same) refl;
        kept = λ n h. rw names (ground (arith, h));
      }

  new_collector-again :
      (r : R) (opts : List (Options F → Options F))
      → mem "hystrix_attempts" (taken r) ≡ true
      → new_collector reg r opts ≡ none
  unfolding new_collector new_counter_vec
  new_collector-again r opts h =
      rw
        (refuses (counter_vec "hystrix" "attempts" "[counter] subsystem: hystrix, metric: attempts")
          r h)
        refl

  -- The calls of `NewCollector`, if each of them is accepted.
  new_collector-accepted :
      (opts : List (Options F → Options F)) (r r1 r2 r3 r4 r5 r6 r7 r8 r9 r10 r11 r12 r13 r14 : R)
      → register (vectors (build_options opts)).attempts r ≡ some r1
      → register (vectors (build_options opts)).successes r1 ≡ some r2
      → register (vectors (build_options opts)).errors r2 ≡ some r3
      → register (vectors (build_options opts)).failures r3 ≡ some r4
      → register (vectors (build_options opts)).rejects r4 ≡ some r5
      → register (vectors (build_options opts)).short_circuits r5 ≡ some r6
      → register (vectors (build_options opts)).timeouts r6 ≡ some r7
      → register (vectors (build_options opts)).fallback_successes r7 ≡ some r8
      → register (vectors (build_options opts)).fallback_failures r8 ≡ some r9
      → register (vectors (build_options opts)).context_deadline_exceeded r9 ≡ some r10
      → register (vectors (build_options opts)).context_canceled r10 ≡ some r11
      → register (vectors (build_options opts)).total_duration r11 ≡ some r12
      → register (vectors (build_options opts)).run_duration r12 ≡ some r13
      → register (vectors (build_options opts)).concurrency_in_use r13 ≡ some r14
      → new_collector reg r opts ≡ some (vectors (build_options opts), r14)
  unfolding new_collector new_counter_vec new_gauge_vec new_histogram_vec
  new_collector-accepted opts r r1 r2 r3 r4 r5 r6 r7 r8 r9 r10 r11 r12 r13 r14 e1 e2 e3 e4 e5 e6 e7
        e8 e9 e10 e11 e12 e13 e14 =
      rw (e1, e2, e3, e4, e5, e6, e7, e8, e9, e10, e11, e12, e13, e14) refl

  new_collector-free :
      (r : R) (opts opts' : List (Options F → Options F))
      → AreFree hystrix_names r
      → (r' : R) × (new_collector reg r opts ≡ some (vectors (build_options opts), r'))
        × (new_collector reg r' opts' ≡ none)
  new_collector-free r opts opts' free =
      let v = vectors (build_options opts) in
      let s1 = registered v.attempts (drop 1 hystrix_names) r free refl in
      let s2 = registered v.successes (drop 2 hystrix_names) s1.next s1.free refl in
      let s3 = registered v.errors (drop 3 hystrix_names) s2.next s2.free refl in
      let s4 = registered v.failures (drop 4 hystrix_names) s3.next s3.free refl in
      let s5 = registered v.rejects (drop 5 hystrix_names) s4.next s4.free refl in
      let s6 = registered v.short_circuits (drop 6 hystrix_names) s5.next s5.free refl in
      let s7 = registered v.timeouts (drop 7 hystrix_names) s6.next s6.free refl in
      let s8 = registered v.fallback_successes (drop 8 hystrix_names) s7.next s7.free refl in
      let s9 = registered v.fallback_failures (drop 9 hystrix_names) s8.next s8.free refl in
      let s10 =
        registered v.context_deadline_exceeded (drop 10 hystrix_names) s9.next s9.free refl in
      let s11 = registered v.context_canceled (drop 11 hystrix_names) s10.next s10.free refl in
      let s12 = registered v.total_duration (drop 12 hystrix_names) s11.next s11.free refl in
      let s13 = registered v.run_duration (drop 13 hystrix_names) s12.next s12.free refl in
      let s14 = registered v.concurrency_in_use (drop 14 hystrix_names) s13.next s13.free refl in
      (
        s14.next,
        new_collector-accepted opts r s1.next s2.next s3.next s4.next s5.next s6.next s7.next
            s8.next s9.next s10.next s11.next s12.next s13.next s14.next s1.accepted s2.accepted
            s3.accepted s4.accepted s5.accepted s6.accepted s7.accepted s8.accepted s9.accepted
            s10.accepted s11.accepted s12.accepted s13.accepted s14.accepted,
        new_collector-again s14.next opts' (
            s14.kept _ (
              s13.kept _ (
                s12.kept _ (
                  s11.kept _ (
                    s10.kept _ (
                      s9.kept _ (
                        s8.kept _ (
                          s7.kept _ (
                            s6.kept _
                              (s5.kept _ (s4.kept _ (s3.kept _ (s2.kept _ s1.has))))))))))))),
      )

  -- On a registerer on which none of the fourteen names is taken, `NewCollector` with any number of
  -- `WithHistogramBuckets` makes the vectors with these names. The histograms have the buckets of
  -- the last of them, and none without one. A second call on the same registerer, with
  -- whatever options, panics. This holds for a registerer that takes a vector exactly if its name
  -- is not taken.
  pub new_collector_once :
      (r : R) (buckets : List (List F)) (opts' : List (Options F → Options F))
      → AreFree hystrix_names r
      → (r' : R) × (new_collector reg r (map with_histogram_buckets buckets)
          ≡ some (vectors (record { histogram_buckets = last_buckets buckets }), r'))
        × (new_collector reg r' opts' ≡ none)
  new_collector_once r buckets opts' free =
      let (r', made, again) =
        new_collector-free r (map with_histogram_buckets buckets) opts' free in
      (r', made ∙ rw (build_options-last buckets) refl, again)
