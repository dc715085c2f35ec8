-- ===== src/EventStream/Loop/Tick.antt =====
-- What the clients read after one tick of `loop`.
use Prim.Native.String.{String}
use hystrix_go.Base.{ℕ, ◌*◌, ◌≤◌, ◌≡◌, refl, true, some, List, [], ◌∷◌, length, All, arith}
use hystrix_go.Circuit.{CircuitBreaker}
use hystrix_go.Circuit.Open.{IsCircuit, settings_for}
use hystrix_go.EventStream.{Requests, events_of, write_to_requests}
use hystrix_go.EventStream.Event.{StreamCmdMetric, StreamThreadPoolMetric}
use hystrix_go.EventStream.Loop.{Round, pool_metric, publish_thread_pools, publish_all}
use hystrix_go.EventStream.Publish.{GoLibrary, command_metric, publish_metrics}
use hystrix_go.EventStream.Publish.Latency.{IsSmall}
use hystrix_go.EventStream.Publish.Shown.{command_metric-some}
use hystrix_go.EventStream.Reader.{read_events, is_payload}
use hystrix_go.EventStream.Reader.RoundTrip.{received, write_all, read_events-write_all}
use hystrix_go.Float.{IsOrdered}
use hystrix_go.MetricCollector.{DefaultMetricCollector, Env}
use hystrix_go.Settings.{SettingsMap}

module _ (env : Env) (go : GoLibrary env.float.F) where
  -- `json.Marshal` does not fail, and its texts have no line feed and do not begin with a space.
  pub record IsJson : Type 0 where
    pub command_text :
        (event : StreamCmdMetric)
        → (t : String) × (go.marshal_command event ≡ some t) × (is_payload t ≡ true)
    pub pool_text :
        (event : StreamThreadPoolMetric)
        → (t : String) × (go.marshal_pool event ≡ some t) × (is_payload t ≡ true)

  -- A circuit with its default collector in the first place and few durations.
  pub record IsWatched (c : CircuitBreaker env) : Type 0 where
    pub d : DefaultMetricCollector
    pub is_circuit : IsCircuit env d c
    pub total : IsSmall go.sort d.total_duration
    pub run : IsSmall go.sort d.run_duration

  -- For each circuit the text of its event and that of its pool's.
  pub data Published
      : List (Round env go × CircuitBreaker env) → SettingsMap → List String → Type 0 where
    nothing : {m : SettingsMap} → Published [] m []
    circuit :
        {at : Round env go} {c c' : CircuitBreaker env}
        {rest : List (Round env go × CircuitBreaker env)} {m m' : SettingsMap}
        {event : StreamCmdMetric} {t t' : String} {ts : List String}
        → command_metric env go at.command m c ≡ some (event, m', c')
        → go.marshal_command event ≡ some t
        → go.marshal_pool (pool_metric env go at.pool c'.executor_pool) ≡ some t'
        → Published rest m' ts
        → Published ((at, c) ∷ rest) m (t ∷ t' ∷ ts)

  record Ticked (rounds : List (Round env go × CircuitBreaker env)) (m : SettingsMap)
      (clients : Requests) : Type 0 where
    texts : List String
    published : Published rounds m texts
    two_each : length texts ≡ 2 * length rounds
    payloads : All (λ t. is_payload t ≡ true) texts
    cbs : List (CircuitBreaker env)
    settings : SettingsMap
    ticked : publish_all env go rounds m clients ≡ some (cbs, settings, write_all texts clients)

  -- One circuit of a tick.
  publish_all-circuit :
      (at : Round env go) (c c' : CircuitBreaker env)
      (rest : List (Round env go × CircuitBreaker env)) (m m' m'' : SettingsMap)
      (clients clients' : Requests) (cbs : List (CircuitBreaker env)) (event : StreamCmdMetric)
      (t t' : String)
      → command_metric env go at.command m c ≡ some (event, m', c')
      → go.marshal_command event ≡ some t
      → go.marshal_pool (pool_metric env go at.pool c'.executor_pool) ≡ some t'
      → publish_all env go rest m' (write_to_requests t' (write_to_requests t clients))
        ≡ some (cbs, m'', clients')
      → publish_all env go ((at, c) ∷ rest) m clients ≡ some (c' ∷ cbs, m'', clients')
  unfolding publish_all publish_metrics publish_thread_pools
  publish_all-circuit at c c' rest m m' m'' clients clients' cbs event t t' e f g h =
      rw (e, f, g, h) refl

  module _ (laws : IsOrdered env.float) (json : IsJson) where
    tick :
        (rounds : List (Round env go × CircuitBreaker env)) (m : SettingsMap) (clients : Requests)
        → All (λ (at, c). IsWatched c) rounds
        → Ticked rounds m clients
    unfolding publish_all
    tick [] m clients watched = record {
      texts = [];
      published = nothing;
      two_each = refl;
      payloads = tt;
      cbs = [];
      settings = m;
      ticked = refl;
    }
    tick ((at, c) ∷ rest) m clients watched =
        let w = watched.0 in
        let (event, c', e) =
          command_metric-some env laws go w.d c w.is_circuit at.command m w.total w.run in
        let (t, f, good) = json.command_text event in
        let (t', f', good') = json.pool_text (pool_metric env go at.pool c'.executor_pool) in
        let m' = (settings_for env c m).1 in
        let later = tick rest m' (write_to_requests t' (write_to_requests t clients)) watched.1 in
        record {
          texts = t ∷ t' ∷ later.texts;
          published = circuit e f f' later.published;
          two_each = omega (arith, later.two_each);
          payloads = (good, (good', later.payloads));
          cbs = c' ∷ later.cbs;
          settings = later.settings;
          ticked =
              publish_all-circuit at c c' rest m m' later.settings clients
                (write_all later.texts (write_to_requests t' (write_to_requests t clients)))
                later.cbs event t t' e f f' later.ticked;
        }

    -- One tick over at most five circuits, each with its default collector in the first place and
    -- fewer than 2^53 durations in its timings at any time: nothing panics, and a client for whom
    -- nothing waited, and that then reads its channel to the end, has for each circuit, in the
    -- order of the walk, the text of its event and that of its pool's event, and nothing else.
    -- This holds if `json.Marshal` does not fail and its texts have no line feed and no space in
    -- front, and for a float64 that keeps order as IsOrdered says.
    pub publish_all-read_events :
        (rounds : List (Round env go × CircuitBreaker env)) (m : SettingsMap) (clients : Requests)
        (req : ℕ)
        → All (λ (at, c). IsWatched c) rounds
        → length rounds ≤ 5
        → events_of req clients ≡ some []
        → (cbs : List (CircuitBreaker env)) × (m' : SettingsMap) × (clients' : Requests)
          × (waiting : List String) × (publish_all env go rounds m clients
              ≡ some (cbs, m', clients'))
          × (events_of req clients' ≡ some waiting)
          × Published rounds m (read_events (received waiting))
    publish_all-read_events rounds m clients req watched few channel =
        let ticked = tick rounds m clients watched in
        let (waiting, there, e) =
          read_events-write_all ticked.texts req clients channel (omega (arith, ticked.two_each))
            ticked.payloads in
        (
          ticked.cbs,
          ticked.settings,
          write_all ticked.texts clients,
          waiting,
          ticked.ticked,
          there,
          rw e ticked.published,
        )
