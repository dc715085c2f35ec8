-- ===== src/Plugins/Statsd/Client.antt =====
-- plugins/statsd/collector.go: how a collector comes to its client.
--
-- The package statsd is external: its client, what NewClientWithConfig answers, and float32.
use Prim.Native.String.{String}
use hystrix_go.Base.{
  ℕ, zero, suc, arith, by_cases, ◌≡◌, ◌≢◌, refl, Bool, true, false, Option, none, some, ◌==◌,
  if◌then◌else◌,
}
use hystrix_go.Plugins.Statsd.{Collector, new_statsd_collector}

abbrev pub wan_statsd_flush_bytes : ℕ
wan_statsd_flush_bytes = 512

abbrev pub lan_statsd_flush_bytes : ℕ
lan_statsd_flush_bytes = 1432

abbrev pub gigabit_statsd_flush_bytes : ℕ
gigabit_statsd_flush_bytes = 8932

-- A value of the interface `statsd.Statter`. A nil pointer to a client is not the nil interface.
pub data Statter (Client : Type 0) : Type 0 where
  nil : Statter Client
  nil_client : Statter Client
  client : Client → Statter Client

-- `statsd.ClientConfig`, where it is buffered and flushed every second.
pub record ClientConfig : Type 0 where
  pub address : String
  pub prefix : String
  pub flush_bytes : ℕ

-- The sample rate, a float32: whether it is zero, and one.
module _ (Client Rate Error : Type 0) (is_zero : Rate → Bool) (one : Rate)
    (new_client_with_config : ClientConfig → Statter Client × Option Error) where
  pub record CollectorConfig : Type 0 where
    pub statsd_addr : String
    pub prefix : String
    pub sample_rate : Rate
    pub flush_bytes : ℕ

  pub record CollectorClient : Type 0 where
    pub client : Statter Client
    pub sample_rate : Rate

  -- What NewClientWithConfig is called with.
  abbrev pub client_config : CollectorConfig → ClientConfig
  client_config config = record {
    address = config.statsd_addr;
    prefix = config.prefix;
    flush_bytes = if config.flush_bytes == 0 then lan_statsd_flush_bytes else config.flush_bytes;
  }

  -- What `InitializeCollector` makes of the answer.
  abbrev pub with_answer : Rate → Statter Client × Option Error → CollectorClient × Option Error
  with_answer rate (c, none) = (record { client = c; sample_rate = rate }, none)
  with_answer rate (_, some e) = (record { client = nil_client; sample_rate = rate }, some e)

  abbrev pub rate_of : CollectorConfig → Rate
  rate_of config = if is_zero config.sample_rate then one else config.sample_rate

  unfoldable pub initialize_collector : CollectorConfig → CollectorClient × Option Error
  initialize_collector config =
      with_answer (rate_of config) (new_client_with_config (client_config config))

  -- A collector with its client and sample rate.
  pub record Attached : Type 0 where
    pub client : Statter Client
    pub sample_rate : Rate
    pub collector : Collector

  -- `NewStatsdCollector`: without a client the program ends, which is `none`.
  unfoldable pub attach : CollectorClient → String → Option Attached
  attach s name = elim (s.client) [
    | nil ↦ none
    | nil_client ↦ some (record {
      client = nil_client;
      sample_rate = s.sample_rate;
      collector = new_statsd_collector name;
    })
    | client c ↦ some (record {
      client = client c;
      sample_rate = s.sample_rate;
      collector = new_statsd_collector name;
    })
  ]

  attach-some :
      (c : Statter Client) (rate : Rate) (name : String)
      → c ≢ nil
      → attach (record { client = c; sample_rate = rate }) name
        ≡ some (record { client = c; sample_rate = rate; collector = new_statsd_collector name })
  unfolding attach
  attach-some nil rate name ne = absurd (ne refl)
  attach-some nil_client rate name ne = refl
  attach-some (client c) rate name ne = refl

  -- The bytes of a packet: those of the configuration, or of a local network.
  abbrev pub bytes_or_lan : ℕ → ℕ
  bytes_or_lan zero = 1432
  bytes_or_lan (suc n) = suc n

  -- What statsd answers for a configuration.
  abbrev pub answer_for : CollectorConfig → Statter Client × Option Error
  answer_for config = new_client_with_config (record {
    address = config.statsd_addr;
    prefix = config.prefix;
    flush_bytes = bytes_or_lan config.flush_bytes;
  })

  -- The client of an answer, and a nil pointer to a client beside an error.
  abbrev pub usable : Statter Client × Option Error → Statter Client
  usable (c, none) = c
  usable (c, some e) = nil_client

  -- The rate is the one that is configured, but 1 for that which is zero.
  abbrev pub IsRate : Bool → Rate → Rate → Type 0
  IsRate true configured rate = rate ≡ one
  IsRate false configured rate = rate ≡ configured

  -- The collector of a name, with an error or without.
  pub record IsAttached (config : CollectorConfig) (name : String)
      (made : CollectorClient × Option Error) : Type 0 where
    pub rate : Rate
    pub rated : IsRate (is_zero config.sample_rate) config.sample_rate rate
    pub attached :
        attach made.0 name
        ≡ some (record {
          client = usable (answer_for config);
          sample_rate = rate;
          collector = new_statsd_collector name;
        })
    pub reported : made.1 ≡ (answer_for config).1

  rate_of-IsRate :
      (config : CollectorConfig)
      → IsRate (is_zero config.sample_rate) config.sample_rate (rate_of config)
  rate_of-IsRate config = by_cases (is_zero config.sample_rate) (λ e. rw e refl) (λ e. rw e refl)

  bytes_or_lan_lem : (n : ℕ) → (if n == 0 then lan_statsd_flush_bytes else n) ≡ bytes_or_lan n
  bytes_or_lan_lem zero = refl
  bytes_or_lan_lem (suc n) = ground arith

  client_config_lem :
      (config : CollectorConfig) → new_client_with_config (client_config config) ≡ answer_for config
  client_config_lem config = rw (bytes_or_lan_lem config.flush_bytes) refl

  attach-with_answer :
      (rate : Rate) (name : String) (answer : Statter Client × Option Error)
      → (answer.1 ≡ none → answer.0 ≢ nil)
      → (attach (with_answer rate answer).0 name
          ≡ some (record {
            client = usable answer;
            sample_rate = rate;
            collector = new_statsd_collector name;
          }))
        × ((with_answer rate answer).1 ≡ answer.1)
  attach-with_answer rate name (c, none) works = (attach-some c rate name (works refl), refl)
  attach-with_answer rate name (c, some e) works =
      (attach-some nil_client rate name (λ h. cc), refl)

  -- Where statsd answers with a client or with an error, `NewStatsdCollector` never ends the
  -- program on what `InitializeCollector` returns. The collector has the client of the answer to the
  -- address, the prefix and the flush bytes that are configured, 1432 for zero, but a nil pointer to a
  -- client where the answer has an error, which is returned. Its rate is the one that is
  -- configured, or 1 where that is zero.
  pub initialize_collector-IsAttached :
      (config : CollectorConfig) (name : String)
      → ((answer_for config).1 ≡ none → (answer_for config).0 ≢ nil)
      → IsAttached config name (initialize_collector config)
  unfolding initialize_collector
  initialize_collector-IsAttached config name works =
      let (attached, reported) =
        attach-with_answer (rate_of config) name (answer_for config) works in
      record {
        rate = rate_of config;
        rated = rate_of-IsRate config;
        attached = rw (client_config_lem config) attached;
        reported = rw (client_config_lem config) reported;
      }
