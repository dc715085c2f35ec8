-- ===== src/Lib.antt =====
-- hystrix-go, a circuit breaker for calls to other services, of the Go package under hystrix.
--
-- A command runs on the circuit of its name. The circuit turns it down when too many recent commands
-- failed (circuit.go) or when as many commands run as the settings allow (pool.go). What became of
-- a command is reported to the collectors of the circuit's metrics (metrics.go, metric_collector),
-- which count it in rolling windows (rolling), and these are what the circuit opens on. A command
-- that fails is answered by its fallback (hystrix.go).
--
-- Base: names and lemmas that all parts share: Boolean tests, 64-bit words, lists, maps.
-- Rolling: hystrix/rolling/rolling.go (Number) and hystrix/rolling/rolling_timing.go (Timing); the
--   log of reports that they are compared with (Log). Rolling/Number/Race: the calls of one second
--   when goroutines interleave; Rolling/Timing/Race: the calls of Add.
-- Float: the interface of float64.
-- Settings: hystrix/settings.go.
-- MetricCollector: hystrix/metric_collector, the default collector and the registry.
-- Metrics: hystrix/metrics.go.
-- Pool: hystrix/pool.go.
-- Circuit: hystrix/circuit.go.
-- Circuit/Spec: an abstract breaker that keeps every report, to compare a circuit with.
-- Circuit/Shared: GetCircuit and Flush, the map of all circuits; Circuit/Race: the atomic fields of
--   a circuit when goroutines interleave.
-- Hystrix: hystrix/hystrix.go; Hystrix/System: any number of commands on one circuit; Hystrix/Spec: an
--   abstract service that they are compared with; Hystrix/Program: commands of many names in one
--   memory; Hystrix/Plain: Do and Go.
-- ErrorChan: the pool of result channels, hystrix/internal/pool/errorchan_nosync.go, as DoC uses it.
-- TimerPool: the pool of timers, hystrix/internal/pool/timer_nosync.go, as DoC uses it.
-- EventStream: hystrix/eventstream.go, the clients and their channels; EventStream/Event and
--   EventStream/Publish: what is published; EventStream/Loop: one tick of it; EventStream/Reader:
--   how a client reads it; EventStream/Serving: ServeHTTP of several clients; EventStream/Life: Start,
--   Stop and the loops.
-- Plugins: plugins/statsd/collector.go, plugins/graphite/collector.go, plugins/datadog/collector.go,
--   plugins/prometheus/collector.go and options.go; Plugins/Deprecated: the older names in
--   plugins/datadog_collector.go, plugins/statsd_collector.go and plugins/graphite_aggregator.go.
-- LoadTest: loadtest/service/main.go.
-- Tests: runs on concrete inputs.
--
-- A function keeps its name in snake case: IsOpen is is_open, DoC is do_c, its part before the command
-- runs is do_c_begin and the part after it do_c_end. A method takes what it reads and changes as its
-- last argument and returns it; a panic, or a send that blocks, is none. Each reading of the clock is
-- an argument: nanoseconds since 1970, from 0 on. An int, int64, uint64 or time.Duration is its
-- pattern of 64 bits, a natural number below 2^64, with signed comparison and wrap-around written
-- out. Strings, and the equality of strings, are the library's.
--
-- Parameters: float64 (Float64, with the laws IsRounding and IsOrdered where a theorem needs them),
-- the collectors of plugins (Env), sort.Sort (a function on lists; the theorems say what they ask
-- of it), the run function and the context (what select receives), the fallback, sync.Pool (which
-- may drop what it holds), time.Timer, json.Marshal and the conversions of durations (GoLibrary), the
-- Prometheus registerer.
--
-- The only fuel is that of get_settings, 2: getSettings calls itself once, after it has stored the
-- settings that it looks for. The loops over the buckets take the number of buckets that are left.
--
-- Not modelled: goroutines that interleave inside one operation, but for Circuit/Race,
-- Rolling/Number/Race, Rolling/Timing/Race, ErrorChan, TimerPool, EventStream/Serving, LoadTest/Handle
-- and the two loads of GetCircuit (each other operation is atomic; mutexes and compare-and-swap loops
-- are left out). Flush while commands run. Logging, JSON and HTTP with its headers, the ticker, the
-- flags and the server of the load test, and the start of the graphite client, which are output or only
-- call other libraries. The text of error messages. Assignments to the exported variables
-- `DefaultTimeout` and the like, which are taken at their first values, and sizes of channels beyond what
-- the memory allows.
pub mod Base
pub mod Rolling
pub mod Float
pub mod Settings
pub mod LoadTest
pub mod MetricCollector
pub mod Metrics
pub mod Pool
pub mod Circuit
pub mod Hystrix
pub mod Plugins
pub mod EventStream
pub mod ErrorChan
pub mod TimerPool
pub mod Tests
