-- ===== src/Tests.antt =====
-- Runs on concrete inputs, and the theorems with hypotheses at inputs that meet them.
mod Spec
mod LoadTest
pub mod Sample
mod Rolling
mod Settings
mod Metrics
mod Circuit
mod Shared
mod Race
mod ErrorChan
mod NumberRace
mod Plugins
mod EventStream
mod Hystrix
mod Fine
mod Publish
mod Prometheus
mod Serving
mod TimingRace
mod TimerPool
