-- ===== src/Rolling.antt =====
-- The rolling statistics of hystrix/rolling.
pub mod Log
pub mod Number
pub mod Timing
