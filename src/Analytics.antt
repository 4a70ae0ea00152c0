-- ===== src/Analytics.antt =====
-- swaram/analytics: the volume profile, the correlations, the watchdog of macro events, and the engine
-- that puts all analytics of a series of candles together.
pub mod Volume
pub mod Correlation
pub mod Watchdog
pub mod Engine
mod Tests
