-- ===== src/Structure.antt =====
-- swaram/analytics/structure.py: swings, fair value gaps, order blocks and structure events. The
-- parallel arrays are one list of bars, since the only caller builds them from one list of candles;
-- `opens` is not read. Timestamps are numbers.
pub mod Swings
pub mod Gaps
pub mod Trend
pub mod Result
mod Tests
use mach.Prelude.{ℕ, Bool, Option}

pub record Bar {ℓ} (F : Type ℓ) : Type ℓ where
  pub timestamp : ℕ
  pub high : F
  pub low : F
  pub close : F

pub record SwingPoint {ℓ} (F : Type ℓ) : Type ℓ where
  pub index : ℕ
  pub timestamp : ℕ
  pub price : F
  pub is_high : Bool

pub record FvgZone {ℓ} (F : Type ℓ) : Type ℓ where
  pub timestamp : ℕ
  pub high_level : F
  pub low_level : F
  pub is_bullish : Bool
  pub is_mitigated : Bool
  pub mitigated_at : Option ℕ

pub record OrderBlockZone {ℓ} (F : Type ℓ) : Type ℓ where
  pub timestamp : ℕ
  pub high_level : F
  pub low_level : F
  pub is_bullish : Bool
  pub is_mitigated : Bool

-- The strings of `trend`, and those of an event's `type` and `direction`.
pub data TrendState : Type 0 where
  bullish bearish neutral : TrendState

pub data Direction : Type 0 where
  up down : Direction

pub data EventKind : Type 0 where
  sweep bos choch : EventKind

pub record StructureEvent {ℓ} (F : Type ℓ) : Type ℓ where
  pub kind : EventKind
  pub direction : Direction
  pub timestamp : ℕ
  pub price_level : F
