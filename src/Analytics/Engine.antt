-- ===== src/Analytics/Engine.antt =====
-- swaram/analytics/engine.py: the analytics of a series of candles. Times are formatted elsewhere, and
-- the events of the market structure are given as they are.
use mach.Prelude.{
  ℕ, List, [], map, Option, none, some, last?, length, Raises, ok, ◌>>=◌, sort_by, if◌then◌else◌,
}
use mach.Text.{Text}
use mach.Float.{Float}
use mach.Events.{CandleEvent}
use mach.Structure.{Bar, TrendState, neutral, StructureEvent}
use mach.Structure.Result.{analyze_market_structure}
use mach.Indicators.{
  Numpy, is_nan, calculate_rsi, calculate_macd, calculate_atr, calculate_bollinger_bands,
  calculate_ema, calculate_realized_volatility,
}
use mach.Analytics.Volume.{VolumeNumpy, calculate_vwap, calculate_volume_profile}

pub record AnalyticsSnapshot {ℓ} (F : Type ℓ) : Type ℓ where
  pub canonical_symbol : Text
  pub timeframe : Text
  pub timestamp : ℕ
  pub rsi : Option F
  pub macd : Option F
  pub macd_signal : Option F
  pub macd_hist : Option F
  pub atr : Option F
  pub ema_9 : Option F
  pub ema_21 : Option F
  pub ema_50 : Option F
  pub ema_200 : Option F
  pub bollinger_upper : Option F
  pub bollinger_mid : Option F
  pub bollinger_lower : Option F
  pub vwap : Option F
  pub realized_vol_24h : Option F
  pub poc_price : Option F
  pub vah_price : Option F
  pub val_price : Option F
  pub market_trend : TrendState
  pub latest_event : Option (StructureEvent F)
  pub active_fvgs_count : ℕ
  pub active_order_blocks_count : ℕ
  pub recent_events : List (StructureEvent F)

module _ {ℓ} {F : Type ℓ} ⦃fl : Float F⦄ where
  open fl use {round, decimal}

  -- `AnalyticsSnapshot` with its defaults.
  abbrev pub empty_snapshot : Text → Text → ℕ → AnalyticsSnapshot F
  empty_snapshot symbol timeframe now = record {
    canonical_symbol = symbol;
    timeframe = timeframe;
    timestamp = now;
    rsi = none;
    macd = none;
    macd_signal = none;
    macd_hist = none;
    atr = none;
    ema_9 = none;
    ema_21 = none;
    ema_50 = none;
    ema_200 = none;
    bollinger_upper = none;
    bollinger_mid = none;
    bollinger_lower = none;
    vwap = none;
    realized_vol_24h = none;
    poc_price = none;
    vah_price = none;
    val_price = none;
    market_trend = neutral;
    latest_event = none;
    active_fvgs_count = 0;
    active_order_blocks_count = 0;
    recent_events = [];
  }

  -- `_safe_last`
  pub safe_last : List F → Option F
  safe_last arr = elim (last? arr) [ none ↦ none | some x ↦ if is_nan x then none else some x ]

  abbrev pub bar_of : CandleEvent F → Bar F
  bar_of c = record { timestamp = c.timestamp; high = c.high; low = c.low; close = c.close }

  module _ (np : Numpy F) (vnp : VolumeNumpy F) where
    -- The analytics of sorted candles, of which `last` is the last. The periods are one more than
    -- the numbers that are given.
    pub analyze_sorted :
        Text → Text → List (CandleEvent F) → CandleEvent F → Raises (AnalyticsSnapshot F)
    unfolding safe_last
    analyze_sorted symbol timeframe candles last = do
      let highs = map (λ c. c.high) candles
      let lows = map (λ c. c.low) candles
      let closes = map (λ c. c.close) candles
      let volumes = map (λ c. c.volume) candles
      let macd = calculate_macd np closes 11 25 8
      let bands = calculate_bollinger_bands np closes 19 (decimal 2 0)
      let ranges = map (λ c. (c.high, c.low, c.close)) candles
      let ms_res = analyze_market_structure (map bar_of candles) 2 2
      vp_res ← calculate_volume_profile vnp closes volumes 50 (decimal 70 2)
      ok (record {
        canonical_symbol = symbol;
        timeframe = timeframe;
        timestamp = last.timestamp;
        rsi = safe_last (calculate_rsi np closes 13);
        macd = safe_last macd.first;
        macd_signal = safe_last macd.second;
        macd_hist = safe_last macd.third;
        atr = safe_last (calculate_atr np ranges 13);
        ema_9 = safe_last (calculate_ema np closes 8);
        ema_21 = safe_last (calculate_ema np closes 20);
        ema_50 = safe_last (calculate_ema np closes 49);
        ema_200 = safe_last (calculate_ema np closes 199);
        bollinger_upper = safe_last bands.first;
        bollinger_mid = safe_last bands.second;
        bollinger_lower = safe_last bands.third;
        vwap = safe_last (calculate_vwap vnp closes highs lows volumes);
        realized_vol_24h = some (calculate_realized_volatility np closes 24);
        poc_price = some vp_res.poc_price;
        vah_price = some vp_res.vah_price;
        val_price = some vp_res.val_price;
        market_trend = ms_res.trend;
        latest_event = last? ms_res.events;
        active_fvgs_count = length ms_res.active_fvgs;
        active_order_blocks_count = length ms_res.active_order_blocks;
        recent_events = ms_res.events;
      })

    -- No candles are sorted to no last one.
    pub analyze_candles : Text → Text → ℕ → List (CandleEvent F) → Raises (AnalyticsSnapshot F)
    unfolding analyze_sorted
    analyze_candles symbol timeframe now sorted = elim (last? sorted) [
      | none ↦ ok (empty_snapshot symbol timeframe now)
      | some last ↦ analyze_sorted symbol timeframe sorted last
    ]

    pub compute_analytics : Text → Text → ℕ → List (CandleEvent F) → Raises (AnalyticsSnapshot F)
    compute_analytics symbol timeframe now candles =
        analyze_candles symbol timeframe now (sort_by (λ c. c.timestamp) candles)

  -- `round(x, digits) if x is not None else None`
  abbrev pub shown : ℕ → Option F → Option F
  shown digits none = none
  shown digits (some x) = some (round x digits)

  -- `to_dict`: the indicators are rounded, the volume profile is not.
  pub to_dict : AnalyticsSnapshot F → AnalyticsSnapshot F
  to_dict s = record s {
    rsi = shown 2 s.rsi;
    macd = shown 4 s.macd;
    macd_signal = shown 4 s.macd_signal;
    macd_hist = shown 4 s.macd_hist;
    atr = shown 4 s.atr;
    ema_9 = shown 2 s.ema_9;
    ema_21 = shown 2 s.ema_21;
    ema_50 = shown 2 s.ema_50;
    ema_200 = shown 2 s.ema_200;
    bollinger_upper = shown 2 s.bollinger_upper;
    bollinger_mid = shown 2 s.bollinger_mid;
    bollinger_lower = shown 2 s.bollinger_lower;
    vwap = shown 2 s.vwap;
    realized_vol_24h = shown 4 s.realized_vol_24h;
  }
