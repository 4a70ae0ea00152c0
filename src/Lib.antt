-- ===== src/Lib.antt =====
-- Swaram: a market data platform with risk checks, market structure analysis, a backtester and
-- collectors, written in Python. The development models its core logic and proves what makes it
-- correct.
--
-- Risk models swaram/risk/engine.py: RiskState, RiskCheckResult, check_trade (split into
-- check_limits and check_loss at its guards), kelly_size and fixed_fractional_size. Risk.Gate
-- holds the laws of the gate, Risk.Sizing those of the sizes. Risk.Route models
-- apps/api/routes/risk.py: get_risk_state, risk_check and calculate_position_size.
--
-- Structure models swaram/analytics/structure.py: Swings is detect_swing_points, Gaps the
-- detection and mitigation of fair value gaps, Trend the loop that turns closes beyond swings
-- into events, Result analyze_market_structure itself.
--
-- Backtest models swaram/backtest/engine.py: an Engine with execute_market_order,
-- update_portfolio and calculate_performance_metrics. Backtest.Simulator models
-- swaram/backtest/agent_sim.py, which routes an agent's orders to the engine. Backtest.Route
-- models run_backtest of apps/api/routes/backtest.py: the loop over candles that drives the
-- engine, and the record that is saved.
--
-- Delta models the connection of swaram/providers/crypto/delta_ws.py: stream_events is a step
-- relation over connecting, streaming, sleeping and ended, with disconnect from outside. The
-- session writes to Health, which models swaram/core/health.py; Delta.Book is the part of
-- _parse_orderbook from the levels on, Delta.Json the values of json.loads, and Delta.Messages
-- the parsers of all channels, with Ticker, Trades and Levels for their parts.
-- Delta.Messages.Lawful puts this parser and the session together. Buffering is what both runners
-- under apps/collectors share: the write buffers, the transactions that the two tasks have open,
-- and the end of the stream; Buffering.Accounts counts rows over its steps. Collector models
-- delta_runner.py, which takes the Events of swaram/core/events.py, and MultiAsset
-- multi_asset_runner.py, which stores ticks. Time models the numeric part of swaram/core/time.py.
--
-- Symbols models swaram/core/symbols.py: the table, its reverse index and the conversions, and
-- Symbols.Parse its parse_canonical; Symbols.Canonical and Symbols.Written are about
-- parse_canonical, Symbols.Table about the round trip through the table, Symbols.Resolve about
-- resolve_canonical. Strategy models swaram/agents/strategy.py and Strategy.Runner the cycles of
-- swaram/agents/loop.py, which feed snapshots to a strategy and simulate its orders.
-- Strategy.Registry models the rest of loop.py, the loops and the registry of runners, with the
-- routes of apps/api/routes/strategy.py that start and stop them. Api is what a route answers,
-- and Api.Streams models apps/api/routes/ws.py: the registry of sockets and the two streams. Dict
-- is a dictionary with texts for keys. Indicators models swaram/analytics/indicators.py,
-- Analytics.Volume, Analytics.Correlation and Analytics.Watchdog the files volume.py,
-- correlation.py and macro_watchdog.py beside it, and Analytics.Engine the engine that puts them
-- together. Orders models swaram/providers/crypto/delta_private.py, the client that signs
-- requests, and Orders.Route the routes of apps/api/routes/execution.py with the attributes of
-- swaram/config/settings.py. Forex models swaram/providers/forex/ctrader.py, whose stream_events
-- is a relation too: Forex.Prices is its runs, Forex.Quotes the events it yields. Positioning,
-- Anomalies and Orderbook model the files of the same names under swaram/analytics.
--
-- Telemetry models the counters and gauges of swaram/telemetry/prometheus.py. Float is the
-- interface of Python's floats: operations only, with laws as separate records (IsNumber,
-- IsOrdered, IsMonotone, IsNanStrict, IsSigned, IsScaled) that a theorem takes where it needs
-- them. Float.Fixed is one implementation, fixed point numbers with a NaN, on which the tests
-- run. Text is Python's str with the case and white space of ASCII. Prelude holds the shared
-- helpers.
--
-- No model needs fuel: every loop of the code runs over a list or over a range, and the endless
-- loops of both stream_events are relations, whose runs are finite sequences of steps.
--
-- Not modelled: the other HTTP routes under apps/api, the storage under swaram/storage and
-- swaram/models, migrations, the loading of settings, logging, the language model agent under
-- swaram/agents/hermes.py and tools.py, the REST provider and the calendar. They are input,
-- output or calls of libraries. The functions of numpy on arrays, the readers of numbers and
-- instants in texts, Redis, the database, the network, the clock, the random walk of a
-- demonstration and the outcome of a transaction are parameters. A snapshot of Strategy.Runner
-- has no indicator that Redis keeps as a text.
pub mod Prelude
pub mod Float
pub mod Text
pub mod Dict
pub mod Symbols
pub mod Strategy
pub mod Positioning
pub mod Anomalies
pub mod Orderbook
pub mod Orders
pub mod Forex
pub mod MultiAsset
pub mod Telemetry
pub mod Time
pub mod Health
pub mod Delta
pub mod Events
pub mod Buffering
pub mod Collector
pub mod Structure
pub mod Indicators
pub mod Analytics
pub mod Api
pub mod Risk
pub mod Backtest
