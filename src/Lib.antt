-- ===== src/Lib.antt =====
-- Verification of the real-time stock scanner: ticks become one-minute bars, bars become indicator
-- values, and a scanner evaluates user rules over the state of each symbol and emits alerts.
--
-- How the parts interact. cmd/bars feeds ticks to the bar aggregator, which hands over finalized
-- bars. cmd/scanner feeds ticks, finalized bars and indicator values to the state manager; rules
-- come from a store and are validated and compiled; a worker owns a partition of the symbols. The
-- scan loop takes a snapshot of the states, evaluates the rules whose filters pass on the metrics of
-- each symbol, and emits an alert for a match unless a cooldown is under way. The alert service drops
-- duplicates and routes the others to the gateway, which passes them on to the connections that are
-- subscribed.
--
-- Files and code:
--   Models/Market.antt, Models/Rule.antt, Models/Alert.antt: internal/models/models.go
--   Bars/Aggregator.antt: internal/bars/aggregator.go
--   Rules/Filters.antt: internal/rules/filter_config.go; Rules/Validation.antt: validation.go;
--     Rules/Resolver.antt: metrics.go; Rules/Compiler.antt: compiler.go; Rules/Store.antt: store.go;
--     Rules/Extraction.antt: metric_extraction.go; Rules/Enrichment.antt: filter_config.go, names of
--     metrics and defaults; Rules/Parser.antt: parser.go
--   Scanner/Cooldown.antt: internal/scanner/cooldown.go; Scanner/Partitioning.antt: partitioning.go;
--     Scanner/Session.antt: session.go; Scanner/State.antt and Scanner/Snapshot.antt: state.go;
--     Scanner/MetricCache.antt: metric_cache.go; Scanner/Emitter.antt: alert_emitter.go;
--     Scanner/ScanLoop.antt: scan_loop.go
--   Metrics.antt: internal/metrics/computer.go, and its children BarMetrics, PriceFilters, RangeFilters,
--     VolumeFilters, IndicatorFilters, ActivityFilters and TimeFilters the files of these names (the
--     live bar and price change metrics are in BarMetrics, the advanced volume filters in
--     VolumeFilters); Metrics/Registry.antt and Metrics/Registry/BuiltIn.antt: registry.go
--   Indicators/Calculator.antt: pkg/indicator/calculator.go; Indicators/Windows.antt: vwap.go,
--     volume.go, price_change.go and utils.go; Indicators/RelativeVolume.antt: volume.go;
--     Indicators/SymbolState.antt: state.go; Indicators/Registry.antt: registry.go
--   Ingestion/Normalizer.antt: internal/data/normalizer.go
--   Toplists.antt: internal/models/toplist.go, internal/toplist/metric_mapper.go and
--     internal/scanner/toplist_integration.go
--   Gateway/Registry.antt: internal/wsgateway/registry.go; Gateway/Connection.antt: connection.go
--     and protocol.go; Gateway/Hub.antt: hub.go
--   Alerts.antt: internal/alert/deduplicator.go, filter.go, router.go and consumer.go
--   Prelude, Float, Int64, Dict: what the Go language gives (texts, lists, float64, int64, maps).
--   Tests: concrete runs, at which each theorem is applied.
-- A Go method is a function of the same name in snake case that takes the receiver's state and
-- returns the new one; methods that hold one mutex are one step. Child modules hold the proofs.
--
-- Conventions. An int or int64 is its 64-bit pattern, with the wrap-around written out. A float64
-- is a type with the interface of Float.antt; its order laws are those of IEEE 754. A time is a
-- count of nanoseconds since Go's zero time, which does not wrap; the clock is an argument. A map is
-- an association list, so an iteration goes in one order of several possible ones. Error texts are
-- constructors. A scan cycle is one step: updates that arrive during it count as after it. Every loop is a structural recursion: there is no fuel.
--
-- Not modelled: input and output (Redis, TimescaleDB, PostgreSQL, HTTP, websockets), configuration,
-- logging and the wiring in cmd; the indicators that wrap the techan library; and the persister of
-- alerts, the authentication of the gateway, the service and the stores of
-- toplists, ValidateRuleSyntax and the readers of parser.go, and the connections
-- to the providers of market data. The scan loop takes the metric registry as an argument: compute_metrics of
-- Metrics/Registry.antt, at a registry and a time, is one.
pub mod Prelude
pub mod Float
pub mod Int64
pub mod Dict
pub mod Models
pub mod Bars
pub mod Rules
pub mod Scanner
pub mod Ingestion
pub mod Metrics
pub mod Indicators
pub mod Toplists
pub mod Gateway
pub mod Alerts
pub mod Tests
