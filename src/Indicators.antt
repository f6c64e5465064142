-- ===== src/Indicators.antt =====
-- pkg/indicator: the calculators of the indicator engine, and the state that it keeps for a symbol.
pub mod Calculator
pub mod Windows
pub mod RelativeVolume
pub mod Registry
pub mod SymbolState
