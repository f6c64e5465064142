-- ===== src/Tests.antt =====
-- Concrete runs of the components, on fixed point numbers with four decimals: the value `n * 10000`
-- stands for the number n.
pub mod Data
mod Markets
mod Rulebook
mod Workers
mod Scans
mod Gateways
mod Computers
mod Messages
