-- ===== src/Examples.antt =====
-- A concrete world in which the receiver runs, and the theorems at concrete inputs.
pub mod World
pub mod State
mod Abis
mod Flow
mod Blocks
mod Exporting
mod Snapshots
mod Options
mod Connecting
mod Decoding
mod Agreeing
