-- ===== src/Receiver.antt =====
-- receiver_plugin_impl and receiver_plugin of chronicle-receiver/receiver_plugin.cpp: the state of
-- the receiver. The operations and their proofs are in the modules below.
pub mod State
pub mod Laws
pub mod Stop
pub mod Acks
pub mod Pause
pub mod Abi
pub mod Traces
pub mod Types
pub mod Send
pub mod Frame
pub mod Deltas
pub mod Start
pub mod Interactive
pub mod Options
pub mod Connection
pub mod Result
