-- ===== src/Decoder.antt =====
-- The decoder plugin, decoder_plugin.cpp: how values are written as JSON (Json), the JSON form of
-- the receiver's events (Values), the handlers that publish them (Handlers) and the subscriptions
-- (Subscriptions).
pub mod Writer
pub mod Json
pub mod Values
pub mod Handlers
pub mod Subscriptions
