-- ===== src/ExpWs.antt =====
-- The websocket exporter, exp_ws_plugin.cpp: its queue of messages and how it slows the receiver
-- down (Queue), the form of its messages (Message), what it takes from the decoder (Channels), what
-- it reads from the consumer (Request), its options (Options) and its connection (Connection).
pub mod Queue
pub mod Message
pub mod Channels
pub mod Request
pub mod Options
pub mod Connection
