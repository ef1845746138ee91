-- ===== src/Messages.antt =====
-- The messages of the program: what arrives from the state history endpoint, and the events that
-- chronicle-receiver/receiver_plugin.hpp declares for the channels of the receiver.
pub mod Input
pub mod Events
