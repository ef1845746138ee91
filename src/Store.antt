-- ===== src/Store.antt =====
-- The state database of chronicle-receiver/receiver_plugin.cpp: the rows of its four tables, and
-- the interface of the library that holds them (chainbase over boost::multi_index), which is not
-- part of the repository. An index and the revision stack are records of operations; what the
-- program relies on is in the records of laws.
pub mod Rows
pub mod Keyed
pub mod Index
pub mod Find
pub mod Revisions
pub mod Versions
pub mod Lists
