-- ===== src/Events.antt =====
-- internal/events and cmd/saguaro-eventd: the structured events, and the tables that keep them.
pub mod Partitions
pub mod Names
pub mod Retention
pub mod Collector
pub mod Stream
pub mod Batches
pub mod Severities
pub mod Units
