-- ===== src/Addr.antt =====
-- The addresses of the interfaces, src/netlink/addr.rs: which of them get a rule. The filters are in
-- Addr/Filters.antt, and reading messages in Addr/Event.antt and Addr/Snapshot.antt.
pub mod Filters
pub mod Event
pub mod Snapshot
