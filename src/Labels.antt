-- ===== src/Labels.antt =====
-- web/src/lib/known-addresses.ts and web/src/lib/entity-labels.ts: names for known addresses. A
-- table is read by its own keys; no address is the name of a member of every object.
pub mod Known
pub mod Entities
pub mod Lookup
pub mod Reachable
