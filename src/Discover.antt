-- ===== src/Discover.antt =====
-- crates/play-on-air/src/discover.rs: what `dns-sd` and mDNS say of the Cast services.
--
-- `Parse` has the operations of `str` on which the parts stand.
pub mod Parse
pub mod Txt
pub mod Browse
pub mod Reachable
pub mod Service
pub mod Mdns
mod Tests
