-- ===== src/Bridge.antt =====
-- The session logic of crates/play-on-air/src/bridge.
pub mod State
pub mod Fallback
pub mod Stall
pub mod Slots
pub mod Playback
pub mod Gates
pub mod Load
pub mod Teardown
pub mod Volume
pub mod Prebuffer
pub mod Start
pub mod Remote
pub mod Life
pub mod Group
mod Tests
