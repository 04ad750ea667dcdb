-- ===== src/Media.antt =====
-- crates/play-on-air/src/media/http.rs: the media HTTP server and its live bodies.
pub mod Pace
pub mod State
pub mod Server
pub mod LiveWav
pub mod LiveFlac
mod Tests
