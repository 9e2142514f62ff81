-- ===== src/Shared.antt =====
-- What the three servers and the client library share, shared/src.
pub mod Stream
pub mod Networking
pub mod Commons
pub mod Queue
