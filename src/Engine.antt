-- ===== src/Engine.antt =====
-- cmd/sshcustomd/engine.go, and the life of the tunnel in `run` of cmd/sshcustomd/main.go.
pub mod State
pub mod Round
pub mod Loop
pub mod Lifecycle
pub mod Streams
pub mod Transparent
pub mod Serving
pub mod KeepAlive
pub mod DnsForward
pub mod Notify
