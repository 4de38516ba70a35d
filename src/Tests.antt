-- ===== src/Tests.antt =====
-- Examples: the theorems of each component at concrete inputs.
mod Data
mod Socks
mod Udpgw
mod Engine
mod Profile
mod Lifecycle
mod Streams
mod Dns
mod Transport
mod Notify
mod Pipe
mod Serving
mod Dial
mod Daemon
