-- ===== src/Net.antt =====
-- What the daemon uses of Go's `net` and `io` packages: a byte stream, addresses as text, and
-- host:port pairs.
pub mod Conn
pub mod Ip
pub mod ParseIp
pub mod IpClass
pub mod HostPort
