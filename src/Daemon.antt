-- ===== src/Daemon.antt =====
-- What `run` of cmd/sshcustomd/main.go does around the tunnel: the line of module.prop, the logs, the
-- route that the phone uses, the handlers of the API, the lookup of public
-- addresses; and the sampler of internal/metrics/metrics.go.
pub mod ModuleProp
pub mod Metrics
pub mod Logs
pub mod Route
pub mod Api
pub mod Control
pub mod PublicIp
