-- ===== src/Lib.antt =====
-- A model of sshcustomd, the daemon that routes a phone's traffic through one SSH connection, with
-- the theorems that say what its parts do.
--
-- The daemon (cmd/sshcustomd) reads a configuration and a file of profiles, and serves an HTTP API.
-- While a tunnel is started, one loop (engine.go, tunnelLoop) opens the transport of the selected
-- profile, authenticates, brings up listeners and routing rules once, waits for the connection to
-- end, and starts over. The listeners (a SOCKS5 server, transparent TCP, a UDP relay over a gateway
-- at the far end, a DNS forwarder) use whatever connection the loop holds at the time.
--
-- Base, with a child for each topic, has the numbers, lists, byte strings, results and association
-- lists that the parts share. A byte is a natural number, a Go string is the list of its bytes, and
-- an `int` that may be negative is a pair of constructors (Base/Int).
--
-- Net: Conn is a stream connection, as a function from the connection to a result and the
-- connection after it; Ip, IpClass, ParseIp and HostPort are the functions of Go's package net that
-- the program calls. ParseIp/Printed and HostPort/Joined show that parsing reads what printing
-- wrote.
--
-- Pipe: pipeBoth and writeAll of cmd/sshcustomd/main.go. A connection that is written to is any
-- implementation of the record Writer, the contract of io.Writer; reads and the passing of time are
-- events. Written, Delivered, Closing and Busy hold the proofs.
--
-- Socks: socks5Handshake, socks5Reply and readSOCKS5ConnectReply of cmd/sshcustomd/main.go, and the
-- SOCKS part of fetchHTTPViaLocalSOCKS. Request is RFC 1928's form of a request, written apart from
-- the code; Server, Sound and Client hold the proofs.
--
-- Udpgw: cmd/sshcustomd/udpgw.go. The tunnel is a record, dial, Send and readLoop are functions of
-- it; Relay is the map of flows of serveTransparentUDP in cmd/sshcustomd/engine.go. Frames, Retry
-- and Relay/Routing hold the proofs.
--
-- Config: the struct Config, its defaults, and the patch of the API (main.go; the request's type is
-- in internal/apiv1/contracts.go). Profile: profiles.json and the handlers that change it. Data has
-- the types, Names chooses IDs, Select selects, Transport fills in a transport, Upsert saves,
-- Handlers are the requests; the other files are proofs.
--
-- Engine: State is the daemon's state, Round is what tunnelLoop does between two waits, and Loop is
-- tunnelLoop as a machine over what may happen at its two selects and at the receive behind them.
-- Notify has State's set, Subscribe and broadcast (main.go), and Stream below it the handler of
-- /api/v1/events. Lifecycle is startTunnel, stopTunnel and the goroutine between them (main.go, in
-- run), interleaved as events. Serving has the accept loops serveSOCKS and serveTransparent, and
-- Listeners below it the loops of the UDP servers and startListeners. Streams is
-- dialStreamWithRetry with its classes of errors, and handleSOCKSClient; Transparent is
-- handleTransparentClient, with isLocalOrBlockedTarget (main.go) and the destinations that the
-- kernel gives (tproxy_linux.go, originaldst_linux.go); KeepAlive is keepAlive; DnsForward is
-- forwardOneDNSQuery.
--
-- Transport: openPreparedSSHConn with readProbe, readSome, httpCONNECT, extractHTTPStatuses,
-- extractSSHBanner, allowedStatuses and renderPayload (main.go). A connection is the list of what
-- its reads give; Go's order over a map is an argument. Dial is dialTCPResolved with
-- dialFallbackIPs, Probe is attemptTransport, Auth is attemptSSHAuth, Prefix is prefixConn over any
-- implementation of the record Reader, the contract of io.Reader.
--
-- Dnsx: the resolver's cache and list of servers, internal/dnsx/dnsx.go; Ips has its lists of
-- addresses.
--
-- Daemon: what run of cmd/sshcustomd/main.go does around the tunnel. ModuleProp is
-- updateModuleProp, with the goroutine that calls it in Watch; Api is the configuration that is
-- held, the one in config.json and the one that the state shows, with saveRuntimeConfig and the
-- handler of /api/v1/config; Control has the handlers of control, vpnchain, autostart and the
-- clearing of a log, and validate; PublicIp is lookupPublicIPs with its cache; Logs is serveLog and
-- logTunnelOpenError; Route is routeInfo and routeSignature; Metrics is the sampler of
-- internal/metrics/metrics.go, on the texts of /proc. Latest, Agreed, Fresh, Tail, Throttled and
-- Ticks hold proofs.
--
-- Tests: one example for each theorem that has hypotheses.
--
-- Bounds and fuel: the digits of a number n are written with fuel n + 1, which is enough since
-- every digit divides by ten; the search for a free ID has the code's own bound of 9998 candidates.
-- The loop of writeAll has fuel for a round per byte, which is enough since a round that goes on
-- has written a byte. An IPv6 address has at most eight groups.
--
-- Not modelled: sockets, files, timers, the SSH library, TLS and shell scripts are parameters, that
-- is, their outcomes are arguments of the operations. A handler or a call of startTunnel is one
-- step, and two calls at once are taken one after the other (nothing in the code sees to that for
-- startTunnel; Engine/Lifecycle/Overlap takes its calls apart); a read and the write that follows
-- it in pipeBoth are one step too. Text is ASCII where the code lowers or trims it. A configuration
-- in a file is the value that reading it gives: that JSON reads what it wrote is relied on.
-- lookupPublicIPs is one step, though its lock is free while it looks up. A percentage of the
-- sampler is a part and its whole; the floating-point number that is shown of them is not modelled.
-- Left out are the counter of open streams, the HTTP handlers that only collect values, the web UI,
-- the set-up of sockets and the module's scripts.
pub mod Base
pub mod Net
pub mod Pipe
pub mod Socks
pub mod Udpgw
pub mod Config
pub mod Profile
pub mod Engine
pub mod Dnsx
pub mod Daemon
pub mod Transport
pub mod Tests
