-- ===== src/Daemon/Logs/Throttled.antt =====
-- The throttle of `logTunnelOpenError` loses no error.
use sshcustom_vpnchain.Base.{
  ℕ, suc, ◌+◌, ◌≡◌, Bool, true, false, List, [], ◌∷◌, ◌++◌, arith, if◌then◌else◌, Bytes,
}
use sshcustom_vpnchain.Daemon.Logs.{
  ErrorClass, reset, timeout, packet_size, other_error, class_of, Throttle, LogLine, timeouts,
  packet_errors, by_class, log_tunnel_open_error, log_run, with_count,
}

-- An error that the throttle may hold back.
abbrev pub is_throttled : ErrorClass → Bool
is_throttled timeout = true
is_throttled packet_size = true
is_throttled _ = false

abbrev pub throttled : List (ℕ × Bytes) → ℕ
throttled [] = 0
throttled ((now, e) ∷ es) = if is_throttled (class_of e) then suc (throttled es) else throttled es

-- The count that a line carries.
abbrev pub told : LogLine → ℕ
told (timeouts n) = n
told (packet_errors n) = n
told _ = 0

abbrev pub told_all : List LogLine → ℕ
told_all [] = 0
told_all (l ∷ ls) = told l + told_all ls

told_all-append : (ls ms : List LogLine) → told_all (ls ++ ms) ≡ told_all ls + told_all ms
told_all-append [] ms = omega arith
told_all-append (l ∷ ls) ms = omega (arith, told_all-append ls ms)

by_class-told :
    (now : ℕ) (t : Throttle) (c : ErrorClass)
    → told_all (by_class now t c).0 + (by_class now t c).1.count
      ≡ t.count + (if is_throttled c then 1 else 0)
unfolding by_class with_count
by_class-told now t reset = omega arith
by_class-told now t timeout = ground arith
by_class-told now t packet_size = ground arith
by_class-told now t other_error = omega arith

-- No error is lost by the throttle: over any run of errors, the counts in the lines that were written
-- and the count that still waits for a line add up to the errors that the throttle takes, that is the
-- timeouts and the errors of packet size, and what it held at the start.
pub log_run-told :
    (t : Throttle) (es : List (ℕ × Bytes))
    → told_all (log_run t es).0 + (log_run t es).1.count ≡ t.count + throttled es
unfolding log_run log_tunnel_open_error
log_run-told t [] = omega arith
log_run-told t ((now, e) ∷ es) =
    let r = by_class now t (class_of e) in
    let here = by_class-told now t (class_of e) in
    let rest = log_run-told r.1 es in
    let both = told_all-append r.0 (log_run r.1 es).0 in ground (arith, here, rest, both)
