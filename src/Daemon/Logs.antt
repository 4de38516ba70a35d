-- ===== src/Daemon/Logs.antt =====
-- The logs: `serveLog`, and what the daemon writes of errors, banners and responses:
-- `logTunnelOpenError` with its throttle, `shortBannerLog` and `preview`. Times are nanoseconds.
pub mod Tail
pub mod Throttled
use sshcustom_vpnchain.Base.{
  ℕ, zero, suc, ◌+◌, ◌-◌, ◌*◌, ◌^◌, Bool, true, not, ◌||◌, Option, none, some, List, [], ◌∷◌, ◌++◌,
  ltb, if◌then◌else◌, length, take, drop, is_empty, Bytes, codes,
}
use sshcustom_vpnchain.Base.Text.{trim_space, to_lower, contains}
use sshcustom_vpnchain.Base.Decimal.{itoa}
use sshcustom_vpnchain.Transport.{replace_all}

-- What `serveLog` meets: the size that `os.Stat` gives, whether the file can then be opened and the
-- reader set to a place in it, and what is in the file by then.
pub record LogFile : Type 0 where
  pub stat_size : Option ℕ
  pub opens : Bool
  pub seeks : Bool
  pub content : Option Bytes

pub data LogAnswer : Type 0 where
  not_found failed : LogAnswer
  log_text : Bytes → LogAnswer

abbrev pub max_log_read : ℕ
max_log_read = 65536

zeros : ℕ → Bytes
zeros zero = []
zeros (suc n) = 0 ∷ zeros n

-- `io.ReadFull` of the whole buffer from an offset; at the end of the file the buffer stays as it was
-- made, and that error is passed over.
read_tail : ℕ → Option Bytes → LogAnswer
unfolding zeros
read_tail offset none = failed
read_tail offset (some content) =
    let rest = drop offset content in
    if is_empty rest
    then log_text (zeros max_log_read)
    else if ltb (length rest) max_log_read
    then failed
    else log_text (take max_log_read rest)

read_whole : Option Bytes → LogAnswer
read_whole none = failed
read_whole (some content) = log_text content

read_log : LogFile → ℕ → LogAnswer
unfolding read_tail read_whole
read_log f size =
    let tail = read_tail (size - max_log_read) f.content in
    if not f.opens
    then failed
    else if ltb max_log_read size
    then (if f.seeks then tail else failed)
    else read_whole f.content

found_log : LogFile → Option ℕ → LogAnswer
unfolding read_log
found_log f none = not_found
found_log f (some size) = read_log f size

-- `serveLog`.
unfoldable pub serve_log : LogFile → LogAnswer
unfolding found_log
serve_log f = found_log f f.stat_size

-- What an error is for `logTunnelOpenError`.
pub data ErrorClass : Type 0 where
  reset timeout packet_size other_error : ErrorClass

unfoldable pub class_of : Bytes → ErrorClass
class_of e =
    let has = contains (to_lower e) in
    if has (codes "bad record mac")
      || has (codes "error decoding message")
      || has (codes "use of closed network connection")
      || has (codes "eof")
    then reset
    else if has (codes "connection timed out") || has (codes "i/o timeout")
    then timeout
    else if has (codes "packet too large") || has (codes "invalid packet length")
    then packet_size
    else other_error

-- `packetErrCount`; `last` is `none` for the zero time.
pub record Throttle : Type 0 where
  pub count : ℕ
  pub last : Option ℕ

-- A line of the log; two kinds carry the count.
pub data LogLine : Type 0 where
  reset_line error_line : LogLine
  timeouts packet_errors : ℕ → LogLine

-- `time.Since(packetErrCount.last) > 10*time.Second`.
is_due : ℕ → Option ℕ → Bool
is_due now none = true
is_due now (some last) = ltb (last + 10 * 10 ^ 9) now

with_count : (ℕ → LogLine) → ℕ → Throttle → List LogLine × Throttle
unfolding is_due
with_count line now t =
    if is_due now t.last
    then (line (suc t.count) ∷ [], record { count = 0; last = some now })
    else ([], record t { count = suc t.count })

by_class : ℕ → Throttle → ErrorClass → List LogLine × Throttle
unfolding with_count
by_class now t reset = (reset_line ∷ [], t)
by_class now t timeout = with_count timeouts now t
by_class now t packet_size = with_count packet_errors now t
by_class now t other_error = (error_line ∷ [], t)

-- `logTunnelOpenError` of an error that is not nil: the lines that it writes, at most one.
unfoldable pub log_tunnel_open_error : ℕ → Bytes → Throttle → List LogLine × Throttle
unfolding by_class
log_tunnel_open_error now e t = by_class now t (class_of e)

-- Several errors, with their times.
unfoldable pub log_run : Throttle → List (ℕ × Bytes) → List LogLine × Throttle
unfolding log_tunnel_open_error
log_run t [] = ([], t)
log_run t ((now, e) ∷ es) =
    let r = log_tunnel_open_error now e t in let rest = log_run r.1 es in (r.0 ++ rest.0, rest.1)

-- `shortBannerLog`.
unfoldable pub short_banner_log : Bytes → Bytes
unfolding itoa
short_banner_log message =
    let m = trim_space message in
    if is_empty m
    then []
    else if contains (to_lower m) (codes "<html") || contains (to_lower m) (codes "<body")
    then codes "http/html banner suppressed (" ++ (itoa (length m) ++ codes " bytes)")
    else if ltb 160 (length m)
    then take 160 m ++ codes "..."
    else m

-- `preview`.
unfoldable pub preview : Bytes → Bytes
preview b =
    let s = replace_all (replace_all b (13 ∷ []) (codes "\\r")) (10 ∷ []) (codes "\\n") in
    if ltb 500 (length s) then take 500 s ++ codes "..." else s
