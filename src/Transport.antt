-- ===== src/Transport.antt =====
-- cmd/sshcustomd/main.go: what a transport reads and writes before SSH: `readProbe`, `readSome`,
-- `httpCONNECT`, and the functions on the text that was read. A connection is what its reads give,
-- one after another, and what was written to it; no read gives bytes and an error at once.
pub mod Open
pub mod Dial
pub mod Probe
pub mod Auth
pub mod Prefix
pub mod Banner
pub mod Stream
use sshcustom_vpnchain.Base.{
  ℕ, zero, suc, ◌-◌, ◌*◌, Bool, not, ◌&&◌, ◌||◌, Option, none, some, List, [], ◌∷◌, ◌++◌, leb, ◌==◌,
  if◌then◌else◌, length, take, is_empty, any, all, ℤ, Bytes, codes,
}
use sshcustom_vpnchain.Base.Text.{trim_space, is_space, has_prefix, cut, contains}
use sshcustom_vpnchain.Base.Decimal.{itoa_int, atoi}
use sshcustom_vpnchain.Base.Res.{Res, ok, err}
use sshcustom_vpnchain.Profile.Data.{HttpProxyCfg, TlsCfg, Profile}
use sshcustom_vpnchain.Base.{int_eq}

-- How one `Read` ends.
pub data Read : Type 0 where
  chunk : Bytes → Read
  timed_out at_end broken_off : Read

pub data ProbeError : Type 0 where
  nothing_read read_failed write_failed : ProbeError

-- The bytes that the reads still to come give.
abbrev pub bytes_of : List Read → Bytes
bytes_of [] = []
bytes_of (chunk bs ∷ rs) = bs ++ bytes_of rs
bytes_of (_ ∷ rs) = bytes_of rs

abbrev pub probe_limit : ℕ
probe_limit = 64 * 1024

abbrev pub ssh_mark : Bytes
ssh_mark = codes "SSH-"

abbrev pub probe_ended : Bytes → List Read → Res ProbeError Bytes × List Read
probe_ended [] rs = (err nothing_read, rs)
probe_ended (b ∷ out) rs = (ok (b ∷ out), rs)

-- The loop of `readProbe`, with what it has read; a connection that gives no more times out.
unfoldable pub probe_onto : Bytes → List Read → Res ProbeError Bytes × List Read
probe_onto out [] = probe_ended out []
probe_onto out (chunk bs ∷ rs) =
    let more = probe_onto (out ++ bs) rs in
    if leb probe_limit (length out)
    then probe_ended out (chunk bs ∷ rs)
    else if not (is_empty bs) && contains (out ++ bs) ssh_mark
    then (ok (out ++ bs), rs)
    else more
probe_onto out (timed_out ∷ rs) =
    if leb probe_limit (length out) then probe_ended out (timed_out ∷ rs) else probe_ended out rs
probe_onto out (at_end ∷ rs) =
    if leb probe_limit (length out) then probe_ended out (at_end ∷ rs) else probe_ended out rs
probe_onto out (broken_off ∷ rs) =
    if leb probe_limit (length out)
    then probe_ended out (broken_off ∷ rs)
    else (err read_failed, rs)

-- `readProbe`.
unfoldable pub read_probe : List Read → Res ProbeError Bytes × List Read
unfolding probe_onto
read_probe rs = probe_onto [] rs

-- `readSome`.
unfoldable pub read_some : List Read → Res ProbeError Bytes × List Read
read_some [] = (err read_failed, [])
read_some (chunk bs ∷ rs) = if is_empty bs then (err nothing_read, rs) else (ok bs, rs)
read_some (_ ∷ rs) = (err read_failed, rs)

-- `strings.Split(s, "\n")`.
abbrev pub first_onto : ℕ → List Bytes → List Bytes
first_onto c [] = (c ∷ []) ∷ []
first_onto c (line ∷ lines) = (c ∷ line) ∷ lines

unfoldable pub split_lines : Bytes → List Bytes
split_lines [] = [] ∷ []
split_lines (c ∷ s) = if c == 10 then [] ∷ split_lines s else first_onto c (split_lines s)

-- `strings.Fields`, with the word at hand.
unfoldable pub fields_onto : Bytes → Bytes → List Bytes
fields_onto word [] = if is_empty word then [] else word ∷ []
fields_onto word (c ∷ s) =
    let next = fields_onto [] s in
    let longer = fields_onto (word ++ c ∷ []) s in
    if not (is_space c) then longer else if is_empty word then next else word ∷ next

-- `strings.ReplaceAll`, for a text that is not empty; the number counts bytes to pass over.
unfoldable pub replace_from : ℕ → Bytes → Bytes → Bytes → Bytes
replace_from skip old new [] = []
replace_from (suc skip) old new (c ∷ s) = replace_from skip old new s
replace_from zero old new (c ∷ s) =
    let replaced = new ++ replace_from (length old - 1) old new s in
    let kept = c ∷ replace_from zero old new s in if has_prefix (c ∷ s) old then replaced else kept

abbrev pub replace_all : Bytes → Bytes → Bytes → Bytes
replace_all s old new = replace_from 0 old new s

abbrev pub second_field : List Bytes → Option Bytes
second_field (a ∷ b ∷ rest) = some b
second_field _ = none

abbrev pub maybe_int : Option Bytes → Option ℤ
maybe_int none = none
maybe_int (some s) = atoi s

abbrev pub status_of : Bytes → Option ℤ
status_of line =
    if has_prefix line (codes "HTTP/") then maybe_int (second_field (fields_onto [] line)) else none

abbrev pub given_status : Option ℤ → List ℤ → List ℤ
given_status none out = out
given_status (some n) out = n ∷ out

abbrev pub statuses_of : List Bytes → List ℤ
statuses_of [] = []
statuses_of (line ∷ lines) = given_status (status_of (trim_space line)) (statuses_of lines)

-- `extractHTTPStatuses`.
unfoldable pub extract_http_statuses : Bytes → List ℤ
unfolding split_lines fields_onto replace_from
extract_http_statuses s = statuses_of (split_lines (replace_all s (13 ∷ 10 ∷ []) (10 ∷ [])))

abbrev pub banner_line : Bytes → Bytes
banner_line tail = elim (cut tail (13 ∷ 10 ∷ [])) [
  | some (line, rest) ↦ trim_space line
  | none ↦ elim (cut tail (10 ∷ [])) [
    | some (line, rest) ↦ trim_space line
    | none ↦ trim_space (take 120 tail)
  ]
]

abbrev pub banner_of : Option (Bytes × Bytes) → Bytes
banner_of none = []
banner_of (some (before, tail)) = banner_line tail

-- `extractSSHBanner`.
unfoldable pub extract_ssh_banner : Bytes → Bytes
extract_ssh_banner s = banner_of (cut s ssh_mark)

abbrev pub int_mem : ℤ → List ℤ → Bool
int_mem n ns = any (int_eq n) ns

-- `allowedStatuses`.
unfoldable pub allowed_statuses : List ℤ → List ℤ → Bool
allowed_statuses got allowed = is_empty got || is_empty allowed || all (λ n. int_mem n allowed) got

abbrev pub sni_of : Option TlsCfg → Bytes
sni_of none = []
sni_of (some tls) = tls.server_name

abbrev pub proxy_texts : Option HttpProxyCfg → Bytes × Bytes
proxy_texts none = ([], [])
proxy_texts (some hp) = (hp.host, itoa_int hp.port)

-- The table of `renderPayload`.
abbrev pub replacements : Profile → List (Bytes × Bytes)
replacements p =
    (codes "[crlf]", 13 ∷ 10 ∷ [])
    ∷ (codes "[lf]", 10 ∷ [])
    ∷ (codes "[host]", p.ssh.host)
    ∷ (codes "[port]", itoa_int p.ssh.port)
    ∷ (codes "[ssh_host]", p.ssh.host)
    ∷ (codes "[ssh_port]", itoa_int p.ssh.port)
    ∷ (codes "[sni]", sni_of p.transport.tls)
    ∷ (codes "[proxy_host]", (proxy_texts p.transport.http_proxy).0)
    ∷ (codes "[proxy_port]", (proxy_texts p.transport.http_proxy).1)
    ∷ []

abbrev pub replaced_by : List (Bytes × Bytes) → Bytes → Bytes
replaced_by [] out = out
replaced_by ((k, v) ∷ table) out = replaced_by table (replace_all out k v)

-- `renderPayload`; `order` is the order in which the map is ranged over, which Go leaves open.
unfoldable pub render_payload :
    (List (Bytes × Bytes) → List (Bytes × Bytes)) → Bytes → Profile → Bytes
unfolding replace_from
render_payload order t p = replaced_by (order (replacements p)) t
