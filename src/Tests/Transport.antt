-- ===== src/Tests/Transport.antt =====
-- Examples for the transport; the last ones are those of main_test.go.
use sshcustom_vpnchain.Base.{
  ◌≡◌, refl, true, false, none, some, List, [], ◌∷◌, ◌++◌, pos, Bytes, codes,
}
use sshcustom_vpnchain.Base.Text.{cut, trim, trim_left}
use sshcustom_vpnchain.Base.Res.{ok}
use sshcustom_vpnchain.Profile.Data.{Profile}
use sshcustom_vpnchain.Profile.Transport.{
  build_transport, uses_http_proxy, uses_tls, dial_endpoint, filled_payload,
}
use sshcustom_vpnchain.Transport.{
  Read, chunk, bytes_of, ssh_mark, allowed_statuses, read_probe, probe_onto, extract_http_statuses,
  extract_ssh_banner, split_lines, fields_onto, replace_from,
}
use sshcustom_vpnchain.Transport.Open.{
  Way, Prepared, open_prepared_ssh_conn, through_proxy, through_tls, payload_stage, judged,
  with_response,
}
use sshcustom_vpnchain.Transport.Stream.{open_prepared_ssh_conn_stream, secured_stream}
use sshcustom_vpnchain.Tests.Data.{home, home_ssh, no_payload}
use sshcustom_vpnchain.Base.Decimal.{atoi, digits_value}
use sshcustom_vpnchain.Base.{
  ℕ, ◌≤◌, ◌≡◌, take, drop, false, length, length-take, arith, Bytes, [], ◌∷◌, ◌++◌, codes,
}
use sshcustom_vpnchain.Transport.Prefix.{
  Reader, PrefixConn, prefix_read, prefix_reads, stream_of, take-drop-append,
  prefix_reads-stream_of,
}

-- A profile with a payload, and a server that answers it with a status and a banner in pieces.
abbrev pub with_payload : Profile
with_payload = record home {
  transport =
      build_transport (codes "direct") (record no_payload { enabled = true; read_response = true })
        none none home_ssh;
}

abbrev pub in_pieces : Way
in_pieces = record {
  tcp_up = true;
  reads = chunk (codes "HTTP/1.1 200 OK\nSS") ∷ chunk (codes "H-2.0-x\n") ∷ chunk (1 ∷ 2 ∷ []) ∷ [];
  connect_written = true;
  tls_up = true;
  tls_reads = [];
  payload_written = true;
  order = λ table. table;
}

abbrev prepared : Prepared
prepared = record {
  prefix = codes "SSH-2.0-x\n";
  reads = chunk (1 ∷ 2 ∷ []) ∷ [];
  banner = codes "SSH-2.0-x";
  statuses = pos 200 ∷ [];
  evicted = [];
}

open_prepared_ssh_conn_stream_example :
    (secured : List Read) × (before : Bytes) × (secured_stream with_payload in_pieces ≡ ok secured)
    × (cut (bytes_of secured) ssh_mark ≡ some (before, codes "SSH-2.0-x\n" ++ (1 ∷ 2 ∷ [])))
    × (allowed_statuses (pos 200 ∷ []) with_payload.transport.payload.allow_statuses ≡ true)
unfolding open_prepared_ssh_conn dial_endpoint uses_http_proxy build_transport uses_tls
    through_proxy through_tls payload_stage judged with_response read_probe probe_onto
    extract_http_statuses extract_ssh_banner split_lines fields_onto replace_from atoi digits_value
    cut trim trim_left allowed_statuses filled_payload
open_prepared_ssh_conn_stream_example =
    open_prepared_ssh_conn_stream with_payload in_pieces prepared refl refl

statuses_test :
    (extract_http_statuses (codes "no http here") ≡ [])
    × (extract_http_statuses (codes "HTTP/1.1 302 Found\r\n\r\nHTTP/1.1 200 OK\r\n")
        ≡ pos 302 ∷ pos 200 ∷ [])
    × (extract_http_statuses (codes "Server: nginx\r\nHTTP/1.1 101 Switching Protocols\r\n")
        ≡ pos 101 ∷ [])
    × (extract_http_statuses (codes "HTTP/1.1 abc OK\r\nHTTP/1.1 200 OK\r\n") ≡ pos 200 ∷ [])
unfolding extract_http_statuses split_lines fields_onto replace_from atoi digits_value trim
    trim_left
statuses_test = (refl, refl, refl, refl)

banner_test :
    (extract_ssh_banner (codes "no banner here") ≡ [])
    × (extract_ssh_banner (codes "SSH-2.0-OpenSSH_8.4\r\n") ≡ codes "SSH-2.0-OpenSSH_8.4")
    × (extract_ssh_banner (codes "HTTP/1.1 200 OK\r\nSSH-2.0-dropbear\n")
        ≡ codes "SSH-2.0-dropbear")
unfolding extract_ssh_banner cut trim trim_left
banner_test = (refl, refl, refl)

allowed_test :
    (allowed_statuses [] (pos 200 ∷ []) ≡ true)
    × (allowed_statuses (pos 200 ∷ []) [] ≡ true)
    × (allowed_statuses (pos 200 ∷ pos 302 ∷ []) (pos 200 ∷ pos 302 ∷ pos 101 ∷ []) ≡ true)
    × (allowed_statuses (pos 200 ∷ pos 500 ∷ []) (pos 200 ∷ pos 302 ∷ []) ≡ false)
unfolding allowed_statuses
allowed_test = (refl, refl, refl, refl)

-- A connection that gives as much as is asked for.
abbrev willing : Reader Bytes
willing = record {
  read = λ n s. (take n s, false, drop n s);
  to_come = λ s. s;
  read-within = λ n s. omega (arith, length-take n s);
  read-to_come = λ n s. take-drop-append n s;
}

abbrev ahead : PrefixConn Bytes
ahead = record { prefix = codes "SSH-2.0-x\n"; conn = codes "more" }

prefix_reads-stream_of_example :
    (stream_of willing ahead
      ≡ (prefix_reads willing (4 ∷ 9 ∷ 2 ∷ []) ahead).0
        ++ stream_of willing (prefix_reads willing (4 ∷ 9 ∷ 2 ∷ []) ahead).1)
    × ((n : ℕ) (d : PrefixConn Bytes) → length (prefix_read willing n d).0 ≤ n)
prefix_reads-stream_of_example = prefix_reads-stream_of willing (4 ∷ 9 ∷ 2 ∷ []) ahead
