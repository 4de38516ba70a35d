-- ===== src/Socks/Sound.antt =====
-- `socks5Handshake` accepts nothing but the requests of RFC 1928 that ask for CONNECT.
use sshcustom_vpnchain.Base.{
  ℕ, ◌+◌, ◌*◌, ◌≤◌, ◌<◌, ◌≡◌, refl, inl, inr, false, some, [], ◌∷◌, ◌++◌, arith, ◌==◌, ==_iff,
  Bool-cases, Option-cases, length, Bytes,
}
use sshcustom_vpnchain.Base.Decimal.{itoa}
use sshcustom_vpnchain.Base.Res.{ok}
use sshcustom_vpnchain.Net.Conn.{
  Conn, ◌>>=◌, ◌>>◌, pure, refuse_if, read_full, byte_at, split_at, split_at_sound,
}
use sshcustom_vpnchain.Net.Ip.{ipv4_string, ipv6_string}
use sshcustom_vpnchain.Net.HostPort.{join_host_port}
use sshcustom_vpnchain.Net.Conn.{>>=-eq-ok, read_full_sound, one_byte, two_bytes, four_bytes}
use sshcustom_vpnchain.Socks.{
  read_target, read_v4, read_v6, read_domain, greeting, read_host, request, socks5_handshake,
}
use sshcustom_vpnchain.Socks.Request.{
  Request, Address, v4, domain, v6, encode_address, address_type, encode_request, encode, host_of,
  target, IsAddress, IsRequest,
}

-- A host that was read is that of an address which stood on the stream.
abbrev Reads : ℕ → Conn → Conn → Bytes → Type 0
Reads t c c' host =
    (a : Address) × IsAddress a
    × (address_type a ≡ t)
    × (host_of a ≡ host)
    × (c.input ≡ encode_address a c'.input)
    × (c' ≡ record c { input = c'.input })

read_v4_sound : (c c' : Conn) (host : Bytes) → read_v4 c ≡ (ok host, c') → Reads 1 c c' host
unfolding read_v4
read_v4_sound c c' host h =
    let (buf, d, read, done) =
      >>=-eq-ok (read_full 4)
        (λ buf. pure (ipv4_string (byte_at buf 0) (byte_at buf 1) (byte_at buf 2) (byte_at buf 3)))
        c c' host h in
    let (here, len, same) = read_full_sound 4 c d buf read in
    (
      v4 (byte_at buf 0) (byte_at buf 1) (byte_at buf 2) (byte_at buf 3),
      tt,
      refl,
      ground arith,
      ground (arith, four_bytes buf len),
      ground arith,
    )

read_v6_sound : (c c' : Conn) (host : Bytes) → read_v6 c ≡ (ok host, c') → Reads 4 c c' host
unfolding read_v6
read_v6_sound c c' host h =
    let (buf, d, read, done) =
      >>=-eq-ok (read_full 16) (λ buf. pure (ipv6_string buf)) c c' host h in
    let (here, len, same) = read_full_sound 16 c d buf read in
    (v6 buf, len, refl, ground arith, ground arith, ground arith)

read_domain_sound : (c c' : Conn) (host : Bytes) → read_domain c ≡ (ok host, c') → Reads 3 c c' host
unfolding read_domain
read_domain_sound c c' host h =
    let (buf, d, read, more) =
      >>=-eq-ok (read_full 1) (λ buf. refuse_if (byte_at buf 0 == 0) 0 >> read_full (byte_at buf 0))
        c c' host h in
    let (here, len, same) = read_full_sound 1 c d buf read in
    let (u, d', passed, named) =
      >>=-eq-ok (refuse_if (byte_at buf 0 == 0) 0) (λ u. read_full (byte_at buf 0)) d c' host
        more in
    let (here', len', same') = read_full_sound (byte_at buf 0) d' c' host named in
    (domain host, ground arith, refl, refl, ground (arith, one_byte buf len), ground arith)

read_host_sound :
    (t : ℕ) (c c' : Conn) (host : Bytes) → read_host t c ≡ (ok host, c') → Reads t c c' host
unfolding read_host
read_host_sound t c c' host h = elim (Bool-cases (t == 1)) [
  | inl e ↦ rw ((==_iff t 1).0 e) (read_v4_sound c c' host (rw e at h))
  | inr n1 ↦ elim (Bool-cases (t == 3)) [
    | inl e ↦ rw ((==_iff t 3).0 e) (read_domain_sound c c' host (rw (n1, e) at h))
    | inr n3 ↦ elim (Bool-cases (t == 4)) [
      | inl e ↦ rw ((==_iff t 4).0 e) (read_v6_sound c c' host (rw (n1, n3, e) at h))
      | inr n4 ↦ absurd (ground arith)
    ]
  ]
]

abbrev Greets : Conn → Conn → Type 0
Greets c d =
    (methods : Bytes) × (0 < length methods)
    × (length methods ≤ 255)
    × (c.input ≡ 5 ∷ length methods ∷ (methods ++ d.input))
    × (c.broken ≡ false)
    × (d ≡ record c { input = d.input; output = c.output ++ 5 ∷ 0 ∷ [] })

greeting_sound : (c d : Conn) → greeting c ≡ (ok tt, d) → Greets c d
unfolding greeting
greeting_sound c d h = elim (Option-cases (split_at 2 c.input)) [
  | inl e ↦ absurd (ground (arith, e))
  | inr ((buf, q), e) ↦ elim (Option-cases (split_at (byte_at buf 1) q)) [
    | inl e' ↦ absurd (ground (arith, e, e'))
    | inr ((methods, q'), e') ↦
        let (here, len) = split_at_sound 2 c.input buf q e in
        let (here', len') = split_at_sound (byte_at buf 1) q methods q' e' in
        (
          methods,
          ground arith,
          ground arith,
          ground (arith, two_bytes buf len),
          ground arith,
          ground arith,
        )
  ]
]

request_header :
    (c d : Conn) (t buf q : Bytes)
    → split_at 4 c.input ≡ some (buf, q)
    → request c ≡ (ok t, d)
    → read_target (byte_at buf 3) (record c { input = q }) ≡ (ok t, d)
unfolding request
request_header c d t buf q e h = ground arith

request_facts :
    (c d : Conn) (t buf q : Bytes)
    → split_at 4 c.input ≡ some (buf, q)
    → request c ≡ (ok t, d)
    → (byte_at buf 0 ≡ 5) × (byte_at buf 1 ≡ 1)
unfolding request
request_facts c d t buf q e h = ground arith

request_sound :
    (c d : Conn) (t methods : Bytes)
    → request c ≡ (ok t, d)
    → (r : Request) × (r.methods ≡ methods)
      × IsAddress r.address
      × (target r ≡ t)
      × (c.input ≡ encode_request r d.input)
      × (d ≡ record c { input = d.input })
unfolding read_target
request_sound c d t methods h = elim (Option-cases (split_at 4 c.input)) [
  | inl e ↦ absurd (unfold request in ground (arith, e))
  | inr ((buf, q), e) ↦
      let (version, connect) = request_facts c d t buf q e h in
      let (here, len) = split_at_sound 4 c.input buf q e in
      let (host, c1, read, h1) =
        >>=-eq-ok (read_host (byte_at buf 3))
          (λ host. read_full 2 >>= λ port.
            pure (join_host_port host (itoa (byte_at port 0 * 256 + byte_at port 1))))
          (record c { input = q }) d t (unfold read_target in request_header c d t buf q e h) in
      let (port, c2, read', h2) =
        >>=-eq-ok (read_full 2)
          (λ port. pure (join_host_port host (itoa (byte_at port 0 * 256 + byte_at port 1)))) c1 d t
          h1 in
      let (here', len', same') = read_full_sound 2 c1 c2 port read' in
      let (a, fits, type, name, at, same) =
        read_host_sound (byte_at buf 3) (record c { input = q }) c1 host read in
      (
        record {
          methods = methods;
          reserved = byte_at buf 2;
          address = a;
          port_high = byte_at port 0;
          port_low = byte_at port 1;
        },
        refl,
        fits,
        ground arith,
        ground (arith, four_bytes buf len, two_bytes port len'),
        ground arith,
      )
]

-- The handshake accepts nothing else: when it succeeds, the stream started with the bytes of a
-- well-formed CONNECT request, the result is the host:port text of that request, the connection
-- could be written, and exactly those bytes were consumed and "no authentication" was answered.
pub socks5_handshake_sound :
    (c d : Conn) (t : Bytes)
    → socks5_handshake c ≡ (ok t, d)
    → (r : Request) × IsRequest r
      × (target r ≡ t)
      × (c.input ≡ encode r d.input)
      × (c.broken ≡ false)
      × (d ≡ record c { input = d.input; output = c.output ++ 5 ∷ 0 ∷ [] })
unfolding socks5_handshake
socks5_handshake_sound c d t h =
    let (u, c1, greeted, h1) = >>=-eq-ok greeting (λ _. request) c d t h in
    let (methods, some_method, few, here, writable, same) = greeting_sound c c1 greeted in
    let (r, named, fits, text, at, same') = request_sound c1 d t methods h1 in
    (
      r,
      record { some_method = ground arith; few_methods = ground arith; address_fits = fits },
      text,
      ground arith,
      writable,
      ground arith,
    )
