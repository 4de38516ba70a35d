-- ===== src/Udpgw/Frames.antt =====
-- Frames: `readUDPGWFrame` reads back what `packUDPGW` writes.
use sshcustom_vpnchain.Base.{
  ℕ, ◌+◌, ◌*◌, ◌/◌, ◌%◌, ◌≤◌, ◌<◌, ◌≡◌, refl, ap, subst, inl, inr, some, [], ◌∷◌, ◌++◌, arith,
  Option-cases, length, drop, All, Bytes,
}
use sshcustom_vpnchain.Base.Res.{ok}
use sshcustom_vpnchain.Net.Conn.{Conn, byte_at, split_at-append, split_at}
use sshcustom_vpnchain.Net.Ip.{ipv4, to4, length-to4}
use sshcustom_vpnchain.Udpgw.{pack_udpgw, read_udpgw_frame, Datagram, udpgw_max_payload, put_uint16}
use sshcustom_vpnchain.Udpgw.{uint16_at}
use sshcustom_vpnchain.Net.Conn.{four_bytes}
use sshcustom_vpnchain.Base.{All, drop}
use sshcustom_vpnchain.Net.Conn.{split_at_sound, two_bytes}
use sshcustom_vpnchain.Base.{subst, ◌*◌}
use sshcustom_vpnchain.Base.{length-drop}

pub uint16_at-put : (n : ℕ) (s : Bytes) → n < 65536 → uint16_at (put_uint16 n ++ s) 0 ≡ n
uint16_at-put n s h = omega arith

-- The 16-byte form of four bytes.
abbrev pub widened : Bytes → Bytes
widened ip4 = ipv4 (byte_at ip4 0) (byte_at ip4 1) (byte_at ip4 2) (byte_at ip4 3)

-- Reading a packed frame gives back the address (in its 16-byte form), the port and the payload,
-- consumes exactly the frame and writes nothing: for an IPv4 address, a 16-bit port and a payload
-- within the datagram limit of 65507 bytes.
pub read_udpgw_frame-pack :
    (c : Conn) (ip a4 payload rest : Bytes) (port : ℕ)
    → to4 ip ≡ some a4
    → port < 65536
    → length payload ≤ udpgw_max_payload
    → c.input ≡ pack_udpgw ip port payload ++ rest
    → read_udpgw_frame c
      ≡ (ok (record { ip = widened a4; port = port; payload = payload }), record c { input = rest })
unfolding read_udpgw_frame pack_udpgw
read_udpgw_frame-pack c ip a4 payload rest port v4 p l e =
    let len = length-to4 ip a4 v4 in
    let frame : Bytes =
      1
      ∷ byte_at a4 0
      ∷ byte_at a4 1
      ∷ byte_at a4 2
      ∷ byte_at a4 3
      ∷ (port / 256 % 256)
      ∷ (port % 256)
      ∷ payload in
    let total : length frame ≡ 7 + length payload = omega arith in
    let stream : c.input ≡ put_uint16 (7 + length payload) ++ (frame ++ rest) =
      ground (arith, four_bytes a4 len) in
    ground (
      arith,
      uint16_at-put (7 + length payload) [],
      uint16_at-put port [],
      split_at-append frame rest,
    )

pub put_uint16-at : (h l : ℕ) → h < 256 → l < 256 → put_uint16 (h * 256 + l) ≡ h ∷ l ∷ []
put_uint16-at h l p q = ground arith

seven_bytes :
    (s : Bytes)
    → 7 ≤ length s
    → s
      ≡ byte_at s 0
        ∷ byte_at s 1
        ∷ byte_at s 2
        ∷ byte_at s 3
        ∷ byte_at s 4
        ∷ byte_at s 5
        ∷ byte_at s 6
        ∷ drop 7 s
seven_bytes (a ∷ b ∷ c ∷ d ∷ e ∷ f ∷ g ∷ s) h = refl
seven_bytes _ h = ground arith

pub All-left : (P : ℕ → Type 0) (xs ys : Bytes) → All P (xs ++ ys) → All P xs × All P ys
All-left P [] ys h = (tt, h)
All-left P (x ∷ xs) ys h = let (l, r) = All-left P xs ys h.1 in ((h.0, l), r)

-- What the reader checked and returned, once both of its reads have succeeded.
read_facts :
    (c c' : Conn) (d : Datagram) (hdr q frame q' : Bytes)
    → split_at 2 c.input ≡ some (hdr, q)
    → split_at (uint16_at hdr 0) q ≡ some (frame, q')
    → read_udpgw_frame c ≡ (ok d, c')
    → (7 ≤ uint16_at hdr 0)
      × (uint16_at hdr 0 ≤ 7 + udpgw_max_payload)
      × (byte_at frame 0 ≡ 1)
      × (d.ip ≡ ipv4 (byte_at frame 1) (byte_at frame 2) (byte_at frame 3) (byte_at frame 4))
      × (d.port ≡ uint16_at frame 5)
      × (d.payload ≡ drop 7 frame)
      × (c' ≡ record c { input = q' })
unfolding read_udpgw_frame
read_facts c c' d hdr q frame q' e e' h = ground arith

-- A frame whose parts are known is the packed one.
pack_of_parts :
    (d : Datagram) (h l p0 p1 a b x y : ℕ)
    → h < 256
    → l < 256
    → p0 < 256
    → p1 < 256
    → h * 256 + l ≡ 7 + length d.payload
    → d.ip ≡ ipv4 a b x y
    → d.port ≡ p0 * 256 + p1
    → pack_udpgw d.ip d.port d.payload ≡ h ∷ l ∷ 1 ∷ a ∷ b ∷ x ∷ y ∷ p0 ∷ p1 ∷ d.payload
unfolding pack_udpgw to4
pack_of_parts d h l p0 p1 a b x y h< l< p0< p1< total at port =
    rw (at, port, ← total) (ground arith)

-- Conversely, whatever is read was such a frame: the bytes consumed are those that packing the
-- result gives, and the payload is within the limit (the stream being one of bytes below 256).
pub read_udpgw_frame_sound :
    (c c' : Conn) (d : Datagram)
    → All (λ b. b < 256) c.input
    → read_udpgw_frame c ≡ (ok d, c')
    → (c.input ≡ pack_udpgw d.ip d.port d.payload ++ c'.input)
      × (length d.payload ≤ udpgw_max_payload)
      × (c' ≡ record c { input = c'.input })
read_udpgw_frame_sound c c' d small h = elim (Option-cases (split_at 2 c.input)) [
  | inl e ↦ absurd (unfold read_udpgw_frame in ground (arith, e))
  | inr ((hdr, q), e) ↦ elim (Option-cases (split_at (uint16_at hdr 0) q)) [
    | inl e' ↦ absurd (unfold read_udpgw_frame in ground (arith, e, e'))
    | inr ((frame, q'), e') ↦
        let (here, len) = split_at_sound 2 c.input hdr q e in
        let (here', len') = split_at_sound (uint16_at hdr 0) q frame q' e' in
        let (least, most, kind, at, port, load, same) = read_facts c c' d hdr q frame q' e e' h in
        let shape = seven_bytes frame (omega arith) in
        let (small_hdr, small_q) =
          All-left (λ b. b < 256) hdr q (subst (All (λ b. b < 256)) here small) in
        let (small_frame, _) =
          All-left (λ b. b < 256) frame q' (subst (All (λ b. b < 256)) here' small_q) in
        let (s0, rest_hdr) = subst (All (λ b. b < 256)) (two_bytes hdr len) small_hdr in
        let fields = subst (All (λ b. b < 256)) shape small_frame in
        let load_length = ap length load in
        let total : byte_at hdr 0 * 256 + byte_at hdr 1 ≡ 7 + length d.payload =
          omega (arith, length-drop 7 frame) in
        let left : c'.input ≡ q' = ap (λ (k : Conn). k.input) same in
        let packed =
          pack_of_parts d (byte_at hdr 0) (byte_at hdr 1) (byte_at frame 5) (byte_at frame 6)
            (byte_at frame 1) (byte_at frame 2) (byte_at frame 3) (byte_at frame 4) s0 rest_hdr.0
            fields.1.1.1.1.1.0 fields.1.1.1.1.1.1.0 total at port in
        (ground arith, omega arith, ground arith)
  ]
]
