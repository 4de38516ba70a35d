-- ===== src/Net/HostPort/Joined.antt =====
-- `net.SplitHostPort` takes apart what `net.JoinHostPort` puts together, for a dotted host.
use sshcustom_vpnchain.Base.{
  ℕ, ◌≡◌, refl, ◌∙◌, Bool, true, false, ◌||◌, none, some, [], ◌∷◌, ◌++◌, arith, ◌==◌, is_empty, all,
  Bytes,
}
use sshcustom_vpnchain.Base.Decimal.{is_digit, itoa, all_digits-itoa}
use sshcustom_vpnchain.Net.Ip.{ipv4_string}
use sshcustom_vpnchain.Net.HostPort.{has_byte, join_host_port, cut_last, plain, split_host_port}
use sshcustom_vpnchain.Base.Decimal.{is_empty-itoa}

abbrev pub is_dotted_byte : ℕ → Bool
is_dotted_byte c = is_digit c || c == b'.'

abbrev is_special : ℕ → Bool
is_special c = c == b':' || (c == b'[' || c == b']')

has_byte-dotted :
    (x : ℕ) (s : Bytes) → is_special x ≡ true → all is_dotted_byte s ≡ true → has_byte x s ≡ false
has_byte-dotted x [] h d = refl
has_byte-dotted x (c ∷ s) h d = ground (arith, has_byte-dotted x s h)

has_byte-append : (x : ℕ) (s t : Bytes) → has_byte x (s ++ t) ≡ has_byte x s || has_byte x t
has_byte-append x [] t = refl
has_byte-append x (c ∷ s) t = ground (arith, has_byte-append x s t)

cut_last-none : (x : ℕ) (s : Bytes) → has_byte x s ≡ false → cut_last x s ≡ none
unfolding cut_last
cut_last-none x [] h = refl
cut_last-none x (c ∷ s) h = ground (arith, cut_last-none x s)

pub cut_last-append :
    (x : ℕ) (s t : Bytes) → has_byte x t ≡ false → cut_last x (s ++ (x ∷ t)) ≡ some (s, t)
unfolding cut_last
cut_last-append x [] t h = ground (arith, cut_last-none x t h)
cut_last-append x (c ∷ s) t h = ground (arith, cut_last-append x s t h)

pub dotted-append :
    (s t : Bytes)
    → all is_dotted_byte s ≡ true
    → all is_dotted_byte t ≡ true
    → all is_dotted_byte (s ++ t) ≡ true
dotted-append [] t h k = k
dotted-append (c ∷ s) t h k = ground (arith, dotted-append s t)

dotted-digits : (s : Bytes) → all is_digit s ≡ true → all is_dotted_byte s ≡ true
dotted-digits [] h = refl
dotted-digits (c ∷ s) h = ground (arith, dotted-digits s)

dotted-itoa : (n : ℕ) → all is_dotted_byte (itoa n) ≡ true
dotted-itoa n = dotted-digits (itoa n) (all_digits-itoa n)

dotted-ipv4_string : (a b c d : ℕ) → all is_dotted_byte (ipv4_string a b c d) ≡ true
unfolding ipv4_string
dotted-ipv4_string a b c d = dotted-append (itoa a) _ (dotted-itoa a) (
    dotted-append (itoa b) _ (dotted-itoa b)
      (dotted-append (itoa c) _ (dotted-itoa c) (dotted-itoa d)))

plain-cut :
    (s host port : Bytes)
    → cut_last b':' s ≡ some (host, port)
    → has_byte b':' host ≡ false
    → has_byte b'[' s ≡ false
    → has_byte b']' s ≡ false
    → plain s ≡ some (host, port)
unfolding plain
plain-cut s host port e no_colon no_open no_close = ground (arith, e)

split-dotted :
    (host port : Bytes)
    → all is_dotted_byte host ≡ true
    → all is_dotted_byte port ≡ true
    → is_empty host ≡ false
    → split_host_port (join_host_port host port) ≡ some (host, port)
unfolding split_host_port join_host_port plain
split-dotted [] port h p f = absurd (ground arith)
split-dotted (c ∷ s) port h p f =
    let no_colon = has_byte-dotted b':' (c ∷ s) refl h in
    let port_colon = has_byte-dotted b':' port refl p in
    let first : c == b'[' ≡ false = ground arith in
    let free : (x : ℕ)
        → is_special x ≡ true
        → b':' == x ≡ false
        → has_byte x (c ∷ (s ++ (b':' ∷ port))) ≡ false =
      λ x special other.
        has_byte-append x (c ∷ s) (b':' ∷ port)
        ∙ ground
            (arith, other, has_byte-dotted x (c ∷ s) special h, has_byte-dotted x port special p) in
    let found = cut_last-append b':' (c ∷ s) port port_colon in
    let whole = c ∷ (s ++ (b':' ∷ port)) in
    rw (no_colon, first)
      (plain-cut whole (c ∷ s) port found no_colon (free b'[' refl refl) (free b']' refl refl))

-- `net.SplitHostPort` on the text of an IPv4 endpoint.
pub split_host_port-join :
    (a b c d port : ℕ)
    → split_host_port (join_host_port (ipv4_string a b c d) (itoa port))
      ≡ some (ipv4_string a b c d, itoa port)
unfolding ipv4_string
split_host_port-join a b c d port =
    split-dotted (ipv4_string a b c d) (itoa port) (dotted-ipv4_string a b c d) (dotted-itoa port)
      (is_empty-itoa a _)
