-- ===== src/Dnsx/Ips/Sanitized.antt =====
-- The lists that `SanitizeIPv4List` and `ExtractIPv4s` give.
use sshcustom_vpnchain.Base.{
  ℕ, ◌≤◌, ◌≡◌, refl, ap, ◌∙◌, subst, inl, inr, Bool, true, false, ◌||◌, Option, none, some, List,
  [], ◌∷◌, map, arith, Option-cases, any, Bytes, str_eq, str_eq_iff,
}
use sshcustom_vpnchain.Base.Text.{trim_space}
use sshcustom_vpnchain.Net.Ip.{ipv4_string, ipv4, to4}
use sshcustom_vpnchain.Net.IpClass.{ip_string}
use sshcustom_vpnchain.Net.Ip.{ipv6_string}
use sshcustom_vpnchain.Net.ParseIp.Printed.{parse_ip-ipv4_string}
use sshcustom_vpnchain.Dnsx.{is_member}
use sshcustom_vpnchain.Dnsx.Servers.{is_unique, is_member-append, is_unique-append}
use sshcustom_vpnchain.Dnsx.Ips.{
  append_unique, canonical_ipv4, only_ipv4, unique_onto, collected, sanitize_ipv4_list,
}

abbrev pub is_named : Bytes → Option Bytes → Bool
is_named s none = false
is_named s (some t) = str_eq t s

-- The text stands for this IPv4 address.
abbrev pub names : Bytes → Bytes → Bool
names s text = is_named s (canonical_ipv4 text)

is_unique-append_unique :
    (t : Bytes) (xs : List Bytes) → is_unique xs ≡ true → is_unique (append_unique t xs) ≡ true
is_unique-append_unique t xs u = ground (arith, is_unique-append t xs)

is_member_same :
    (s t : Bytes) (xs : List Bytes)
    → str_eq t s ≡ true
    → is_member t xs ≡ true
    → is_member s xs ≡ true
is_member_same s t xs e m = subst (λ x. is_member x xs ≡ true) (ground (arith, str_eq_iff t s)) m

is_member-append_unique :
    (s t : Bytes) (xs : List Bytes)
    → is_member s (append_unique t xs) ≡ is_member s xs || str_eq t s
is_member-append_unique s t xs = ground (arith, is_member-append s t xs, is_member_same s t xs)

collected-members :
    (out texts : List Bytes) (s : Bytes)
    → is_unique out ≡ true
    → (is_unique (collected out texts) ≡ true)
      × (is_member s (collected out texts) ≡ is_member s out || any (names s) texts)
unfolding collected unique_onto
collected-members out [] s u = (u, ground arith)
collected-members out (text ∷ rest) s u = elim (Option-cases (canonical_ipv4 text)) [
  | inl e ↦ let more = collected-members out rest s u in rw e (more.0, ground (arith, more.1))
  | inr (t, e) ↦
      let more = collected-members (append_unique t out) rest s (is_unique-append_unique t out u) in
      rw e (more.0, ground (arith, more.1, is_member-append_unique s t out))
]

any-map :
    (p : Bytes → Bool) (f : Bytes → Bytes) (xs : List Bytes)
    → any p (map f xs) ≡ any (λ x. p (f x)) xs
any-map p f [] = refl
any-map p f (x ∷ xs) = ground (arith, any-map p f xs)

-- `SanitizeIPv4List` gives each address once, in its plain form, and gives exactly the addresses that
-- an entry of the list stands for, once the entry is trimmed: entries that are no IPv4 address, in
-- dotted or in IPv6 form, leave nothing behind.
pub sanitize_ipv4_list-members :
    (xs : List Bytes) (s : Bytes)
    → (is_unique (sanitize_ipv4_list xs) ≡ true)
      × (is_member s (sanitize_ipv4_list xs) ≡ any (λ x. names s (trim_space x)) xs)
unfolding sanitize_ipv4_list
sanitize_ipv4_list-members xs s =
    let c = collected-members [] (map trim_space xs) s refl in
    (c.0, c.1 ∙ any-map (names s) trim_space xs)

mapped : (a b c d : ℕ) → only_ipv4 (some (ipv4 a b c d)) ≡ some (ipv4_string a b c d)
unfolding only_ipv4 to4 ip_string ipv6_string
mapped a b c d = refl

-- Every address in dotted form stands for itself.
pub names-ipv4_string :
    (a b c d : ℕ)
    → a ≤ 255
    → b ≤ 255
    → c ≤ 255
    → d ≤ 255
    → canonical_ipv4 (ipv4_string a b c d) ≡ some (ipv4_string a b c d)
unfolding canonical_ipv4
names-ipv4_string a b c d ha hb hc hd =
    ap only_ipv4 (parse_ip-ipv4_string a b c d ha hb hc hd) ∙ mapped a b c d
