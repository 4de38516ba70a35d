-- ===== src/Dnsx/Evict.antt =====
-- What is evicted is looked up again, and nothing else is.
use sshcustom_vpnchain.Base.{
  ℕ, ◌≡◌, refl, sym, ap, ◌∙◌, inl, inr, true, false, none, [], ◌∷◌, ◌++◌, append_assoc, arith,
  if◌then◌else◌, Bool-cases, is_empty, Bytes, codes, str_eq, str_eq_iff, str_eq_refl,
}
use sshcustom_vpnchain.Base.Text.{has_suffix, join}
use sshcustom_vpnchain.Base.Assoc.{find}
use sshcustom_vpnchain.Dnsx.{
  CacheEntry, Cache, DnsConfig, normalize_servers, normal_host, cache_key, evict_host,
}
use sshcustom_vpnchain.Net.HostPort.{has_byte}
use sshcustom_vpnchain.Base.Assoc.{find-remove_if}

has_suffix-append : (xs p : Bytes) → has_suffix (xs ++ p) p ≡ true
has_suffix-append [] [] = refl
has_suffix-append [] (c ∷ p) = ground (arith, str_eq_refl (c ∷ p))
has_suffix-append (x ∷ xs) p = ground (arith, has_suffix-append xs p)

has_suffix_split : (s p : Bytes) → has_suffix s p ≡ true → (xs : Bytes) × (s ≡ xs ++ p)
has_suffix_split [] p h = ([], ground (arith, str_eq_iff [] p))
has_suffix_split (c ∷ s) p h = elim (Bool-cases (str_eq (c ∷ s) p)) [
  | inl whole ↦ ([], ground (arith, str_eq_iff (c ∷ s) p))
  | inr part ↦ let rest = has_suffix_split s p (ground arith) in (c ∷ rest.0, ap (◌∷◌ c) rest.1)
]

has_byte-append : (c : ℕ) (xs s : Bytes) → has_byte c (xs ++ (c ∷ s)) ≡ true
has_byte-append c [] s = ground arith
has_byte-append c (x ∷ xs) s = ground (arith, has_byte-append c xs s)

-- What stands behind the last bar of a text is determined.
last_part :
    (xs ys s t : Bytes) (c : ℕ)
    → has_byte c s ≡ false
    → has_byte c t ≡ false
    → xs ++ (c ∷ s) ≡ ys ++ (c ∷ t)
    → s ≡ t
last_part [] [] s t c hs ht e = cc
last_part [] (y ∷ ys) s t c hs ht e =
    let inner : s ≡ ys ++ (c ∷ t) = cc in
    absurd (ground (arith, has_byte-append c ys t, ap (has_byte c) inner))
last_part (x ∷ xs) [] s t c hs ht e =
    let inner : xs ++ (c ∷ s) ≡ t = cc in
    absurd (ground (arith, has_byte-append c xs s, ap (has_byte c) inner))
last_part (x ∷ xs) (y ∷ ys) s t c hs ht e = last_part xs ys s t c hs ht cc

cache_key-suffix :
    (cfg : DnsConfig) (host : Bytes)
    → (xs : Bytes) × (cache_key cfg host ≡ xs ++ (codes "|" ++ host))
unfolding cache_key
cache_key-suffix cfg host =
    let servers = join (normalize_servers cfg.servers) (codes ",") in
    (
      cfg.mode ++ (codes "|" ++ servers),
      sym (append_assoc cfg.mode (codes "|" ++ servers) (codes "|" ++ host)),
    )

evicts_itself :
    (cfg : DnsConfig) (host other : Bytes)
    → str_eq other host ≡ true
    → has_suffix (cache_key cfg other) (codes "|" ++ host) ≡ false
    → ⊥
evicts_itself cfg host other same kept =
    let parts = cache_key-suffix cfg other in
    let equal : other ≡ host = ground (arith, str_eq_iff other host) in
    let shown : has_suffix (cache_key cfg other) (codes "|" ++ other) ≡ true =
      ap (λ k. has_suffix k (codes "|" ++ other)) parts.1
      ∙ has_suffix-append parts.0 (codes "|" ++ other) in
    let both : true ≡ false =
      sym shown ∙ ap (λ x. has_suffix (cache_key cfg other) (codes "|" ++ x)) equal ∙ kept in
    ground arith

is_evicted :
    (cfg : DnsConfig) (host other : Bytes)
    → has_byte b'|' host ≡ false
    → has_byte b'|' other ≡ false
    → has_suffix (cache_key cfg other) (codes "|" ++ host) ≡ str_eq other host
is_evicted cfg host other h o =
    let parts = cache_key-suffix cfg other in
    elim (Bool-cases (has_suffix (cache_key cfg other) (codes "|" ++ host))) [
      | inl gone ↦
          let tail = has_suffix_split (cache_key cfg other) (codes "|" ++ host) gone in
          let same : other ≡ host =
            last_part parts.0 tail.0 other host b'|' o h (sym parts.1 ∙ tail.1) in
          gone ∙ sym (ap (λ x. str_eq x host) same ∙ str_eq_refl host)
      | inr kept ↦ elim (Bool-cases (str_eq other host)) [
        | inl same ↦ absurd (evicts_itself cfg host other same kept)
        | inr differ ↦ kept ∙ sym differ
      ]
    ]

-- Evicting a host removes the entries of that host, under every mode and list of servers, and no
-- entry of another host (where neither name has a bar in it).
pub find-evict_host :
    (entries : Cache) (cfg : DnsConfig) (given other : Bytes)
    → is_empty (normal_host given) ≡ false
    → has_byte b'|' (normal_host given) ≡ false
    → has_byte b'|' other ≡ false
    → find (cache_key cfg other) (evict_host entries given)
      ≡ (if str_eq other (normal_host given) then none else find (cache_key cfg other) entries)
unfolding evict_host
find-evict_host entries cfg given other named h o =
    let host = normal_host given in
    let suffix = codes "|" ++ host in
    rw named (
      find-remove_if {V = CacheEntry} (λ (k : Bytes). has_suffix k suffix) (cache_key cfg other)
        entries
      ∙ rw (is_evicted cfg host other h o) refl)
