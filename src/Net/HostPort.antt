-- ===== src/Net/HostPort.antt =====
-- `net.JoinHostPort` and `net.SplitHostPort`.
pub mod Joined
use sshcustom_vpnchain.Base.{
  ℕ, ◌≡◌, refl, Bool, ◌||◌, Option, none, some, [], ◌∷◌, ◌++◌, ◌==◌, if◌then◌else◌, any, Bytes,
  codes,
}

abbrev pub has_byte : ℕ → Bytes → Bool
has_byte c s = any (λ d. d == c) s

-- A host with a colon is bracketed.
unfoldable pub join_host_port : Bytes → Bytes → Bytes
join_host_port host port =
    if has_byte b':' host
    then codes "[" ++ (host ++ (codes "]:" ++ port))
    else host ++ (codes ":" ++ port)

-- What stands before and after the last occurrence of a byte.
unfoldable pub cut_last : ℕ → Bytes → Option (Bytes × Bytes)
cut_last c [] = none
cut_last c (d ∷ s) = extend (cut_last c s)
  where
    extend : Option (Bytes × Bytes) → Option (Bytes × Bytes)
    extend (some (a, b)) = some (d ∷ a, b)
    extend none = if d == c then some ([], s) else none

-- What stands before and after the first occurrence of a byte.
unfoldable pub cut_first : ℕ → Bytes → Option (Bytes × Bytes)
cut_first c [] = none
cut_first c (d ∷ s) = if d == c then some ([], s) else extend (cut_first c s)
  where
    extend : Option (Bytes × Bytes) → Option (Bytes × Bytes)
    extend (some (a, b)) = some (d ∷ a, b)
    extend none = none

-- A host in brackets: `]` must be followed by the last colon, and by no other bracket.
bracketed : Bytes → Option (Bytes × Bytes)
unfolding cut_first
bracketed s = elim (cut_first b']' s) [
  | none ↦ none
  | some (host, after) ↦ elim after [
    | [] ↦ none
    | c ∷ port ↦
        if c == b':'
        then if has_byte b':' port || has_byte b'[' host || has_byte b'[' port || has_byte b']' port
          then none
          else some (host, port)
        else none
  ]
]

plain : Bytes → Option (Bytes × Bytes)
unfolding cut_last
plain s = elim (cut_last b':' s) [
  | none ↦ none
  | some (host, port) ↦
      if has_byte b':' host || has_byte b'[' s || has_byte b']' s then none else some (host, port)
]

-- `net.SplitHostPort`; `none` is its error. The last colon of `[...` text must exist first.
unfoldable pub split_host_port : Bytes → Option (Bytes × Bytes)
unfolding bracketed plain
split_host_port [] = none
split_host_port (c ∷ s) = if c == b'[' then bracketed s else plain (c ∷ s)

split_host_port_test :
    (split_host_port (codes "8.8.8.8:53") ≡ some (codes "8.8.8.8", codes "53"))
    × (split_host_port (codes "8.8.8.8") ≡ none)
    × (split_host_port (codes "::1") ≡ none)
    × (split_host_port (codes "[::1]:53") ≡ some (codes "::1", codes "53"))
    × (split_host_port (codes "[::1]") ≡ none)
unfolding split_host_port
split_host_port_test = (refl, refl, refl, refl, refl)
