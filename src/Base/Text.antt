-- ===== src/Base/Text.antt =====
-- The functions of Go's `strings` package that the program calls, on ASCII text: every byte above
-- 127 stands for itself, and white space is that of ASCII.
use Prim.Native.Nat.{ℕ, ◌+◌}
use mathlib.Core.Bool.{Bool, true, false, ◌&&◌, ◌||◌}
use mathlib.Core.List.{List, [], ◌∷◌, ◌++◌, map, reverse}
use mathlib.Core.Option.{Option, none, some}
use mathlib.Core.Option
use sshcustom_vpnchain.Base.Tests.{leb, ◌==◌, if◌then◌else◌, is_some}
use sshcustom_vpnchain.Base.Lists.{is_empty}
use sshcustom_vpnchain.Base.ByteStrings.{Bytes, str_eq}

abbrev pub is_space : ℕ → Bool
is_space c = (leb 9 c && leb c 13) || c == 32

-- `strings.TrimLeft` with a class of bytes.
unfoldable pub trim_left : (ℕ → Bool) → Bytes → Bytes
trim_left p [] = []
trim_left p (c ∷ s) = let rest = trim_left p s in if p c then rest else c ∷ s

-- `strings.Trim` with a class of bytes.
unfoldable pub trim : (ℕ → Bool) → Bytes → Bytes
unfolding trim_left
trim p s = reverse (trim_left p (reverse (trim_left p s)))

abbrev pub trim_space : Bytes → Bytes
trim_space = trim is_space

abbrev pub lower : ℕ → ℕ
lower c = if leb b'A' c && leb c b'Z' then c + 32 else c

-- `strings.ToLower`.
abbrev pub to_lower : Bytes → Bytes
to_lower = map lower

-- `strings.EqualFold`.
abbrev pub equal_fold : Bytes → Bytes → Bool
equal_fold a b = str_eq (to_lower a) (to_lower b)

-- `strings.HasPrefix`.
abbrev pub has_prefix : Bytes → Bytes → Bool
has_prefix s [] = true
has_prefix [] (c ∷ p) = false
has_prefix (d ∷ s) (c ∷ p) = d == c && has_prefix s p

-- `strings.HasSuffix`: some tail of `s` is `p`.
abbrev pub has_suffix : Bytes → Bytes → Bool
has_suffix [] p = str_eq [] p
has_suffix (c ∷ s) p = str_eq (c ∷ s) p || has_suffix s p

-- `strings.Index`: what stands before the first occurrence of `p`, and what starts with it.
unfoldable pub cut : Bytes → Bytes → Option (Bytes × Bytes)
cut [] p = if is_empty p then some ([], []) else none
cut (c ∷ s) p =
    let later = Option.map (λ (t : Bytes × Bytes). (c ∷ t.0, t.1)) (cut s p) in
    if has_prefix (c ∷ s) p then some ([], c ∷ s) else later

-- `strings.Contains`.
abbrev pub contains : Bytes → Bytes → Bool
contains s p = is_some (cut s p)

-- `strings.Join`.
abbrev pub join : List Bytes → Bytes → Bytes
join [] sep = []
join (x ∷ []) sep = x
join (x ∷ y ∷ xs) sep = x ++ (sep ++ join (y ∷ xs) sep)
