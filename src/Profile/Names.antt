-- ===== src/Profile/Names.antt =====
-- main.go: `slugify` and `uniqueProfileID`.
use sshcustom_vpnchain.Base.{
  ℕ, zero, suc, ◌+◌, Bool, true, false, ◌&&◌, ◌||◌, Option, none, some, List, [], ◌∷◌, ◌++◌, leb,
  ◌==◌, if◌then◌else◌, is_empty, any, Bytes, codes, str_eq,
}
use sshcustom_vpnchain.Base.Text.{trim, trim_space, to_lower}
use sshcustom_vpnchain.Base.Decimal.{itoa}
use sshcustom_vpnchain.Profile.Data.{Profile}

abbrev pub is_dash : ℕ → Bool
is_dash c = c == b'-'

-- `(r >= 'a' && r <= 'z') || (r >= '0' && r <= '9')`.
abbrev pub is_slug_char : ℕ → Bool
is_slug_char c = (leb b'a' c && leb c b'z') || (leb b'0' c && leb c b'9')

-- What the loop of `slugify` writes; the flag is `lastDash`.
unfoldable pub slug_chars : Bool → Bytes → Bytes
slug_chars last_dash [] = []
slug_chars last_dash (c ∷ s) =
    let kept = c ∷ slug_chars false s in
    let skipped = slug_chars true s in
    if is_slug_char c then kept else if last_dash then skipped else b'-' ∷ skipped

-- `slugify`.
unfoldable pub slugify : Bytes → Bytes
unfolding slug_chars trim
slugify s = trim is_dash (slug_chars false (to_lower (trim_space s)))

-- `used[id]`.
abbrev pub used : Bytes → List Profile → Bool
used id ps = any (λ (p : Profile). str_eq p.id id) ps

abbrev pub numbered : Bytes → ℕ → Bytes
numbered base i = base ++ (codes "-" ++ itoa i)

-- `for i := 2; i < 10000; i++`, from `i` on, with the rounds that are left; `none` when it runs out.
unfoldable pub first_free : ℕ → ℕ → Bytes → List Profile → Option Bytes
first_free zero i base ps = none
first_free (suc rounds) i base ps =
    let later = first_free rounds (i + 1) base ps in
    if used (numbered base i) ps then later else some (numbered base i)

unfoldable pub or_stamped : Bytes → ℕ → Option Bytes → Bytes
or_stamped base now (some id) = id
or_stamped base now none = numbered base now

abbrev pub slug_base : Bytes → Bytes
slug_base base =
    let slug = trim is_dash (slugify base) in if is_empty slug then codes "profile" else slug

-- `uniqueProfileID`; `now` is `time.Now().Unix()`.
unfoldable pub unique_profile_id : List Profile → Bytes → ℕ → Bytes
unfolding slugify first_free or_stamped itoa
unique_profile_id ps base now =
    let id = slug_base base in
    let other = or_stamped id now (first_free 9998 2 id ps) in if used id ps then other else id
