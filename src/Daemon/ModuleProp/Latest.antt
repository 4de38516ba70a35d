-- ===== src/Daemon/ModuleProp/Latest.antt =====
-- The file always shows the latest status, and nothing else of it changes.
use sshcustom_vpnchain.Base.{
  ℕ, ◌≡◌, refl, ap, ◌∙◌, ◌≢◌, inl, inr, Bool, true, false, not, ◌&&◌, Option, none, some, List, [],
  ◌∷◌, ◌++◌, arith, ◌==◌, Bool-cases, Option-cases, is_empty, all, Bytes, codes, str_eq,
}
use sshcustom_vpnchain.Base.Text.{has_prefix, join}
use sshcustom_vpnchain.Transport.{split_lines, first_onto}
use sshcustom_vpnchain.Daemon.ModuleProp.{
  marker, description, replace_line, Saved, store_lines, update_module_prop,
}
use sshcustom_vpnchain.Daemon.ModuleProp.{kept_before}

-- No line feed within.
abbrev pub is_line : Bytes → Bool
is_line l = all (λ c. not (c == 10)) l

split_lines-append :
    (l s : Bytes) → is_line l ≡ true → split_lines (l ++ (10 ∷ s)) ≡ l ∷ split_lines s
unfolding split_lines
split_lines-append [] s h = refl
split_lines-append (c ∷ l) s h =
    let inside : c == 10 ≡ false = ground arith in
    rw inside (ap (first_onto c) (split_lines-append l s (ground arith)))

split_lines-line : (l : Bytes) → is_line l ≡ true → split_lines l ≡ l ∷ []
unfolding split_lines
split_lines-line [] h = refl
split_lines-line (c ∷ l) h =
    let inside : c == 10 ≡ false = ground arith in
    rw inside (ap (first_onto c) (split_lines-line l (ground arith)))

split_lines-join :
    (l : Bytes) (ls : List Bytes)
    → all is_line (l ∷ ls) ≡ true
    → split_lines (join (l ∷ ls) (codes "\n")) ≡ l ∷ ls
split_lines-join l [] h = split_lines-line l (ground arith)
split_lines-join l (m ∷ ls) h =
    split_lines-append l (join (m ∷ ls) (codes "\n")) (ground arith)
    ∙ ap (◌∷◌ l) (split_lines-join m ls (ground arith))

-- A list that `join` and `split_lines` take to text and back.
abbrev are_lines : List Bytes → Bool
are_lines ls = not (is_empty ls) && all is_line ls

are_lines-first_onto :
    (c : ℕ) (ls : List Bytes)
    → c == 10 ≡ false
    → are_lines ls ≡ true
    → are_lines (first_onto c ls) ≡ true
are_lines-first_onto c [] h k = absurd (ground arith)
are_lines-first_onto c (l ∷ ls) h k = ground arith

are_lines-split_lines : (s : Bytes) → are_lines (split_lines s) ≡ true
unfolding split_lines
are_lines-split_lines [] = refl
are_lines-split_lines (c ∷ s) = elim (Bool-cases (c == 10)) [
  | inl feed ↦ rw feed (ground (arith, are_lines-split_lines s))
  | inr inside ↦ rw inside (are_lines-first_onto c (split_lines s) inside (are_lines-split_lines s))
]

split_lines-are_lines :
    (ls : List Bytes) → are_lines ls ≡ true → split_lines (join ls (codes "\n")) ≡ ls
split_lines-are_lines [] h = absurd (ground arith)
split_lines-are_lines (l ∷ ls) h = split_lines-join l ls (ground arith)

-- A replaced description is replaced again in the same place.
replaced-facts :
    (d e : Bytes) (ls out : List Bytes)
    → is_line d ≡ true
    → has_prefix d marker ≡ true
    → all is_line ls ≡ true
    → replace_line d ls ≡ some out
    → (are_lines out ≡ true) × (replace_line e out ≡ replace_line e ls)
unfolding replace_line
replaced-facts d e [] out hd pd h r = absurd (ground arith)
replaced-facts d e (l ∷ ls) out hd pd h r = elim (Bool-cases (has_prefix l marker)) [
  | inl here ↦
      let same : out ≡ d ∷ ls = ground (arith, here) in rw (same, here, pd) (ground arith, refl)
  | inr there ↦ elim (Option-cases (replace_line d ls)) [
    | inl nothing ↦ absurd (ground (arith, there, nothing))
    | inr (rest, found) ↦
        let same : out ≡ l ∷ rest = ground (arith, there, found) in
        let more = replaced-facts d e ls rest hd pd (ground arith) found in
        rw (same, there) (ground (arith, more.0), ap (kept_before l) more.1)
  ]
]

description-fits :
    (status : Bytes) → is_line (description status) && has_prefix (description status) marker ≡ true
unfolding description
description-fits status = elim (Bool-cases (str_eq status (codes "running"))) [
  | inl on ↦ rw on refl
  | inr off ↦ elim (Bool-cases (str_eq status (codes "standby"))) [
    | inl waits ↦ rw (off, waits) refl
    | inr ended ↦ rw (off, ended) refl
  ]
]

-- An earlier update leaves no trace for the lines that a later one writes.
earlier :
    (how : Saved) (status : Bytes) (e text : Bytes) (found : Option (List Bytes))
    → replace_line (description status) (split_lines text) ≡ found
    → replace_line e (split_lines (store_lines how text found)) ≡ replace_line e (split_lines text)
unfolding store_lines
earlier how status e text none h = refl
earlier how status e text (some out) h =
    let facts =
      replaced-facts (description status) e (split_lines text) out
        (ground (arith, description-fits status)) (ground (arith, description-fits status))
        (ground (arith, are_lines-split_lines text)) h in
    elim (Bool-cases (how.written && how.renamed)) [
      | inl saved ↦ rw saved (ap (replace_line e) (split_lines-are_lines out facts.0) ∙ facts.1)
      | inr failed ↦ rw failed refl
    ]

store-earlier :
    (how : Saved) (text other : Bytes) (found : Option (List Bytes))
    → how.written && how.renamed ≡ true
    → found ≢ none
    → store_lines how text found ≡ store_lines how other found
unfolding store_lines
store-earlier how text other none h filled = absurd (filled refl)
store-earlier how text other (some out) h filled = rw h refl

-- `updateModuleProp` keeps no history: on a file that has a description, an update whose write and
-- rename succeed gives the same file whether another update, for any status and with any outcome, came
-- before it or not. So the file shows the latest status that could be saved, and never a mixture.
pub update_module_prop-update_module_prop :
    (first how : Saved) (earlier_status status text : Bytes)
    → how.written && how.renamed ≡ true
    → replace_line (description status) (split_lines text) ≢ none
    → update_module_prop how status (update_module_prop first earlier_status text)
      ≡ update_module_prop how status text
unfolding update_module_prop
update_module_prop-update_module_prop first how earlier_status status text saved present =
    let d = description status in
    let old = replace_line (description earlier_status) (split_lines text) in
    let text1 = store_lines first text old in
    let same : replace_line d (split_lines text1) ≡ replace_line d (split_lines text) =
      earlier first earlier_status d text old refl in
    ap (store_lines how text1) same
    ∙ store-earlier how text1 text (replace_line d (split_lines text)) saved present
