-- ===== src/Daemon/ModuleProp/Watch.antt =====
-- main.go, in `run`: the goroutine that follows the state and keeps module.prop in step with it,
-- with at most one write in three seconds. Times are nanoseconds, and `none` is Go's zero time.
use sshcustom_vpnchain.Base.{
  ℕ, ◌+◌, ◌≡◌, refl, sym, ap, ◌∙◌, subst, ◌≢◌, ◌⊎◌, inl, inr, Bool, true, false, not, ◌&&◌, Option,
  none, some, List, [], ◌∷◌, arith, ltb, if◌then◌else◌, Bool-cases, Option-cases, any, all, Bytes,
  codes, str_eq, str_eq_iff,
}
use sshcustom_vpnchain.Transport.{split_lines}
use sshcustom_vpnchain.Engine.State.{State, StateName, paused_no_network}
use sshcustom_vpnchain.Daemon.ModuleProp.{
  marker, description, replace_line, Saved, store_lines, update_module_prop,
}
use sshcustom_vpnchain.Daemon.ModuleProp.Latest.{update_module_prop-update_module_prop}
use sshcustom_vpnchain.Base.Text.{has_prefix}

abbrev is_paused : StateName → Bool
is_paused paused_no_network = true
is_paused _ = false

-- The status that the goroutine reads off the state.
unfoldable pub status_name : State → Bytes
status_name st =
    if st.connected && st.ssh_authenticated
    then codes "running"
    else if st.running && is_paused st.state
    then codes "standby"
    else if st.running
    then codes "running"
    else codes "disconnected"

-- The goroutine's variables, and the text of module.prop.
pub record PropWatch : Type 0 where
  pub last_status : Bytes
  pub last_write : Option ℕ
  pub text : Bytes

-- A notification: when it is received, the state that is then read, and how a write would end.
pub record Seen : Type 0 where
  pub now : ℕ
  pub st : State
  pub how : Saved

-- `time.Since(lastWrite) > 3*time.Second`.
unfoldable pub has_waited : ℕ → Option ℕ → Bool
has_waited now none = true
has_waited now (some last) = ltb (last + 3000000000) now

unfoldable pub prop_seen : PropWatch → Seen → PropWatch
prop_seen w e =
    if not (str_eq (status_name e.st) w.last_status) && has_waited e.now w.last_write
    then record {
      last_status = status_name e.st;
      last_write = some e.now;
      text = update_module_prop e.how (status_name e.st) w.text;
    }
    else w

unfoldable pub prop_run : PropWatch → List Seen → PropWatch
prop_run w [] = w
prop_run w (e ∷ es) = prop_run (prop_seen w e) es

abbrev pub prop_start : Bytes → PropWatch
prop_start text = record { last_status = []; last_write = none; text = text }

abbrev pub is_saved : Seen → Bool
is_saved e = e.how.written && e.how.renamed

abbrev pub is_earlier : ℕ → Seen → Bool
is_earlier now e = ltb (e.now + 3000000000) now

has_waited-run :
    (now : ℕ) (w : PropWatch) (es : List Seen)
    → has_waited now w.last_write ≡ true
    → all (is_earlier now) es ≡ true
    → has_waited now (prop_run w es).last_write ≡ true
unfolding prop_run prop_seen has_waited
has_waited-run now w [] h k = h
has_waited-run now w (e ∷ es) h k =
    elim (Bool-cases
      (not (str_eq (status_name e.st) w.last_status) && has_waited e.now w.last_write)) [
        | inl due ↦ has_waited-run now (prop_seen w e) es (rw due (ground arith)) (ground arith)
        | inr held ↦ has_waited-run now (prop_seen w e) es (rw held h) (ground arith)
      ]

abbrev pub done : Saved
done = record { written = true; renamed = true }

-- The file as one update with the last status leaves it, or untouched.
abbrev Shows : Bytes → PropWatch → Type 0
Shows text w =
    ((w.last_status ≡ []) × (w.text ≡ text)) ⊎ (w.text ≡ update_module_prop done w.last_status text)

status_name-filled : (st : State) → str_eq (status_name st) [] ≡ false
unfolding status_name
status_name-filled st = elim (Bool-cases (st.connected && st.ssh_authenticated)) [
  | inl up ↦ rw up refl
  | inr down ↦ elim (Bool-cases (st.running && is_paused st.state)) [
    | inl paused ↦ rw (down, paused) refl
    | inr busy ↦ elim (Bool-cases st.running) [
      | inl runs ↦ rw (down, busy, runs) refl
      | inr ended ↦ rw (down, busy, ended) refl
    ]
  ]
]

abbrev pub has_description : Bytes → Bool
has_description text = any (λ l. has_prefix l marker) (split_lines text)

replace_line-finds :
    (d : Bytes) (ls : List Bytes)
    → any (λ l. has_prefix l marker) ls ≡ true
    → replace_line d ls ≢ none
unfolding replace_line
replace_line-finds d [] h = absurd (ground arith)
replace_line-finds d (l ∷ ls) h = elim (Bool-cases (has_prefix l marker)) [
  | inl here ↦ rw here (λ e. absurd (ground arith))
  | inr there ↦ elim (Option-cases (replace_line d ls)) [
    | inl nothing ↦ absurd (replace_line-finds d ls (ground (arith, there)) nothing)
    | inr (rest, found) ↦ rw (there, found) (λ e. absurd (ground arith))
  ]
]

store-done :
    (how : Saved) (text : Bytes) (found : Option (List Bytes))
    → how.written && how.renamed ≡ true
    → store_lines how text found ≡ store_lines done text found
unfolding store_lines
store-done how text none saved = refl
store-done how text (some lines) saved = rw saved refl

update-done :
    (how : Saved) (status text : Bytes)
    → how.written && how.renamed ≡ true
    → update_module_prop how status text ≡ update_module_prop done status text
unfolding update_module_prop
update-done how status text saved =
    store-done how text (replace_line (description status) (split_lines text)) saved

-- A write that succeeds leaves the file as one update of the first text does.
update-Shows :
    (how : Saved) (text status : Bytes) (w : PropWatch)
    → how.written && how.renamed ≡ true
    → has_description text ≡ true
    → Shows text w
    → update_module_prop how status w.text ≡ update_module_prop done status text
update-Shows how text status w saved present (inl (none_yet, same)) =
    update-done how status w.text saved ∙ ap (update_module_prop done status) same
update-Shows how text status w saved present (inr same) =
    update-done how status w.text saved
    ∙ ap (update_module_prop done status) same
    ∙ update_module_prop-update_module_prop done done w.last_status status text refl
        (replace_line-finds (description status) (split_lines text) present)

seen-Shows :
    (text : Bytes) (w : PropWatch) (e : Seen)
    → has_description text ≡ true
    → is_saved e ≡ true
    → Shows text w
    → Shows text (prop_seen w e)
unfolding prop_seen
seen-Shows text w e present saved h =
    elim (Bool-cases
      (not (str_eq (status_name e.st) w.last_status) && has_waited e.now w.last_write)) [
        | inl due ↦ rw due (inr (update-Shows e.how text (status_name e.st) w saved present h))
        | inr held ↦ rw held h
      ]

run-Shows :
    (text : Bytes) (w : PropWatch) (es : List Seen)
    → has_description text ≡ true
    → all is_saved es ≡ true
    → Shows text w
    → Shows text (prop_run w es)
unfolding prop_run
run-Shows text w [] present saved h = h
run-Shows text w (e ∷ es) present saved h =
    run-Shows text (prop_seen w e) es present (ground arith)
      (seen-Shows text w e present (ground arith) h)

-- A notification that need not wait leaves the file with its own status.
waited-Shows :
    (text : Bytes) (w : PropWatch) (e : Seen)
    → has_description text ≡ true
    → is_saved e ≡ true
    → has_waited e.now w.last_write ≡ true
    → Shows text w
    → (prop_seen w e).text ≡ update_module_prop done (status_name e.st) text
unfolding prop_seen
waited-Shows text w e present saved waited h =
    elim (Bool-cases (str_eq (status_name e.st) w.last_status)) [
      | inr other ↦
          rw (other, waited) (update-Shows e.how text (status_name e.st) w saved present h)
      | inl same ↦ rw same (elim h [
        | inl (none_yet, untouched) ↦
            let empty : str_eq (status_name e.st) [] ≡ true =
              subst (λ s. str_eq (status_name e.st) s ≡ true) none_yet same in
            absurd (ground (arith, empty, status_name-filled e.st))
        | inr shown ↦
            shown
            ∙ ap (λ s. update_module_prop done s text)
                (sym ((str_eq_iff (status_name e.st) w.last_status).0 same))
      ])
    ]

-- module.prop settles on the state of the tunnel: from any file that has a description, after any
-- notifications whose writes succeed, a further one that comes more than three seconds behind all
-- of them leaves the file as the status of the state at that time writes it into the first text,
-- whatever changes the limit of one write in three seconds has passed over before.
pub prop_run_settles :
    (text : Bytes) (es : List Seen) (e : Seen)
    → has_description text ≡ true
    → all is_saved es ≡ true
    → is_saved e ≡ true
    → all (is_earlier e.now) es ≡ true
    → (prop_seen (prop_run (prop_start text) es) e).text
      ≡ update_module_prop done (status_name e.st) text
unfolding has_waited
prop_run_settles text es e present saved last_saved early =
    waited-Shows text (prop_run (prop_start text) es) e present last_saved
      (has_waited-run e.now (prop_start text) es refl early)
      (run-Shows text (prop_start text) es present saved (inl (refl, refl)))
