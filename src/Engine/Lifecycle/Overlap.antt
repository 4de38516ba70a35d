-- ===== src/Engine/Lifecycle/Overlap.antt =====
-- main.go, in `run`: `startTunnel` in its two parts. It looks at `tunnelRunning`, cleans the rules and reads
-- the profiles again, and only then sets `tunnelRunning`; the handlers run it in goroutines of their own,
-- with no lock around it.
use sshcustom_vpnchain.Base.{
  ℕ, zero, suc, ◌+◌, ◌≡◌, refl, ap, ◌∙◌, inl, inr, Bool, true, false, Option, none, some, List, [],
  ◌∷◌, ◌++◌, arith, if◌then◌else◌, Bool-cases, is_some, length, all,
}
use sshcustom_vpnchain.Profile.Data.{Profile, ProfilesFile}
use sshcustom_vpnchain.Profile.Select.{selected_profile}
use sshcustom_vpnchain.Engine.Lifecycle.{Daemon, reloaded, start_with, start_tunnel}

-- The daemon, and how many calls of `startTunnel` have found that no tunnel runs and are not yet done.
pub record Starting : Type 0 where
  pub daemon : Daemon
  pub starters : ℕ

pub data StartPart : Type 0 where
  -- The look at `tunnelRunning`.
  start_checks : StartPart
  -- The rest, at its time and with what `loadProfiles` reads.
  start_goes : ℕ → Option ProfilesFile → StartPart

-- The rest of one call.
goes_on : Starting → ℕ → Option ProfilesFile → ℕ → Starting
unfolding start_with
goes_on s now latest zero = s
goes_on s now latest (suc n) =
    let file = reloaded s.daemon.file latest in
    record {
      daemon = start_with (record (s.daemon) { file = file }) now (selected_profile file);
      starters = n;
    }

unfoldable pub start_step : Starting → StartPart → Starting
unfolding goes_on
start_step s start_checks =
    if s.daemon.tunnel_running then s else record s { starters = suc s.starters }
start_step s (start_goes now latest) = goes_on s now latest s.starters

unfoldable pub start_run : Starting → List StartPart → Starting
start_run s [] = s
start_run s (p ∷ ps) = start_run (start_step s p) ps

-- A time, and a file that has a profile to start.
abbrev pub is_startable : ℕ × ProfilesFile → Bool
is_startable (now, file) = is_some (selected_profile file)

abbrev pub checks : List (ℕ × ProfilesFile) → List StartPart
checks [] = []
checks (g ∷ gs) = start_checks ∷ checks gs

abbrev pub goes : List (ℕ × ProfilesFile) → List StartPart
goes [] = []
goes ((now, file) ∷ gs) = start_goes now (some file) ∷ goes gs

start_run-append :
    (s : Starting) (ps qs : List StartPart) → start_run s (ps ++ qs) ≡ start_run (start_run s ps) qs
unfolding start_run
start_run-append s [] qs = refl
start_run-append s (p ∷ ps) qs = start_run-append (start_step s p) ps qs

all_checked :
    (d : Daemon) (n : ℕ) (gs : List (ℕ × ProfilesFile))
    → d.tunnel_running ≡ false
    → start_run (record { daemon = d; starters = n }) (checks gs)
      ≡ record { daemon = d; starters = length gs + n }
unfolding start_run start_step
all_checked d n [] off =
    let e : n ≡ 0 + n = omega arith in ap (λ k. record { daemon = d; starters = k }) e
all_checked d n (g ∷ gs) off =
    let e : length gs + suc n ≡ suc (length gs) + n = omega arith in
    let s : Starting = record { daemon = d; starters = n } in
    let s1 : Starting = record { daemon = d; starters = suc n } in
    ap (λ (b : Bool). start_run (if b then s else s1) (checks gs)) off
    ∙ all_checked d (suc n) gs off
    ∙ ap (λ k. record { daemon = d; starters = k }) e

started_loops :
    (d : Daemon) (now : ℕ) (o : Option Profile)
    → is_some o ≡ true
    → (start_with d now o).loops ≡ suc d.loops
unfolding start_with
started_loops d now none h = absurd (ground arith)
started_loops d now (some sp) h = refl

all_gone :
    (d : Daemon) (n : ℕ) (gs : List (ℕ × ProfilesFile))
    → all is_startable gs ≡ true
    → n ≡ length gs
    → (start_run (record { daemon = d; starters = n }) (goes gs)).daemon.loops ≡ length gs + d.loops
unfolding start_run start_step goes_on
all_gone d n [] ok_all e = omega arith
all_gone d zero ((now, file) ∷ gs) ok_all e = absurd (omega arith)
all_gone d (suc n) ((now, file) ∷ gs) ok_all e =
    let next = start_with (record d { file = file }) now (selected_profile file) in
    let one = started_loops (record d { file = file }) now (selected_profile file) (ground arith) in
    omega (arith, all_gone next n gs (ground arith) (omega arith), one)

serial :
    (d : Daemon) (now : ℕ) (latest : Option ProfilesFile)
    → (start_run
        (record { daemon = d; starters = 0 })
        (start_checks ∷ start_goes now latest ∷ [])).daemon
      ≡ start_tunnel d now latest
unfolding start_run start_step goes_on start_tunnel
serial d now latest = elim (Bool-cases d.tunnel_running) [
  | inl on ↦ rw on refl
  | inr off ↦ rw off refl
]

-- `startTunnel` is no guard against itself. When no tunnel runs, a call that nothing falls into does
-- what `start_tunnel` says; but calls that have all looked at `tunnelRunning` before the first of them
-- sets it all go on: each puts one more goroutine into `tunnelLoop`, when each reads a file with a
-- profile to start.
pub start_run_overlaps :
    (d : Daemon) (now : ℕ) (latest : Option ProfilesFile) (gs : List (ℕ × ProfilesFile))
    → d.tunnel_running ≡ false
    → all is_startable gs ≡ true
    → let s : Starting = record { daemon = d; starters = 0 } in
      ((start_run s (start_checks ∷ start_goes now latest ∷ [])).daemon ≡ start_tunnel d now latest)
      × ((start_run s (checks gs ++ goes gs)).daemon.loops ≡ length gs + d.loops)
start_run_overlaps d now latest gs off startable =
    let s : Starting = record { daemon = d; starters = 0 } in
    let n = length gs + 0 in
    (
      serial d now latest,
      ap (λ (x : Starting). x.daemon.loops)
            (start_run-append s (checks gs) (goes gs)
              ∙ ap (λ (x : Starting). start_run x (goes gs)) (all_checked d 0 gs off))
          ∙ all_gone d n gs startable (omega arith),
    )
