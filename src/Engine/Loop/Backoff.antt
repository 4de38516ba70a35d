-- ===== src/Engine/Loop/Backoff.antt =====
-- The delay between attempts: it doubles with each failure, from one second to thirty.
use sshcustom_vpnchain.Base.{
  ℕ, zero, suc, ◌+◌, ◌*◌, ◌^◌, ◌<◌, ◌≡◌, refl, ap, ◌∙◌, true, List, [], ◌∷◌, map, arith, length,
  All, Bytes,
}
use sshcustom_vpnchain.Base.Res.{err}
use sshcustom_vpnchain.Engine.State.{State, retry_backoff}
use sshcustom_vpnchain.Engine.Loop.{
  second, next_delay, base_delay, max_delay, sleeping, Loop, Round, timer, advance, start, after,
  run,
}
use Prim.Native.Nat.{min}
use native.Mathlib.Nat.{pow-suc}

-- A round that finds the network and whose attempt fails.
abbrev pub Fails : Round → Type 0
Fails r = (r.route.online ≡ true) × ((e : Bytes) × (r.auth ≡ err e))

-- The delay after a number of failures in a row.
abbrev pub backoff : ℕ → ℕ
backoff zero = 0
backoff (suc n) = min (2 ^ n * second) max_delay

pow_pos : (n : ℕ) → 0 < 2 ^ n
pow_pos zero = omega arith
pow_pos (suc n) = omega (arith, pow_pos n, pow-suc 2 n)

backoff-next : (n : ℕ) → next_delay (backoff n) base_delay max_delay ≡ backoff (suc n)
unfolding next_delay
backoff-next zero = refl
backoff-next (suc n) = ground (arith, pow-suc 2 n, pow_pos n)

round-Fails :
    (l : Loop) (r : Round)
    → l.phase ≡ sleeping
    → Fails r
    → let l' = after l (advance l (timer r)) in
      (l'.phase ≡ sleeping)
      × (l'.delay ≡ next_delay l.delay base_delay max_delay)
      × (l'.st.state ≡ retry_backoff)
      × (l'.scripts ≡ l.scripts)
unfolding advance
round-Fails l r at (online, (e, failed)) = ground arith

run-backoff :
    (n : ℕ) (rs : List Round) (l : Loop)
    → l.phase ≡ sleeping
    → l.delay ≡ backoff n
    → All Fails rs
    → ((run l (map timer rs)).phase ≡ sleeping)
      × ((run l (map timer rs)).delay ≡ backoff (n + length rs))
unfolding run
run-backoff n [] l at d h = let e : n + 0 ≡ n = omega arith in (at, rw e d)
run-backoff n (r ∷ rs) l at d h =
    let l' = after l (advance l (timer r)) in
    let (slept, grew, said, told) = round-Fails l r at h.0 in
    let next = grew ∙ ap (λ k. next_delay k base_delay max_delay) d ∙ backoff-next n in
    let e : n + suc (length rs) ≡ suc n + length rs = omega arith in
    rw e (run-backoff (suc n) rs l' slept next h.1)

-- Failed attempts back off exponentially: after n + 1 attempts in a row that find the network and
-- fail, from the start of the loop, the loop sleeps and its next delay is 2ⁿ seconds, but never
-- more than 30.
pub failures-backoff :
    (st : State) (r : Round) (rs : List Round)
    → Fails r
    → All Fails rs
    → ((run (start st) (map timer (r ∷ rs))).phase ≡ sleeping)
      × ((run (start st) (map timer (r ∷ rs))).delay ≡ min (2 ^ length rs * second) (30 * second))
failures-backoff st r rs h hs =
    let e : 0 + suc (length rs) ≡ suc (length rs) = omega arith in
    rw e at (run-backoff 0 (r ∷ rs) (start st) refl refl (h, hs))
