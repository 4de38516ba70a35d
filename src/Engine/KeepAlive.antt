-- ===== src/Engine/KeepAlive.antt =====
-- cmd/sshcustomd/engine.go: `keepAlive` of a `tunClient`, over what it meets at each tick.
use sshcustom_vpnchain.Base.{
  ℕ, suc, ◌≡◌, refl, Bool, true, false, ◌&&◌, ◌||◌, List, [], ◌∷◌, arith, leb, if◌then◌else◌, ℤ,
  magnitude, nonpositive,
}

-- What the select at a tick, and the one behind it, meet: the context is done, or the request is
-- answered, fails, or is not answered for 5 seconds.
pub data Beat : Type 0 where
  cancelled answered send_failed timed_out : Beat

-- The goroutine waits for the next tick with its count of misses, has marked the client as dead, or
-- has returned with its context.
pub data Watch : Type 0 where
  waiting : ℕ → Watch
  marked_dead stopped : Watch

-- `keepAlive` after `missed` misses.
unfoldable pub keep_alive : ℕ → List Beat → Watch
keep_alive missed [] = waiting missed
keep_alive missed (cancelled ∷ bs) = stopped
keep_alive missed (answered ∷ bs) = keep_alive 0 bs
keep_alive missed (send_failed ∷ bs) =
    let rest = keep_alive (suc missed) bs in if leb 2 (suc missed) then marked_dead else rest
keep_alive missed (timed_out ∷ bs) =
    let rest = keep_alive (suc missed) bs in if leb 2 (suc missed) then marked_dead else rest

-- The seconds between two ticks.
unfoldable pub keepalive_period : ℤ → ℕ
keepalive_period sec = if nonpositive sec then 15 else magnitude sec

abbrev pub is_miss : Beat → Bool
is_miss send_failed = true
is_miss timed_out = true
is_miss _ = false

-- Two misses in a row, before the context is done.
abbrev pub two_misses : List Beat → Bool
two_misses [] = false
two_misses (b ∷ []) = false
two_misses (b ∷ c ∷ bs) = (is_miss b && is_miss c) || (not_cancelled b && two_misses (c ∷ bs))
  where
    not_cancelled : Beat → Bool
    not_cancelled cancelled = false
    not_cancelled _ = true

abbrev pub is_marked : Watch → Bool
is_marked marked_dead = true
is_marked _ = false

abbrev head_misses : List Beat → Bool
head_misses [] = false
head_misses (b ∷ bs) = is_miss b

keep_alive-missed :
    (bs : List Beat)
    → (is_marked (keep_alive 0 bs) ≡ two_misses bs)
      × (is_marked (keep_alive 1 bs) ≡ head_misses bs || two_misses bs)
unfolding keep_alive
keep_alive-missed [] = (refl, refl)
keep_alive-missed (cancelled ∷ []) = (refl, refl)
keep_alive-missed (answered ∷ []) = (refl, refl)
keep_alive-missed (send_failed ∷ []) = (refl, refl)
keep_alive-missed (timed_out ∷ []) = (refl, refl)
keep_alive-missed (cancelled ∷ c ∷ bs) = (refl, refl)
keep_alive-missed (answered ∷ c ∷ bs) = ground (arith, keep_alive-missed (c ∷ bs))
keep_alive-missed (send_failed ∷ c ∷ bs) = ground (arith, keep_alive-missed (c ∷ bs))
keep_alive-missed (timed_out ∷ c ∷ bs) = ground (arith, keep_alive-missed (c ∷ bs))

-- The count of misses does what it stands for: `keepAlive` marks its client as dead exactly when two
-- ticks in a row, before its context is done, find that the request fails or is not answered in time.
-- An answer in between always starts the count again, however many misses came before.
pub keep_alive-two_misses : (bs : List Beat) → is_marked (keep_alive 0 bs) ≡ two_misses bs
keep_alive-two_misses bs = (keep_alive-missed bs).0
