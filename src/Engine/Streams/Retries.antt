-- ===== src/Engine/Streams/Retries.antt =====
-- What `dialStreamWithRetry` promises.
use sshcustom_vpnchain.Base.{
  ℕ, ◌≡◌, refl, sym, subst, inl, inr, Bool, true, false, not, ◌&&◌, ◌||◌, Option, none, some, List,
  arith, ◌==◌, if◌then◌else◌, Bool-cases, Bytes,
}
use sshcustom_vpnchain.Base.Res.{Res, ok, err}
use sshcustom_vpnchain.Engine.Streams.{
  is_transport_death, is_stream_retryable, is_dead, Attempt, Opened, second_try, retry, first_try,
  dial_stream_with_retry,
}
use sshcustom_vpnchain.Engine.Streams.{is_usable}

-- The client whose dial failed with an error of the transport.
abbrev pub blamed : Option ℕ → Res Bytes ℕ → ℕ → Bool
blamed none r k = false
blamed (some client) (ok remote) k = false
blamed (some client) (err e) k = (client == k) && is_transport_death e

-- An error of the stream alone, which a second dial may not meet.
abbrev pub is_passing : Res Bytes ℕ → Bool
is_passing (ok remote) = false
is_passing (err e) = not (is_transport_death e) && is_stream_retryable e

-- The policy: there is a second dial when the first one failed in passing and the loop holds a
-- client that is alive.
abbrev pub is_retried : List ℕ → Attempt → Bool
is_retried dead a = is_passing a.first_dial && is_usable a.next_client dead

-- What follows from the policy for an opened stream, with `k` any client.
abbrev pub Follows : List ℕ → ℕ → Attempt → ℕ → Opened → Type 0
Follows dead client a k o =
    (o.dials ≡ (if is_retried dead a then 2 else 1))
    × (o.stream ≡ (if is_retried dead a then a.second_dial else a.first_dial))
    × (is_dead k o.dead
        ≡ is_dead k dead
          || blamed (some client) a.first_dial k
          || (is_retried dead a && blamed a.next_client a.second_dial k))

Follows-retry :
    (dead : List ℕ) (client k : ℕ) (e : Bytes) (next : Option ℕ) (second : Res Bytes ℕ)
    → is_transport_death e ≡ false
    → is_stream_retryable e ≡ true
    → Follows dead client
        (record { first_dial = err e; next_client = next; second_dial = second })
        k
        (retry dead e next second)
unfolding retry second_try
Follows-retry dead client k e none second d r = (ground arith, ground arith, ground arith)
Follows-retry dead client k e (some n) (ok remote) d r = (ground arith, ground arith, ground arith)
Follows-retry dead client k e (some n) (err e') d r = (ground arith, ground arith, ground arith)

first_retried :
    (dead : List ℕ) (client k : ℕ) (e : Bytes) (next : Option ℕ) (second : Res Bytes ℕ)
    → is_transport_death e ≡ false
    → is_stream_retryable e ≡ true
    → let a : Attempt = record { first_dial = err e; next_client = next; second_dial = second } in
      Follows dead client a k (first_try dead client a (err e))
unfolding first_try
first_retried dead client k e next second d r =
    let a : Attempt = record { first_dial = err e; next_client = next; second_dial = second } in
    let same : first_try dead client a (err e) ≡ retry dead e next second = ground arith in
    subst (Follows dead client a k) (sym same) (Follows-retry dead client k e next second d r)

Follows-first :
    (dead : List ℕ) (client k : ℕ) (first : Res Bytes ℕ) (next : Option ℕ) (second : Res Bytes ℕ)
    → let a : Attempt = record { first_dial = first; next_client = next; second_dial = second } in
      Follows dead client a k (first_try dead client a first)
unfolding first_try
Follows-first dead client k (ok remote) next second = (refl, refl, ground arith)
Follows-first dead client k (err e) next second = elim (Bool-cases (is_transport_death e)) [
  | inl death ↦ (ground arith, ground arith, ground arith)
  | inr alive ↦ elim (Bool-cases (is_stream_retryable e)) [
    | inl worth ↦ first_retried dead client k e next second alive worth
    | inr over ↦ (ground arith, ground arith, ground arith)
  ]
]

-- `dialStreamWithRetry` on a client that is alive follows the policy: it dials twice, that is, it
-- retries once, when the first dial failed with an error of the stream alone and the loop holds a
-- client that is alive, and once otherwise; it returns what the last of its dials returned; and the
-- clients that are marked as dead after it are those before it and the one whose dial failed with
-- an error of the transport.
pub dial_stream_with_retry-policy :
    (dead : List ℕ) (client k : ℕ) (a : Attempt)
    → is_dead client dead ≡ false
    → Follows dead client a k (dial_stream_with_retry dead client a)
unfolding dial_stream_with_retry
dial_stream_with_retry-policy dead client k a alive =
    rw alive (Follows-first dead client k a.first_dial a.next_client a.second_dial)
