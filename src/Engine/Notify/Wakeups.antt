-- ===== src/Engine/Notify/Wakeups.antt =====
-- No change of the state goes unnoticed.
use sshcustom_vpnchain.Base.{
  ℕ, suc, ◌≡◌, refl, Bool, true, false, ◌||◌, List, [], ◌∷◌, ◌++◌, arith, ◌==◌, all,
}
use sshcustom_vpnchain.Engine.Notify.{
  Subscriber, Hub, broadcast, set_state, subscribe, unsubscribed, received, HubEvent, changed,
  subscribed, cleaned_up, received_on, hub_step, hub_run, new_hub,
}

-- A notification waits for the subscriber, or it has read the newest state, or nothing has changed
-- since it subscribed.
abbrev pub is_informed : ℕ → Subscriber → Bool
is_informed now s = s.pending || s.seen == now || s.since == now

all_informed-broadcast :
    (now : ℕ) (ss : List Subscriber) → all (is_informed now) (broadcast ss) ≡ true
unfolding broadcast
all_informed-broadcast now [] = refl
all_informed-broadcast now (s ∷ ss) = all_informed-broadcast now ss

all_informed-append :
    (now : ℕ) (ss : List Subscriber) (s : Subscriber)
    → all (is_informed now) ss ≡ true
    → is_informed now s ≡ true
    → all (is_informed now) (ss ++ s ∷ []) ≡ true
all_informed-append now [] s h i = ground arith
all_informed-append now (t ∷ ss) s h i = ground (arith, all_informed-append now ss s)

all_informed-unsubscribed :
    (now c : ℕ) (ss : List Subscriber)
    → all (is_informed now) ss ≡ true
    → all (is_informed now) (unsubscribed c ss) ≡ true
unfolding unsubscribed
all_informed-unsubscribed now c [] h = refl
all_informed-unsubscribed now c (s ∷ ss) h = ground (arith, all_informed-unsubscribed now c ss)

all_informed-received :
    (now c : ℕ) (ss : List Subscriber)
    → all (is_informed now) ss ≡ true
    → all (is_informed now) (received c now ss) ≡ true
unfolding received
all_informed-received now c [] h = refl
all_informed-received now c (s ∷ ss) h = ground (arith, all_informed-received now c ss)

step-informed :
    (h : Hub) (v : HubEvent)
    → all (is_informed h.changes) h.subs ≡ true
    → all (is_informed (hub_step h v).changes) (hub_step h v).subs ≡ true
unfolding hub_step set_state subscribe
step-informed h changed i = all_informed-broadcast (suc h.changes) h.subs
step-informed h (subscribed read) i =
    all_informed-append h.changes h.subs
      (record { channel = h.next_channel; pending = false; seen = read; since = h.changes }) i
      (ground arith)
step-informed h (cleaned_up c) i = all_informed-unsubscribed h.changes c h.subs i
step-informed h (received_on c) i = all_informed-received h.changes c h.subs i

run-informed :
    (vs : List HubEvent) (h : Hub)
    → all (is_informed h.changes) h.subs ≡ true
    → all (is_informed (hub_run h vs).changes) (hub_run h vs).subs ≡ true
unfolding hub_run
run-informed [] h i = i
run-informed (v ∷ vs) h i = run-informed vs (hub_step h v) (step-informed h v i)

-- No change goes unnoticed: whatever changes, subscriptions, cleanups and receives follow one
-- another, every subscriber has a notification waiting, or has read the newest state, or nothing
-- has changed since it subscribed, although a channel holds one notification and a full one is
-- passed over. What a consumer had read before it subscribed has no part in this.
pub hub_run_informed :
    (vs : List HubEvent)
    → all (is_informed (hub_run new_hub vs).changes) (hub_run new_hub vs).subs ≡ true
hub_run_informed vs = run-informed vs new_hub refl
