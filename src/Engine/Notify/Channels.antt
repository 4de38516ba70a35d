-- ===== src/Engine/Notify/Channels.antt =====
-- Channels of subscribers are told apart.
use sshcustom_vpnchain.Base.{
  ℕ, suc, ◌≡◌, refl, ◌∙◌, subst, inl, inr, Bool, true, false, not, ◌&&◌, ◌||◌, List, [], ◌∷◌, ◌++◌,
  arith, ltb, ◌==◌, ==_iff, Bool-cases, any,
}
use sshcustom_vpnchain.Engine.Notify.{
  Subscriber, Hub, broadcast, set_state, subscribe, unsubscribed, received, HubEvent, changed,
  subscribed, cleaned_up, received_on, hub_step, hub_run, new_hub,
}

abbrev pub subscribes : ℕ → List Subscriber → Bool
subscribes c ss = any (λ (s : Subscriber). s.channel == c) ss

abbrev pub has_unique_channels : ℕ → List Subscriber → Bool
has_unique_channels next [] = true
has_unique_channels next (s ∷ ss) =
    ltb s.channel next && (not (subscribes s.channel ss) && has_unique_channels next ss)

subscribes-broadcast :
    (c : ℕ) (ss : List Subscriber) → subscribes c (broadcast ss) ≡ subscribes c ss
unfolding broadcast
subscribes-broadcast c [] = refl
subscribes-broadcast c (s ∷ ss) = ground (arith, subscribes-broadcast c ss)

unique-broadcast :
    (n : ℕ) (ss : List Subscriber) → has_unique_channels n (broadcast ss) ≡ has_unique_channels n ss
unfolding broadcast
unique-broadcast n [] = refl
unique-broadcast n (s ∷ ss) =
    ground (arith, subscribes-broadcast s.channel ss, unique-broadcast n ss)

subscribes-unsubscribed :
    (n k c : ℕ) (ss : List Subscriber)
    → has_unique_channels n ss ≡ true
    → subscribes k (unsubscribed c ss) ≡ subscribes k ss && not (k == c)
unfolding unsubscribed
subscribes-unsubscribed n k c [] u = ground arith
subscribes-unsubscribed n k c (s ∷ ss) u = elim (Bool-cases (s.channel == k)) [
  | inl this ↦ elim (Bool-cases (s.channel == c)) [
    | inl gone ↦
        let same : s.channel ≡ k = ground (arith, ==_iff s.channel k) in
        let absent : subscribes k ss ≡ false =
          subst (λ j. subscribes j ss ≡ false) same (ground arith) in
        ground (arith, absent)
    | inr kept ↦ ground (arith, subscribes-unsubscribed n k c ss)
  ]
  | inr other ↦ ground (arith, subscribes-unsubscribed n k c ss)
]

unique-unsubscribed :
    (n c : ℕ) (ss : List Subscriber)
    → has_unique_channels n ss ≡ true
    → has_unique_channels n (unsubscribed c ss) ≡ true
unfolding unsubscribed
unique-unsubscribed n c [] u = refl
unique-unsubscribed n c (s ∷ ss) u =
    ground (arith, unique-unsubscribed n c ss, subscribes-unsubscribed n s.channel c ss)

subscribes-received :
    (k c now : ℕ) (ss : List Subscriber) → subscribes k (received c now ss) ≡ subscribes k ss
unfolding received
subscribes-received k c now [] = refl
subscribes-received k c now (s ∷ ss) = ground (arith, subscribes-received k c now ss)

unique-received :
    (n c now : ℕ) (ss : List Subscriber)
    → has_unique_channels n (received c now ss) ≡ has_unique_channels n ss
unfolding received
unique-received n c now [] = refl
unique-received n c now (s ∷ ss) =
    ground (arith, unique-received n c now ss, subscribes-received s.channel c now ss)

subscribes-append :
    (k : ℕ) (ss : List Subscriber) (s : Subscriber)
    → subscribes k (ss ++ s ∷ []) ≡ subscribes k ss || s.channel == k
subscribes-append k [] s = ground arith
subscribes-append k (t ∷ ss) s = ground (arith, subscribes-append k ss s)

unique-append :
    (n : ℕ) (ss : List Subscriber) (s : Subscriber)
    → s.channel ≡ n
    → has_unique_channels n ss ≡ true
    → has_unique_channels (suc n) (ss ++ s ∷ []) ≡ true
unique-append n [] s e u = ground arith
unique-append n (t ∷ ss) s e u =
    ground (arith, subscribes-append t.channel ss s, unique-append n ss s e)

step_unique :
    (h : Hub) (v : HubEvent)
    → has_unique_channels h.next_channel h.subs ≡ true
    → has_unique_channels (hub_step h v).next_channel (hub_step h v).subs ≡ true
unfolding hub_step set_state subscribe
step_unique h changed u = unique-broadcast h.next_channel h.subs ∙ u
step_unique h (subscribed read) u =
    unique-append h.next_channel h.subs
      (record { channel = h.next_channel; pending = false; seen = read; since = h.changes }) refl u
step_unique h (cleaned_up c) u = unique-unsubscribed h.next_channel c h.subs u
step_unique h (received_on c) u = unique-received h.next_channel c h.changes h.subs ∙ u

run_unique :
    (vs : List HubEvent) (h : Hub)
    → has_unique_channels h.next_channel h.subs ≡ true
    → has_unique_channels (hub_run h vs).next_channel (hub_run h vs).subs ≡ true
unfolding hub_run
run_unique [] h u = u
run_unique (v ∷ vs) h u = run_unique vs (hub_step h v) (step_unique h v u)

-- A cleanup takes its own subscriber off the list and no other, after any run of the daemon.
pub subscribes-cleaned_up :
    (vs : List HubEvent) (k c : ℕ)
    → let h = hub_run new_hub vs in
      subscribes k (hub_step h (cleaned_up c)).subs ≡ subscribes k h.subs && not (k == c)
unfolding hub_step
subscribes-cleaned_up vs k c =
    let h = hub_run new_hub vs in
    subscribes-unsubscribed h.next_channel k c h.subs (run_unique vs new_hub refl)
