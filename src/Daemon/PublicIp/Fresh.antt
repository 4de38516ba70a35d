-- ===== src/Daemon/PublicIp/Fresh.antt =====
-- How old an answer of `lookupPublicIPs` can be.
use sshcustom_vpnchain.Base.{
  ◌+◌, ◌<◌, ◌≡◌, refl, sym, ◌∙◌, subst, ◌⊎◌, inl, inr, false, not, ◌&&◌, List, [], ◌∷◌, ◌++◌,
  append-nil, append_assoc, arith, ltb, Bool-cases, Option-cases,
}
use sshcustom_vpnchain.Daemon.PublicIp.{
  PublicIpResponse, PublicIpCache, IpRequest, cached_response, new_response, lookup_public_ips,
  lookup_run, empty_cache,
}

-- One of the requests is so.
abbrev pub Among : (IpRequest → Type 0) → List IpRequest → Type 0
Among P [] = ⊥
Among P (q ∷ qs) = P q ⊎ Among P qs

Among-left :
    (P R : IpRequest → Type 0) (xs ys : List IpRequest)
    → ((q : IpRequest) → P q → R q)
    → Among P xs
    → Among R (xs ++ ys)
Among-left P R [] ys f h = absurd h
Among-left P R (x ∷ xs) ys f (inl here) = inl (f x here)
Among-left P R (x ∷ xs) ys f (inr there) = inr (Among-left P R xs ys f there)

Among-last :
    (P : IpRequest → Type 0) (xs : List IpRequest) (q : IpRequest) → P q → Among P (xs ++ q ∷ [])
Among-last P [] q h = inl h
Among-last P (x ∷ xs) q h = inr (Among-last P xs q h)

abbrev IsOf : PublicIpCache → IpRequest → Type 0
IsOf c p =
    (cached_response c.resp ≡ cached_response (new_response p))
    × (c.expires ≡ p.stored + 60000000000)

-- The cache has never been filled, or one of the requests filled it.
abbrev Known : List IpRequest → PublicIpCache → Type 0
Known past c = (c.expires ≡ 0) ⊎ Among (IsOf c) past

cached-cached : (r : PublicIpResponse) → cached_response (cached_response r) ≡ cached_response r
unfolding cached_response
cached-cached r = elim (Option-cases r.tunnel) [ inl e ↦ rw e refl | inr (d, e) ↦ rw e refl ]

step-Known :
    (past : List IpRequest) (c : PublicIpCache) (q : IpRequest)
    → Known past c
    → Known (past ++ q ∷ []) (lookup_public_ips c q).0
unfolding lookup_public_ips
step-Known past c q h = elim (Bool-cases (not q.refresh && ltb q.now c.expires)) [
  | inr asks ↦ rw asks (
      inr (
        Among-last (IsOf (record { resp = new_response q; expires = q.stored + 60000000000 })) past
          q (refl, refl)))
  | inl serves ↦ rw serves (elim h [
    | inl unfilled ↦ inl unfilled
    | inr known ↦ inr (
        Among-left (IsOf c) (IsOf (record c { resp = cached_response c.resp })) past (q ∷ [])
          (λ p k. (cached-cached c.resp ∙ k.0, k.1)) known)
  ])
]

run-Known :
    (past qs : List IpRequest) (c : PublicIpCache)
    → Known past c
    → Known (past ++ qs) (lookup_run c qs)
unfolding lookup_run
run-Known past [] c h = subst (λ xs. Known xs c) (sym (append-nil past)) h
run-Known past (q ∷ qs) c h =
    let next = (lookup_public_ips c q).0 in
    subst (λ xs. Known xs (lookup_run next qs)) (append_assoc past (q ∷ []) qs)
      (run-Known (past ++ q ∷ []) qs next (step-Known past c q h))

-- What an answer can be: that of a lookup for this very request, or, unless a new lookup is asked
-- for, the one of an earlier request that was stored less than 60 seconds ago, marked as cached.
abbrev pub Fresh : List IpRequest → IpRequest → PublicIpResponse → Type 0
Fresh past q answer =
    (answer ≡ new_response q)
    ⊎ (q.refresh ≡ false)
      × Among (λ p. (answer ≡ cached_response (new_response p)) × (q.now < p.stored + 60000000000))
          past

answer-Fresh :
    (past : List IpRequest) (c : PublicIpCache) (q : IpRequest)
    → Known past c
    → Fresh past q (lookup_public_ips c q).1
unfolding lookup_public_ips
answer-Fresh past c q h = elim (Bool-cases (not q.refresh && ltb q.now c.expires)) [
  | inr asks ↦ rw asks (inl refl)
  | inl serves ↦ rw serves (elim h [
    | inl unfilled ↦ absurd (ground (arith, unfilled))
    | inr known ↦ inr (
      ground arith,
      subst
          (Among (λ p.
            (cached_response c.resp ≡ cached_response (new_response p))
            × (q.now < p.stored + 60000000000)))
          (append-nil past)
          (Among-left (IsOf c)
            (λ p.
              (cached_response c.resp ≡ cached_response (new_response p))
              × (q.now < p.stored + 60000000000))
            past [] (λ p k. (k.0, ground (arith, k.1))) known),
    )
  ])
]

-- No answer of the public address is stale: whatever requests came before, from the start of the
-- daemon, an answer is that of a lookup made for its own request, or it is the answer to an earlier
-- request, marked as cached, that was stored less than 60 seconds before; and a request that asks
-- for a refresh always gets its own.
pub lookup_run-Fresh :
    (past : List IpRequest) (q : IpRequest)
    → Fresh past q (lookup_public_ips (lookup_run empty_cache past) q).1
lookup_run-Fresh past q =
    answer-Fresh past (lookup_run empty_cache past) q (run-Known [] past empty_cache (inl refl))
