-- ===== src/Framework/SingleFlight/Sound/Ended.antt =====
-- The end of a fetch, and `replace`, keep the invariant.
use mangarr_gateway.Prelude.{
  Bool-cases, Eq, List, arith, inl, inr, nat_beq, nat_beq_iff, some, update, ℕ, ◌<◌, ◌∷◌, ◌≡◌, ◌≢◌,
  string_eq,
}
use mangarr_gateway.Prelude.Dict
use mangarr_gateway.Framework.SingleFlight.{
  TlruCache, Settings, ttu, Outcome, value, cancelled, leading, returned, Flight, resolve, fetched,
  fetch_failed, replace,
}
use mangarr_gateway.Framework.SingleFlight.Sound.{
  Fetched, last, earlier, WasFetched, IsPending, Serves, IsSound, Serves-keep,
}

module _ {ℓ κ} {K : Type ℓ} {V : Type κ} {C : Type 0} ⦃e : Eq K⦄ (ops : TlruCache K V C)
    (config : Settings K V) where
  -- A leader that ends, with the outcome that it sets and returns.
  module _ (i : ℕ) (k : K) (s : Flight K V C) (leads : s.callers i ≡ leading k)
      (h : IsSound ops config s) (o : Outcome V) (log : List (K × V × ℕ)) (cache : C) where
    abbrev ended : Flight K V C
    ended = record s {
      cache = cache;
      futures = resolve s.futures i o;
      inflight = Dict.pop s.inflight k;
      callers = update s.callers i (returned k o);
      fetches = log;
    }

    module _ (more : (k' : K) (v : V) → WasFetched s.fetches k' v → WasFetched log k' v)
        (from : (v : V) → o ≡ value v → WasFetched log k v) where
      resolved-Serves : (k' : K) → k ≡ k' → IsPending (s.futures i) → Serves ended k' i
      resolved-Serves k' same (inl pending) =
          inr (o, ground (arith, nat_beq_iff i i), λ v q. rw (← same) (from v q))
      resolved-Serves k' same (inr gone) = inr (cancelled, ground arith, λ v q. cc)

      ended-Serves : (k' : K) (j : ℕ) → Serves s k' j → Serves ended k' j
      ended-Serves k' j =
          Serves-keep s ended k' j
            (λ q. elim (Bool-cases (nat_beq i j)) [
              | inl e ↦
                  let same : i ≡ j = ground (arith, nat_beq_iff i j) in
                  rw (← same) (resolved-Serves k' (cc) (h.pending i k leads))
              | inr e ↦ inl (ground arith)
            ])
            (λ o' q. ground (arith, nat_beq_iff i j)) (more k')

      ended-IsSound :
          ((now : ℕ) (k' : K) (v : V)
            → ops.get now k' cache ≡ some v
            → (t : ℕ) × Fetched k' v t log × (now < ttu config k' v t))
          → IsSound ops config ended
      ended-IsSound caches = record {
        fresh = λ j q. ground (arith, h.fresh j, nat_beq_iff i j);
        pending = λ j k' q.
            let kept : resolve s.futures i o j ≡ s.futures j = ground (arith, nat_beq_iff i j) in
            rw kept (h.pending j k' (ground (arith, nat_beq_iff i j)));
        cached = caches;
        entry = λ k' j q.
            ended-Serves k' j (h.entry k' j (ground (arith, Dict.get-pop s.inflight k k')));
        followed =
            λ m j k' q. ended-Serves k' j (h.followed m j k' (ground (arith, nat_beq_iff i m)));
        given = λ j k' v q. elim (Bool-cases (nat_beq i j)) [
          | inl e ↦ let same : k ≡ k' = ground arith in rw (← same) (from v (ground arith))
          | inr e ↦ more k' v (h.given j k' v (ground arith))
        ];
      }

  -- What the cache holds after a fetch.
  put-cached :
      (now : ℕ) (k : K) (v : V) (s : Flight K V C)
      → IsSound ops config s
      → (later : ℕ) (k' : K) (w : V)
      → ops.get later k' (ops.put now k v (ttu config k v now) s.cache) ≡ some w
      → (t : ℕ) × Fetched k' w t ((k, v, now) ∷ s.fetches) × (later < ttu config k' w t)
  put-cached now k v s h later k' w q =
      elim (ops.get-put now later (ttu config k v now) k k' v w s.cache q) [
        | inl (same, it, live) ↦ rw (← same, ← it) (now, last s.fetches, live)
        | inr old ↦
            let (t, from, live) = h.cached later k' w old in (t, earlier (k, v, now) from, live)
      ]

  pub fetched-IsSound :
      (now i : ℕ) (k : K) (v : V) (s : Flight K V C)
      → s.callers i ≡ leading k
      → IsSound ops config s
      → IsSound ops config (fetched ops config now i k v s)
  unfolding fetched
  fetched-IsSound now i k v s leads h =
      ended-IsSound i k s leads h (value v) ((k, v, now) ∷ s.fetches)
        (ops.put now k v (ttu config k v now) s.cache) (λ k' w q. (q.0, earlier (k, v, now) q.1))
        (λ w q. let same : v ≡ w = cc in rw (← same) (now, last s.fetches)) (put-cached now k v s h)

  pub fetch_failed-IsSound :
      (i : ℕ) (k : K) (o : Outcome V) (s : Flight K V C)
      → s.callers i ≡ leading k
      → ((v : V) → o ≢ value v)
      → IsSound ops config s
      → IsSound ops config (fetch_failed ops config i k o s)
  unfolding fetch_failed
  fetch_failed-IsSound i k o s leads bad h =
      ended-IsSound i k s leads h o s.fetches s.cache (λ k' w q. q) (λ w q. absurd (bad w q))
        h.cached

  pub replace-IsSound :
      (now : ℕ) (k : K) (v : V) (s : Flight K V C)
      → IsSound ops config s
      → IsSound ops config (replace ops config now k v s)
  unfolding replace
  replace-IsSound now k v s h = record {
    fresh = h.fresh;
    pending = h.pending;
    cached = put-cached now k v s h;
    entry = λ k' j q. replace-Serves k' j (h.entry k' j q);
    followed = λ i j k' q. replace-Serves k' j (h.followed i j k' q);
    given = λ i k' w q. let (t, from) = h.given i k' w q in (t, earlier (k, v, now) from);
  }
    where
      replace-Serves : (k' : K) (j : ℕ) → Serves s k' j → Serves (replace ops config now k v s) k' j
      replace-Serves k' j =
          Serves-keep s (replace ops config now k v s) k' j inl (λ o q. q)
            (λ w q. (q.0, earlier (k, v, now) q.1))
