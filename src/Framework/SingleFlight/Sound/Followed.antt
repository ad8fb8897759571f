-- ===== src/Framework/SingleFlight/Sound/Followed.antt =====
-- The wait on the future of another caller keeps the invariant.
use mangarr_gateway.Prelude.{
  Bool-cases, Eq, arith, inl, inr, nat_beq, nat_beq_iff, some, ℕ, ◌≡◌, ◌≢◌, string_eq,
}
use mangarr_gateway.Framework.SingleFlight.{
  TlruCache, Settings, Outcome, value, idle, following, Flight, woken, cancel_follower,
}
use mangarr_gateway.Framework.SingleFlight.Sound.{WasFetched, Serves, IsSound, Serves-keep}

module _ {ℓ κ} {K : Type ℓ} {V : Type κ} {C : Type 0} ⦃e : Eq K⦄ (ops : TlruCache K V C)
    (config : Settings K V) where
  -- The outcome of a future that serves the key, if it is a value.
  Serves-outcome :
      (s : Flight K V C) (k : K) (j : ℕ) (v : V)
      → IsSound ops config s
      → s.futures j ≡ some (value v)
      → Serves s k j
      → WasFetched s.fetches k v
  Serves-outcome s k j v h done (inl leads) = ground (arith, h.pending j k)
  Serves-outcome s k j v h done (inr (o, q, from)) = from v (cc)

  pub woken-IsSound :
      (i j : ℕ) (k : K) (o : Outcome V) (s : Flight K V C)
      → s.callers i ≡ following k j
      → s.futures j ≡ some o
      → IsSound ops config s
      → IsSound ops config (woken ops config i k o s)
  unfolding woken
  woken-IsSound i j k o s follows done h = record {
    fresh = λ m q. ground (arith, h.fresh m, nat_beq_iff i m);
    pending = λ m k' q. h.pending m k' (ground (arith, nat_beq_iff i m));
    cached = h.cached;
    entry = λ k' m q.
        Serves-keep s (woken ops config i k o s) k' m (λ q. inl (ground (arith, nat_beq_iff i m)))
          (λ o' q. q) (λ v q. q) (h.entry k' m q);
    followed = λ l m k' q.
        Serves-keep s (woken ops config i k o s) k' m (λ q. inl (ground (arith, nat_beq_iff i m)))
          (λ o' q. q) (λ v q. q) (h.followed l m k' (ground (arith, nat_beq_iff i l)));
    given = λ m k' v q. elim (Bool-cases (nat_beq i m)) [
      | inl e ↦
          let same : k ≡ k' = ground arith in
          rw (← same) (Serves-outcome s k j v h (ground arith) (h.followed i j k follows))
      | inr e ↦ h.given m k' v (ground arith)
    ];
  }

  -- A future that serves a key is not that of an idle caller.
  Serves-ne_idle :
      (s : Flight K V C) (k : K) (j : ℕ) → IsSound ops config s → Serves s k j → s.callers j ≢ idle
  Serves-ne_idle s k j h (inl leads) idles = cc
  Serves-ne_idle s k j h (inr (o, done, from)) idles = cc (h.fresh j idles)

  cancel_follower-Serves :
      (s : Flight K V C) (j : ℕ) (k : K) (m : ℕ)
      → Serves s k m
      → Serves (cancel_follower ops config j s) k m
  unfolding cancel_follower
  cancel_follower-Serves s j k m =
      Serves-keep s (cancel_follower ops config j s) k m inl
        (λ o q. ground (arith, nat_beq_iff j m)) (λ v q. q)

  pub cancel_follower-IsSound :
      (i j : ℕ) (k : K) (s : Flight K V C)
      → s.callers i ≡ following k j
      → IsSound ops config s
      → IsSound ops config (cancel_follower ops config j s)
  unfolding cancel_follower
  cancel_follower-IsSound i j k s follows h = record {
    fresh = λ m q.
        ground
          (arith, h.fresh m, nat_beq_iff j m, Serves-ne_idle s k j h (h.followed i j k follows));
    pending = λ m k' q. ground (arith, h.pending m k' q, nat_beq_iff j m);
    cached = h.cached;
    entry = λ k' m q. cancel_follower-Serves s j k' m (h.entry k' m q);
    followed = λ l m k' q. cancel_follower-Serves s j k' m (h.followed l m k' q);
    given = h.given;
  }
