-- ===== src/Framework/ImageFetch/Attempts.antt =====
-- Which proxies an image fetch uses, and what it ends with.
use mangarr_gateway.Prelude.{
  Bool-cases, List, Option, Option-cases, String, [], arith, false, inl, inr, length, none, refl,
  some, suc, zero, ℕ, ◌+◌, ◌∷◌, ◌≡◌, ◌≤◌, ◌⊎◌,
}
use mangarr_gateway.Framework.ProxyPool.{PooledProxy, ProxyPool, selection_key, mark_failed}
use mangarr_gateway.Framework.ProxyPool.Selection.{acquire-usable}
use mangarr_gateway.Framework.ImageFetch.{
  Answer, served, failed, crashed, given, raised, Run, ended, was_tried, select, attempt_all,
  drop_sticky, fetch_image_via_pool,
}

-- No proxy is used twice, nor one whose key was tried.
abbrev pub NoRepeat : List String → List PooledProxy → Type 0
NoRepeat tried [] = Unit
NoRepeat tried (p ∷ ps) = (was_tried tried p ≡ false) × NoRepeat (selection_key p ∷ tried) ps

select-fresh :
    (now roll : ℕ) (tried : List String) (sticky : Option PooledProxy) (pool : ProxyPool)
    (p : PooledProxy)
    → (select now roll tried sticky pool).0 ≡ some p
    → was_tried tried p ≡ false
unfolding select
select-fresh now roll tried none pool p h = ground (arith, acquire-usable now roll tried pool p h)
select-fresh now roll tried (some q) pool p h = elim (Bool-cases (was_tried tried q)) [
  | inl old ↦ ground (arith, acquire-usable now roll tried pool p (ground arith))
  | inr new ↦ ground arith
]

Answer-cases {ℓ} :
    {A : Type ℓ} (r : Answer A)
    → ((a : A) × (r ≡ served a))
      ⊎ ((e : String) × (r ≡ failed e))
      ⊎ ((e : String) × (r ≡ crashed e))
Answer-cases (served a) = inl (a, refl)
Answer-cases (failed e) = inr (inl (e, refl))
Answer-cases (crashed e) = inr (inr (e, refl))

module _ {ℓ} {A : Type ℓ} (fetch : ℕ → PooledProxy → Answer A) (now roll : ℕ → ℕ) where
  -- An image comes from a fetch through the proxy that is sticky from then on, and an error from a
  -- fetch too, unless none took place.
  abbrev pub IsExplained : Option String → Run A → Type ℓ
  IsExplained last_exc r =
      ((n : ℕ) × (p : PooledProxy) × (a : A) × (fetch n p ≡ served a)
        × (r.outcome ≡ given a)
        × (r.sticky ≡ some p))
      ⊎ ((n : ℕ) × (p : PooledProxy) × (e : String) × ((fetch n p ≡ failed e)
            ⊎ (fetch n p ≡ crashed e))
          × (r.outcome ≡ raised e))
      ⊎ ((r.outcome ≡ ended last_exc) × (r.used ≡ []))

  abbrev Sound : ℕ → List String → Option String → Run A → Type ℓ
  Sound attempts tried last_exc r =
      NoRepeat tried r.used × (length r.used ≤ attempts) × IsExplained last_exc r

  -- After a failure, a run that made no further fetch ends with this failure.
  after_failure :
      (attempts n : ℕ) (tried : List String) (last_exc : Option String) (p : PooledProxy)
      (e : String) (r : Run A)
      → was_tried tried p ≡ false
      → fetch n p ≡ failed e
      → Sound attempts (selection_key p ∷ tried) (some e) r
      → Sound (suc attempts) tried last_exc (record r { used = p ∷ r.used })
  after_failure attempts n tried last_exc p e r new bad (apart, few, inl got) =
      ((new, apart), omega (arith, few), inl got)
  after_failure attempts n tried last_exc p e r new bad (apart, few, inr (inl lost)) =
      ((new, apart), omega (arith, few), inr (inl lost))
  after_failure attempts n tried last_exc p e r new bad (apart, few, inr (inr (out, none_used))) =
      ((new, apart), omega (arith, few), inr (inl (n, p, e, inl bad, out)))

  attempt_all-Sound :
      (attempts n : ℕ) (tried : List String) (last_exc : Option String)
      (sticky : Option PooledProxy) (pool : ProxyPool)
      → Sound attempts tried last_exc
          (attempt_all fetch now roll attempts n tried last_exc sticky pool)
  unfolding attempt_all
  attempt_all-Sound zero n tried last_exc sticky pool = (tt, omega arith, inr (inr (refl, refl)))
  attempt_all-Sound (suc attempts) n tried last_exc sticky pool =
      elim (Option-cases (select (now n) (roll n) tried sticky pool).0) [
        | inl none_left ↦ rw (attempt_all, none_left) (tt, omega arith, inr (inr (refl, refl)))
        | inr (p, picked) ↦
            let new = select-fresh (now n) (roll n) tried sticky pool p picked in
            elim (Answer-cases (fetch n p)) [
              | inl (a, good) ↦
                  rw (attempt_all, picked, good)
                    ((new, tt), omega arith, inl (n, p, a, good, refl, refl))
              | inr (inr (e, worse)) ↦
                  rw (attempt_all, picked, worse)
                    ((new, tt), omega arith, inr (inl (n, p, e, inr worse, refl)))
              | inr (inl (e, bad)) ↦
                  let left = drop_sticky p sticky in
                  let cooled =
                    mark_failed (now n) p (select (now n) (roll n) tried sticky pool).1 in
                  let excluded = selection_key p ∷ tried in
                  rw (attempt_all, picked, bad)
                    (after_failure attempts n tried last_exc p e
                      (attempt_all fetch now roll attempts (n + 1) excluded (some e) left cooled)
                      new bad (attempt_all-Sound attempts (n + 1) excluded (some e) left cooled))
            ]
      ]

  -- Whatever the fetches, the clock and the random source answer: at most image_proxy_max_attempts
  -- fetches take place, no two through one proxy. An image comes from a fetch through the proxy that
  -- is sticky afterwards, an error is that of a fetch, and otherwise none took place and the source
  -- is unavailable.
  pub fetch_image_via_pool_sound :
      (image_proxy_max_attempts : ℕ) (sticky : Option PooledProxy) (pool : ProxyPool)
      → NoRepeat [] (fetch_image_via_pool fetch now roll image_proxy_max_attempts sticky pool).used
        × (length (fetch_image_via_pool fetch now roll image_proxy_max_attempts sticky pool).used
            ≤ image_proxy_max_attempts)
        × IsExplained none
            (fetch_image_via_pool fetch now roll image_proxy_max_attempts sticky pool)
  unfolding fetch_image_via_pool
  fetch_image_via_pool_sound attempts sticky pool = attempt_all-Sound attempts 0 [] none sticky pool
