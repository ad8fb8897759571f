-- ===== src/Framework/ImageFetch.antt =====
-- `fetch_image_via_pool` of src/manga_gateway/framework/context.py: one page image through the proxy
-- pool. What the source's fetch answers to the n-th attempt, the clock and the random source are
-- arguments.
mod Tests
pub mod Attempts
use mangarr_gateway.Prelude.{
  Bool, List, Option, String, [], any, if◌then◌else◌, none, some, string_eq, suc, zero, ℕ, ◌+◌,
  ◌==◌, ◌∷◌,
}
use mangarr_gateway.Framework.ProxyPool.{
  PooledProxy, ProxyPool, selection_key, acquire, mark_failed,
}

-- How a fetch ends: with the image, with a SourceError or an httpx.HTTPError, or with another
-- exception, which nothing here catches.
pub data Answer {ℓ} (A : Type ℓ) : Type ℓ where
  served : A → Answer A
  failed : String → Answer A
  crashed : String → Answer A

pub data Outcome {ℓ} (A : Type ℓ) : Type ℓ where
  given : A → Outcome A
  raised : String → Outcome A
  source_unavailable : Outcome A

-- The outcome, the proxies that were used, in order, the sticky proxy and the pool after.
pub record Run {ℓ} (A : Type ℓ) : Type ℓ where
  pub outcome : Outcome A
  pub used : List PooledProxy
  pub sticky : Option PooledProxy
  pub pool : ProxyPool

-- `if last_exc is not None: raise last_exc`, or the terminal error.
abbrev pub ended {ℓ} : {A : Type ℓ} → Option String → Outcome A
ended none = source_unavailable
ended (some e) = raised e

abbrev pub was_tried : List String → PooledProxy → Bool
was_tried tried p = any (λ k. k == selection_key p) tried

-- The sticky proxy, unless it was tried for this page, or else an acquired one.
unfoldable pub select :
    ℕ → ℕ → List String → Option PooledProxy → ProxyPool → Option PooledProxy × ProxyPool
select now roll tried none pool = acquire now roll tried pool
select now roll tried (some p) pool =
    if was_tried tried p then acquire now roll tried pool else (some p, pool)

-- A failed sticky proxy is dropped.
abbrev pub drop_sticky : PooledProxy → Option PooledProxy → Option PooledProxy
drop_sticky p none = none
drop_sticky p (some q) = if selection_key q == selection_key p then none else some q

module _ {ℓ} {A : Type ℓ} (fetch : ℕ → PooledProxy → Answer A) (now roll : ℕ → ℕ) where
  -- The loop with `attempts` left, at the n-th attempt.
  unfoldable pub attempt_all :
      ℕ → ℕ → List String → Option String → Option PooledProxy → ProxyPool → Run A
  unfolding select
  attempt_all zero n tried last_exc sticky pool = record {
    outcome = ended last_exc;
    used = [];
    sticky = sticky;
    pool = pool;
  }
  attempt_all (suc attempts) n tried last_exc sticky pool =
      let (picked, pool') = select (now n) (roll n) tried sticky pool in
      elim picked [
        | none ↦ record { outcome = ended last_exc; used = []; sticky = sticky; pool = pool' }
        | some p ↦ elim (fetch n p) [
          | served a ↦ record { outcome = given a; used = p ∷ []; sticky = some p; pool = pool' }
          | crashed e ↦ record { outcome = raised e; used = p ∷ []; sticky = sticky; pool = pool' }
          | failed e ↦
              let rest =
                attempt_all attempts (n + 1) (selection_key p ∷ tried) (some e)
                  (drop_sticky p sticky) (mark_failed (now n) p pool') in
              record rest { used = p ∷ rest.used }
        ]
      ]

  unfoldable pub fetch_image_via_pool : ℕ → Option PooledProxy → ProxyPool → Run A
  unfolding attempt_all
  fetch_image_via_pool image_proxy_max_attempts sticky pool =
      attempt_all image_proxy_max_attempts 0 [] none sticky pool
