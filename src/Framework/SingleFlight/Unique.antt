-- ===== src/Framework/SingleFlight/Unique.antt =====
-- How many callers of `get_or_fetch` fetch the same key at a time.
use mangarr_gateway.Prelude.{Eq, arith, false, nat_beq_iff, none, some, ℕ, ◌≡◌, string_eq}
use mangarr_gateway.Prelude.Dict
use mangarr_gateway.Framework.SingleFlight.{
  replace, replaces, TlruCache, Settings, Outcome, raised, cancelled, idle, leading, Flight,
  get_or_fetch, fetched, fetch_failed, woken, Step, calls, fetches, raises, leader_cancelled, wakes,
  follower_cancelled, Reach, here, next, start,
}

module _ {ℓ κ} {K : Type ℓ} {V : Type κ} {C : Type 0} ⦃e : Eq K⦄ where
  -- The future of a leader is the one in flight, and is not done.
  abbrev Leads : Flight K V C → Type (ℓ ⊔ κ)
  Leads s =
      (i : ℕ) (k : K)
      → s.callers i ≡ leading k
      → (Dict.get s.inflight k ≡ some i) × (s.futures i ≡ none)

  module _ (ops : TlruCache K V C) (config : Settings K V) where
    get_or_fetch-Leads :
        (now i : ℕ) (k : K) (s : Flight K V C)
        → s.callers i ≡ idle
        → Leads s
        → Leads (get_or_fetch ops config now i k s)
    unfolding get_or_fetch
    get_or_fetch-Leads now i k s idles h j k' leads =
        ground (arith, h j k', e.beq_iff k k', nat_beq_iff i j, Dict.get-put s.inflight k i k')

    fetched-Leads :
        (now i : ℕ) (k : K) (v : V) (s : Flight K V C)
        → s.callers i ≡ leading k
        → Leads s
        → Leads (fetched ops config now i k v s)
    unfolding fetched
    fetched-Leads now i k v s leading_k h j k' leads =
        ground (arith, h i k, h j k', e.beq_iff k k', nat_beq_iff i j, Dict.get-pop s.inflight k k')

    fetch_failed-Leads :
        (i : ℕ) (k : K) (o : Outcome V) (s : Flight K V C)
        → s.callers i ≡ leading k
        → Leads s
        → Leads (fetch_failed ops config i k o s)
    unfolding fetch_failed
    fetch_failed-Leads i k o s leading_k h j k' leads =
        ground (arith, h i k, h j k', e.beq_iff k k', nat_beq_iff i j, Dict.get-pop s.inflight k k')

    Step-Leads : {s t : Flight K V C} → Step ops config false s t → Leads s → Leads t
    Step-Leads {s} (calls now i k idles) h = get_or_fetch-Leads now i k s idles h
    Step-Leads {s} (fetches now i k v leads) h = fetched-Leads now i k v s leads h
    Step-Leads {s} (raises i k message leads) h = fetch_failed-Leads i k (raised message) s leads h
    Step-Leads {s} (leader_cancelled i k leads) h = fetch_failed-Leads i k cancelled s leads h
    Step-Leads {s} (replaces now k v) h = unfold replace in h
    Step-Leads {s} (wakes i j k o follows done) h =
        unfold woken in λ m k' leads. ground (arith, h m k')
    Step-Leads {s} (follower_cancelled i j k on follows) h = cc

    Reach-Leads : {s : Flight K V C} → Reach ops config false (start ops config) s → Leads s
    Reach-Leads here = λ i k leads. cc
    Reach-Leads (next r st) = Step-Leads st (Reach-Leads r)

    -- Where no follower is cancelled, two callers never fetch the same key at a time.
    pub leading_unique :
        {s : Flight K V C} (i j : ℕ) (k : K)
        → Reach ops config false (start ops config) s
        → s.callers i ≡ leading k
        → s.callers j ≡ leading k
        → i ≡ j
    leading_unique i j k r p q = ground (arith, Reach-Leads r i k p, Reach-Leads r j k q)
