-- ===== src/Framework/SingleFlight/Fetched.antt =====
-- Where the values come from that `get_or_fetch` caches and returns, and how old they are.
use mangarr_gateway.Prelude.{
  Bool, Eq, arith, if◌then◌else◌, refl, some, ℕ, ◌+◌, ◌<◌, ◌≡◌, string_eq,
}
use mangarr_gateway.Prelude.Dict
use mangarr_gateway.Framework.SingleFlight.{
  TlruCache, Settings, value_is_empty, override, ttu, value, raised, cancelled, returned, Flight,
  Step, calls, fetches, raises, leader_cancelled, replaces, wakes, follower_cancelled, Reach, here,
  next, start,
}
use mangarr_gateway.Framework.SingleFlight.Sound.{Fetched, WasFetched, IsSound}
use mangarr_gateway.Framework.SingleFlight.Sound.Entered.{get_or_fetch-IsSound}
use mangarr_gateway.Framework.SingleFlight.Sound.Ended.{
  fetched-IsSound, fetch_failed-IsSound, replace-IsSound,
}
use mangarr_gateway.Framework.SingleFlight.Sound.Followed.{woken-IsSound, cancel_follower-IsSound}

module _ {ℓ κ} {K : Type ℓ} {V : Type κ} {C : Type 0} ⦃e : Eq K⦄ (ops : TlruCache K V C)
    (config : Settings K V) where
  module _ {cancelling : Bool} where
    Step-IsSound :
        {s t : Flight K V C}
        → Step ops config cancelling s t
        → IsSound ops config s
        → IsSound ops config t
    Step-IsSound {s} (calls now i k idles) h = get_or_fetch-IsSound ops config now i k s idles h
    Step-IsSound {s} (fetches now i k v leads) h = fetched-IsSound ops config now i k v s leads h
    Step-IsSound {s} (raises i k message leads) h =
        fetch_failed-IsSound ops config i k (raised message) s leads (λ v q. cc) h
    Step-IsSound {s} (leader_cancelled i k leads) h =
        fetch_failed-IsSound ops config i k cancelled s leads (λ v q. cc) h
    Step-IsSound {s} (replaces now k v) h = replace-IsSound ops config now k v s h
    Step-IsSound {s} (wakes i j k o follows done) h =
        woken-IsSound ops config i j k o s follows done h
    Step-IsSound {s} (follower_cancelled i j k on follows) h =
        cancel_follower-IsSound ops config i j k s follows h

    Reach-IsSound :
        {s : Flight K V C} → Reach ops config cancelling (start ops config) s → IsSound ops config s
    Reach-IsSound here = record {
      fresh = λ i q. refl;
      pending = λ i k q. cc;
      cached = λ now k v q. cc (ops.get-empty now k);
      entry = λ k j q. unfold Dict.get in cc;
      followed = λ i j k q. cc;
      given = λ i k v q. cc;
    }
    Reach-IsSound (next r st) = Step-IsSound st (Reach-IsSound r)

    -- A value that a call has returned was fetched for the key of the call.
    pub returned-WasFetched :
        {s : Flight K V C} (i : ℕ) (k : K) (v : V)
        → Reach ops config cancelling (start ops config) s
        → s.callers i ≡ returned k (value v)
        → WasFetched s.fetches k v
    returned-WasFetched i k v r q = (Reach-IsSound r).given i k v q

    -- A value that is found in the cache was fetched for its key, less than `max_ttl` ago, and less
    -- than `empty_ttl` ago if it is empty.
    pub hit_bounds :
        {s : Flight K V C} (now : ℕ) (k : K) (v : V)
        → Reach ops config cancelling (start ops config) s
        → ops.get now k s.cache ≡ some v
        → (t : ℕ) × Fetched k v t s.fetches
          × (now < t + config.max_ttl)
          × (now
              < t
                + (if value_is_empty config.is_empty v
                    then config.empty_ttl
                    else override config k))
    unfolding ttu
    hit_bounds now k v r q =
        let (t, from, live) = (Reach-IsSound r).cached now k v q in
        (t, from, ground arith, ground arith)
