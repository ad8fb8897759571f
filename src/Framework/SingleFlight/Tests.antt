-- ===== src/Framework/SingleFlight/Tests.antt =====
-- A cache that never evicts, and concrete inputs for the theorems on the enumeration cache.
use mangarr_gateway.Prelude.{
  Bool, Option, String, [], arith, false, if◌then◌else◌, inl, inr, ltb, nat_beq, none, refl, some,
  string_eq, true, ℕ, ◌+◌, ◌<◌, ◌==◌, ◌≡◌, ◌⊎◌,
}
use mangarr_gateway.Prelude.Dict
use mangarr_gateway.Prelude.Dict.{Dict}
use mangarr_gateway.Framework.SingleFlight.{
  TlruCache, Settings, ttu, value, cancelled, idle, leading, following, returned, Flight,
  get_or_fetch, fetched, calls, fetches, Reach, here, next, start,
}
use mangarr_gateway.Framework.SingleFlight.Sound.{Fetched, WasFetched}
use mangarr_gateway.Framework.SingleFlight.Fetched.{returned-WasFetched, hit_bounds}
use mangarr_gateway.Framework.SingleFlight.Cancelled.{cancel_follower-spreads}

abbrev live : ℕ → Option (ℕ × ℕ) → Option ℕ
live now none = none
live now (some (v, expiry)) = if ltb now expiry then some v else none

live-eq_some :
    (now expiry : ℕ) (b : Bool) (o : Option (ℕ × ℕ)) (v w : ℕ)
    → live now (if b then some (v, expiry) else o) ≡ some w
    → ((b ≡ true) × (v ≡ w) × (now < expiry)) ⊎ (live now o ≡ some w)
live-eq_some now expiry true o v w q = inl (ground arith)
live-eq_some now expiry false o v w q = inr q

abbrev Kept : Type 0
Kept = Dict String (ℕ × ℕ)

kept-get-put :
    (now later expiry : ℕ) (k j : String) (v w : ℕ) (c : Kept)
    → live later (Dict.get (Dict.put c k (v, expiry)) j) ≡ some w
    → ((k ≡ j) × (v ≡ w) × (later < expiry)) ⊎ (live later (Dict.get c j) ≡ some w)
kept-get-put now later expiry k j v w c q =
    elim (live-eq_some later expiry (k == j) (Dict.get c j) v w
      (rw (← Dict.get-put c k (v, expiry) j) q)) [
        | inl (same, it, before) ↦ inl ((string_eq.beq_iff k j).0 same, it, before)
        | inr old ↦ inr old
      ]

abbrev kept : TlruCache String ℕ Kept
kept = record {
  empty = [];
  get = λ now k c. live now (Dict.get c k);
  put = λ now k v expiry c. Dict.put c k (v, expiry);
  get-empty = λ now k. unfold Dict.get in refl;
  get-put = kept-get-put;
}

abbrev config : Settings String ℕ
config = record {
  source_key = λ k. k;
  default_ttl = 1800;
  ttl_overrides = [];
  max_ttl = 3600;
  empty_ttl = 60;
  is_empty = some (λ v. nat_beq v 0);
}

-- Caller 0 leads "a", callers 1 and 2 follow it.
abbrev crowd : Flight String ℕ Kept
crowd =
    get_or_fetch kept config 7 2 "a"
      (get_or_fetch kept config 6 1 "a" (get_or_fetch kept config 5 0 "a" (start kept config)))

crowd-Reach : (cancelling : Bool) → Reach kept config cancelling (start kept config) crowd
unfolding get_or_fetch Dict.get Dict.put
crowd-Reach cancelling =
    let one : Reach kept config cancelling (start kept config)
        (get_or_fetch kept config 5 0 "a" (start kept config)) =
      next here (calls 5 0 "a" refl) in
    let two : Reach kept config cancelling (start kept config)
        (get_or_fetch kept config 6 1 "a" (get_or_fetch kept config 5 0 "a" (start kept config))) =
      next one (calls 6 1 "a" refl) in
    next two (calls 7 2 "a" refl)

crowd_leads : crowd.callers 0 ≡ leading "a"
unfolding get_or_fetch Dict.get Dict.put
crowd_leads = refl

crowd_follows : crowd.callers 1 ≡ following "a" 0
unfolding get_or_fetch Dict.get Dict.put
crowd_follows = refl

crowd_other : crowd.callers 2 ≡ following "a" 0
unfolding get_or_fetch Dict.get Dict.put
crowd_other = refl

crowd_idle : crowd.callers 3 ≡ idle
unfolding get_or_fetch Dict.get Dict.put
crowd_idle = refl

crowd_pending : crowd.futures 0 ≡ none
unfolding get_or_fetch Dict.get Dict.put
crowd_pending = refl

crowd_entry : Dict.get crowd.inflight "a" ≡ some 0
unfolding get_or_fetch Dict.get Dict.put
crowd_entry = refl

crowd_missed : kept.get 8 "a" crowd.cache ≡ none
unfolding get_or_fetch Dict.get Dict.put
crowd_missed = refl

-- The leader has fetched 4.
abbrev served : Flight String ℕ Kept
served = fetched kept config 9 0 "a" 4 crowd

served-Reach : Reach kept config true (start kept config) served
served-Reach = next (crowd-Reach true) (fetches 9 0 "a" 4 crowd_leads)

served_hit : kept.get 1000 "a" served.cache ≡ some 4
unfolding fetched get_or_fetch ttu Dict.get Dict.put
served_hit = refl

served_returned : served.callers 0 ≡ returned "a" (value 4)
unfolding fetched get_or_fetch Dict.get Dict.put
served_returned = refl

returned-WasFetched_example : WasFetched served.fetches "a" 4
returned-WasFetched_example = returned-WasFetched kept config 0 "a" 4 served-Reach served_returned

hit_bounds_example :
    (t : ℕ) × Fetched "a" 4 t served.fetches × (1000 < t + 3600) × (1000 < t + 1800)
unfolding Dict.get
hit_bounds_example = hit_bounds kept config 1000 "a" 4 served-Reach served_hit

cancel_follower-spreads_example :
    (t : Flight String ℕ Kept) × Reach kept config true crowd t
    × (t.callers 2 ≡ returned "a" cancelled)
    × (t.callers 0 ≡ leading "a")
    × (t.callers 3 ≡ leading "a")
cancel_follower-spreads_example =
    cancel_follower-spreads kept config 8 0 1 2 3 "a" crowd crowd_leads crowd_follows crowd_other
      crowd_idle crowd_entry crowd_pending crowd_missed
