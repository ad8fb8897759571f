-- ===== src/Framework/SingleFlight/Cancelled.antt =====
-- What the cancellation of a follower in `await inflight` does to the other callers.
use mangarr_gateway.Prelude.{Eq, arith, nat_beq_iff, none, refl, some, true, ℕ, ◌≡◌, string_eq}
use mangarr_gateway.Prelude.Dict
use mangarr_gateway.Framework.SingleFlight.{
  TlruCache, Settings, cancelled, idle, leading, following, returned, Flight, get_or_fetch, woken,
  cancel_follower, calls, wakes, follower_cancelled, Reach, here, next,
}

module _ {ℓ κ} {K : Type ℓ} {V : Type κ} {C : Type 0} ⦃e : Eq K⦄ where
  module _ (ops : TlruCache K V C) (config : Settings K V) where
    -- The follower j is cancelled, the follower f wakes, and m calls.
    abbrev after_cancel : ℕ → ℕ → ℕ → ℕ → ℕ → K → Flight K V C → Flight K V C
    after_cancel now i j f m k s =
        get_or_fetch ops config now m k
          (woken ops config f k cancelled (cancel_follower ops config i s))

    after_cancel-Reach :
        (now i j f m : ℕ) (k : K) (s : Flight K V C)
        → s.callers j ≡ following k i
        → s.callers f ≡ following k i
        → s.callers m ≡ idle
        → s.futures i ≡ none
        → Reach ops config true s (after_cancel now i j f m k s)
    unfolding woken cancel_follower
    after_cancel-Reach now i j f m k s follows other idles pending =
        let one : Reach ops config true s (cancel_follower ops config i s) =
          next here (follower_cancelled j i k refl follows) in
        let two : Reach ops config true s
            (woken ops config f k cancelled (cancel_follower ops config i s)) =
          next one (wakes f i k cancelled other (ground (arith, nat_beq_iff i i))) in
        next two (calls now m k (ground (arith, nat_beq_iff f m)))

    -- The cancellation of one follower ends another one as cancelled, and lets a later caller fetch
    -- the key while its first leader still does.
    pub cancel_follower-spreads :
        (now i j f m : ℕ) (k : K) (s : Flight K V C)
        → s.callers i ≡ leading k
        → s.callers j ≡ following k i
        → s.callers f ≡ following k i
        → s.callers m ≡ idle
        → Dict.get s.inflight k ≡ some i
        → s.futures i ≡ none
        → ops.get now k s.cache ≡ none
        → (t : Flight K V C) × Reach ops config true s t
          × (t.callers f ≡ returned k cancelled)
          × (t.callers i ≡ leading k)
          × (t.callers m ≡ leading k)
    unfolding get_or_fetch woken cancel_follower
    cancel_follower-spreads now i j f m k s leads follows other idles entry pending missed = (
      after_cancel now i j f m k s,
      after_cancel-Reach now i j f m k s follows other idles pending,
      ground (arith, nat_beq_iff f f, nat_beq_iff m f, nat_beq_iff i i),
      ground (arith, nat_beq_iff f i, nat_beq_iff m i, nat_beq_iff i i),
      ground (arith, nat_beq_iff f m, nat_beq_iff m m, nat_beq_iff i i),
    )
