-- ===== src/Framework/SingleFlight/Sound/Entered.antt =====
-- `get_or_fetch` keeps the invariant up to its first wait.
use mangarr_gateway.Prelude.{
  Bool-cases, Eq, Option-cases, arith, inl, inr, nat_beq, nat_beq_iff, none, refl, update, ℕ, ◌==◌,
  ◌≡◌, ◌≢◌, string_eq,
}
use mangarr_gateway.Prelude.Dict
use mangarr_gateway.Framework.SingleFlight.{
  TlruCache, Settings, value, Phase, idle, leading, following, returned, Flight, joinable,
  get_or_fetch,
}
use mangarr_gateway.Framework.SingleFlight.Sound.{
  WasFetched, joinable-eq_some, joinable-eq_some, joinable-eq_some, Serves, IsSound, Serves-keep,
}

module _ {ℓ κ} {K : Type ℓ} {V : Type κ} {C : Type 0} ⦃e : Eq K⦄ (ops : TlruCache K V C)
    (config : Settings K V) where
  module _ (now i : ℕ) (k : K) (s : Flight K V C) (idles : s.callers i ≡ idle)
      (h : IsSound ops config s) where
    abbrev entered : Phase K V → Flight K V C
    entered p = record s { callers = update s.callers i p }

    entered-Serves : (p : Phase K V) (k' : K) (j : ℕ) → Serves s k' j → Serves (entered p) k' j
    entered-Serves p k' j =
        Serves-keep s (entered p) k' j (λ q. inl (ground (arith, nat_beq_iff i j))) (λ o q. q)
          (λ v q. q)

    abbrev led : Flight K V C
    led = record s {
      callers = update s.callers i (leading k);
      inflight = Dict.put s.inflight k i;
      futures = update s.futures i none;
    }

    led-Serves : (k' : K) (j : ℕ) → Serves s k' j → Serves led k' j
    led-Serves k' j =
        Serves-keep s led k' j (λ q. inl (ground (arith, nat_beq_iff i j)))
          (λ o q. ground (arith, h.fresh i, nat_beq_iff i j)) (λ v q. q)

    -- A hit, and a caller that follows.
    entered-IsSound :
        (p : Phase K V)
        → ((j : ℕ) (k' : K) → p ≡ following k' j → Serves s k' j)
        → ((k' : K) (v : V) → p ≡ returned k' (value v) → WasFetched s.fetches k' v)
        → p ≢ idle
        → ((k' : K) → p ≢ leading k')
        → IsSound ops config (entered p)
    entered-IsSound p follows gives busy apart = record {
      fresh = λ j q. ground (arith, h.fresh j, nat_beq_iff i j);
      pending = λ j k' q. ground (arith, h.pending j k', nat_beq_iff i j, apart k');
      cached = h.cached;
      entry = λ k' j q. entered-Serves p k' j (h.entry k' j q);
      followed = λ m j k' q. elim (Bool-cases (nat_beq i m)) [
        | inl e ↦ entered-Serves p k' j (follows j k' (ground arith))
        | inr e ↦ entered-Serves p k' j (h.followed m j k' (ground arith))
      ];
      given = λ j k' v q. elim (Bool-cases (nat_beq i j)) [
        | inl e ↦ gives k' v (ground arith)
        | inr e ↦ h.given j k' v (ground arith)
      ];
    }

    led-IsSound : IsSound ops config led
    led-IsSound = record {
      fresh = λ j q. ground (arith, h.fresh j, nat_beq_iff i j);
      pending = λ j k' q. elim (Bool-cases (nat_beq i j)) [
        | inl e ↦ inl (ground arith)
        | inr e ↦ rw e (h.pending j k' (ground arith))
      ];
      cached = h.cached;
      entry = λ k' j q. elim (Bool-cases (k == k')) [
        | inl same ↦
            inl (ground (arith, Dict.get-put s.inflight k i k', nat_beq_iff i j, e.beq_iff k k'))
        | inr other ↦
            led-Serves k' j (h.entry k' j (ground (arith, Dict.get-put s.inflight k i k')))
      ];
      followed = λ m j k' q. led-Serves k' j (h.followed m j k' (ground (arith, nat_beq_iff i m)));
      given = λ j k' v q. h.given j k' v (ground (arith, nat_beq_iff i j));
    }

    pub get_or_fetch-IsSound : IsSound ops config (get_or_fetch ops config now i k s)
    unfolding get_or_fetch
    get_or_fetch-IsSound = elim (Option-cases (ops.get now k s.cache)) [
      | inl missed ↦ elim (Option-cases (joinable s.futures (Dict.get s.inflight k))) [
        | inl alone ↦
            let q : get_or_fetch ops config now i k s ≡ led =
              rw (get_or_fetch, missed, alone) refl in
            rw q led-IsSound
        | inr (j, joined) ↦
            let q : get_or_fetch ops config now i k s ≡ entered (following k j) =
              rw (get_or_fetch, missed, joined) refl in
            rw q (
              entered-IsSound (following k j)
                (λ m k' q.
                  h.entry k' m
                    (cc (joinable-eq_some s.futures (Dict.get s.inflight k) j joined, q)))
                (λ k' v q. cc) (λ q. cc) (λ k' q. cc))
      ]
      | inr (v, hit) ↦
          let q : get_or_fetch ops config now i k s ≡ entered (returned k (value v)) =
            rw (get_or_fetch, hit) refl in
          rw q (
            entered-IsSound (returned k (value v)) (λ m k' q. cc)
              (λ k' w q. let (t, from, live) = h.cached now k' w (cc (hit, q)) in (t, from))
              (λ q. cc) (λ k' q. cc))
    ]
