-- ===== src/Framework/Request/Ends.antt =====
-- A request ends after a bounded number of sends.
use mangarr_gateway.Prelude.{
  Bool, Bool-cases, List, Option, Option-cases, String, [], any, ap, arith, false, inl, inr, leb,
  length, none, not, refl, some, string_eq, suc, sym, true, zero, ℕ, ◌*◌, ◌+◌, ◌-◌, ◌<◌, ◌==◌, ◌||◌,
  ◌∙◌, ◌∷◌, ◌≡◌, ◌≤◌, ◌⊎◌,
}
use mangarr_gateway.Framework.ProxyPool.{
  PooledProxy, SourcePinnedProxies, pinned, cooled, acquire, selection_key, rotate, get_or_acquire,
}
use mangarr_gateway.Framework.ProxyPool.Selection.{acquire-usable, pinned_lem}
use mangarr_gateway.Prelude.Dict
use mangarr_gateway.Framework.Request.{
  Reply, World, Context, add_key, is_transport, is_retryable, reconcile, pinned_request,
  request_response, retrying, request,
}
use mangarr_gateway.Framework.Request.Sends.{Within, sends_of_one, reconcile-Within, IsFinal}

-- A rotation answers no excluded proxy.
rotate-new :
    (now roll : ℕ) (source_key : String) (excluded : List String) (s : SourcePinnedProxies)
    (q : PooledProxy)
    → (rotate now roll source_key excluded s).0 ≡ some q
    → any (λ k. k == selection_key q) excluded ≡ false
unfolding rotate
rotate-new now roll key excluded s q h = elim (Option-cases s.pool) [
  | inl e ↦ let impossible : none ≡ some q = rw (e) at h in cc
  | inr (pool, e) ↦
      let step : rotate now roll key excluded s
          ≡ pinned key (acquire now roll excluded (cooled now (Dict.get s.pins key) pool))
              (Dict.pop s.pins key) =
        rw (rotate, e) refl in
      let (got, pin) =
        pinned_lem key (acquire now roll excluded (cooled now (Dict.get s.pins key) pool))
          (Dict.pop s.pins key) q (ap (λ x. x.0) (sym step) ∙ h) in
      ground (arith, acquire-usable now roll excluded (cooled now (Dict.get s.pins key) pool) q got)
]

some-injective {ℓ} : {A : Type ℓ} {a b : A} → some a ≡ some b → a ≡ b
some-injective e = cc

module _ (c : Context) (answer : ℕ → Reply) (now roll : ℕ → ℕ) where
  -- There is fuel for the keys that may still be tried, of which the pin is one.
  record HasRoom (fuel : ℕ) (pin : Option PooledProxy) (tried : List String) : Type 0 where
    fuel_left : c.image_proxy_max_attempts < fuel + length tried
    some_left : (length tried ≡ 0) ⊎ (length tried < c.image_proxy_max_attempts)
    new : (p : PooledProxy) → pin ≡ some p → any (λ k. k == selection_key p) tried ≡ false

  pinned_request-Within :
      (own_pin : Bool) (fuel : ℕ) (pin : Option PooledProxy) (tried : List String) (w : World)
      → HasRoom fuel pin tried
      → Within c answer now roll
          (fuel * sends_of_one c answer now roll)
          w
          (pinned_request c answer now roll own_pin fuel pin tried w)
  unfolding pinned_request
  pinned_request-Within own_pin zero pin tried w h =
      absurd (ground (arith, h.fuel_left, h.some_left))
  pinned_request-Within own_pin (suc fuel) none tried w h =
      let (final, few) = reconcile-Within c answer now roll none w in (final, grind arith)
  pinned_request-Within own_pin (suc fuel) (some old) tried w h =
      let (final, few) = reconcile-Within c answer now roll (some old) w in
      let r = reconcile c answer now roll (some old) w in
      let tried' = add_key (selection_key old) tried in
      let one : tried' ≡ selection_key old ∷ tried = rw (h.new old refl) refl in
      let n = length r.1.sent in
      let moved = rotate (now n) (roll n) c.source_key tried' r.1.pins in
      elim (Bool-cases (
        not (is_transport r.0)
        || (not own_pin || leb c.image_proxy_max_attempts (length tried')))) [
          | inl stop ↦ rw (pinned_request, stop) (final, grind arith)
          | inr go ↦ elim (Option-cases moved.0) [
            | inl none_left ↦ rw (pinned_request, go, none_left) (final, grind arith)
            | inr (p, got) ↦
                let room : HasRoom fuel (some p) tried' = record {
                  fuel_left = omega (arith, ap length one, h.fuel_left);
                  some_left = inr (ground (arith, one));
                  new = λ q e.
                      rw (← some-injective e)
                        (rotate-new (now n) (roll n) c.source_key tried' r.1.pins p got);
                } in
                let (last, rest) =
                  pinned_request-Within own_pin fuel (some p) tried' (record r.1 { pins = moved.1 })
                    room in
                rw (pinned_request, go, got) (last, grind arith)
          ]
        ]

  start_room : (pin : Option PooledProxy) → HasRoom (c.image_proxy_max_attempts + 1) pin []
  start_room pin = record { fuel_left = omega arith; some_left = inl refl; new = λ p e. refl }

  abbrev pub sends_of_request : ℕ
  sends_of_request = (c.image_proxy_max_attempts + 1) * sends_of_one c answer now roll

  request_response-Within :
      (active : Option PooledProxy) (w : World)
      → Within c answer now roll sends_of_request w (request_response c answer now roll active w)
  unfolding request_response
  request_response-Within (some p) w =
      pinned_request-Within false (c.image_proxy_max_attempts + 1) (some p) [] w
        (start_room (some p))
  request_response-Within none w = elim (Bool-cases c.solve_search_via_proxy_pool) [
    | inr plain ↦
        rw (request_response, plain)
          (pinned_request-Within false (c.image_proxy_max_attempts + 1) none [] w (start_room none))
    | inl opted ↦
        let n = length w.sent in
        let (pin, pins) = get_or_acquire (now n) (roll n) c.source_key w.pins in
        rw (request_response, opted)
          (pinned_request-Within true (c.image_proxy_max_attempts + 1) pin []
            (record w { pins = pins }) (start_room pin))
  ]

  retrying-Within :
      (attempts : ℕ) (active : Option PooledProxy) (w : World)
      → IsFinal (retrying c answer now roll attempts active w).0
        × (length (retrying c answer now roll attempts active w).1.sent
            ≤ length w.sent + (attempts + 1) * sends_of_request)
  unfolding retrying
  retrying-Within zero active w =
      let (final, few) = request_response-Within active w in (final, grind arith)
  retrying-Within (suc attempts) active w =
      let r = request_response c answer now roll active w in
      let (final, few) = request_response-Within active w in
      elim (Bool-cases (is_retryable r.0)) [
        | inr stop ↦ rw (retrying, stop) (final, grind arith)
        | inl again ↦
            let (last, rest) = retrying-Within attempts active r.1 in
            rw (retrying, again) (last, grind arith)
      ]

  -- Whatever the upstream, the pool and the clock answer, a request with its retries ends: a returned
  -- response is a success, and the HTTP error that is left is no 401, 403 or 404. There are at most
  -- max(1, retry_attempts) attempts of image_proxy_max_attempts + 1 rounds, with
  -- 1 + max(1, image_proxy_max_attempts) sends each.
  pub request-Within :
      (active : Option PooledProxy) (w : World)
      → IsFinal (request c answer now roll active w).0
        × (length (request c answer now roll active w).1.sent
            ≤ length w.sent + (c.retry_attempts - 1 + 1) * sends_of_request)
  unfolding request
  request-Within active w = retrying-Within (c.retry_attempts - 1) active w
