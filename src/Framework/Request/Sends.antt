-- ===== src/Framework/Request/Sends.antt =====
-- How many sends a request makes, and how it ends.
use mangarr_gateway.Prelude.{
  Bool, Bool-cases, List, Option, Option-cases, String, [], arith, false, if◌then◌else◌, inl, inr,
  length, length-append, max, not, refl, some, suc, true, zero, ℕ, ◌&&◌, ◌++◌, ◌+◌, ◌||◌, ◌∷◌, ◌≡◌,
  ◌≤◌, ◌⊎◌,
}
use mangarr_gateway.Framework.Request.Responses.{Response, is_permanent, is_success, is_waf_block}
use mangarr_gateway.Framework.Request.{
  Reply, Outcome, returned, source_error, http_status_error, transport_error, raised, out_of_fuel,
  World, Context, raise_for_status, rotate_and_retry, responded, broken, failed, Sent, blocks,
  settle, sent_with, pin_keys, cf_stale, csrf_stale, reconcile,
}
use mangarr_gateway.Framework.ProxyPool.{PooledProxy, selection_key, rotate}

-- A response that is returned is a success, and an error that may be retried is no permanent status.
abbrev pub IsFinal : Outcome → Type 0
IsFinal (returned resp) = is_success resp.status ≡ true
IsFinal (http_status_error status) = is_permanent status ≡ false
IsFinal (source_error code status) = Unit
IsFinal (transport_error e) = Unit
IsFinal (raised e) = Unit
IsFinal out_of_fuel = ⊥

Reply-cases :
    (r : Reply)
    → ((resp : Response) × (r ≡ responded resp))
      ⊎ ((e : String) × (r ≡ broken e))
      ⊎ ((e : String) × (r ≡ failed e))
Reply-cases (responded resp) = inl (resp, refl)
Reply-cases (broken e) = inr (inl (e, refl))
Reply-cases (failed e) = inr (inr (e, refl))

length-sent : (xs : List Sent) (x : Sent) → length (xs ++ x ∷ []) ≡ length xs + 1
length-sent xs x = length-append xs (x ∷ [])

module _ (c : Context) (answer : ℕ → Reply) (now roll : ℕ → ℕ) where
  raise_for_status-IsFinal :
      (resp : Response) → is_permanent resp.status ≡ false → IsFinal (raise_for_status resp)
  raise_for_status-IsFinal resp h = elim (Bool-cases (is_success resp.status)) [
    | inl e ↦ rw e e
    | inr e ↦ rw e h
  ]

  -- At most `k` sends more, and a final outcome.
  abbrev pub Within : ℕ → World → Outcome × World → Type 0
  Within k w r = IsFinal r.0 × (length r.1.sent ≤ length w.sent + k)

  rotate_and_retry-Within :
      (attempts : ℕ) (tried : List String) (status : ℕ) (w : World)
      → Within attempts w (rotate_and_retry c answer now roll attempts tried status w)
  unfolding rotate_and_retry
  rotate_and_retry-Within zero tried status w = (tt, omega arith)
  rotate_and_retry-Within (suc attempts) tried status w =
      let n = length w.sent in
      let moved = rotate (now n) (roll n) c.source_key tried w.pins in
      elim (Option-cases moved.0) [
        | inl none_left ↦ rw (rotate_and_retry, none_left) (tt, omega arith)
        | inr (p, got) ↦
            let x : Sent = record { force_cf = true; force_csrf = false; pin = some p } in
            let w' : World = record { sent = w.sent ++ x ∷ []; pins = moved.1 } in
            let more : length w'.sent ≡ length w.sent + 1 = length-sent w.sent x in
            elim (Reply-cases (answer n)) [
              | inr (inl (e, r)) ↦ rw (rotate_and_retry, got, r) (tt, omega (arith, more))
              | inr (inr (e, r)) ↦ rw (rotate_and_retry, got, r) (tt, omega (arith, more))
              | inl (resp, r) ↦ elim (Bool-cases (is_permanent resp.status)) [
                | inr fine ↦
                    rw (rotate_and_retry, got, r, fine)
                      (raise_for_status-IsFinal resp fine, omega (arith, more))
                | inl bad ↦ elim (Bool-cases (blocks c.is_origin_block resp)) [
                  | inr other ↦ rw (rotate_and_retry, got, r, bad, other) (tt, omega (arith, more))
                  | inl blocked ↦
                      let (final, few) =
                        rotate_and_retry-Within attempts (selection_key p ∷ tried) status w' in
                      rw (rotate_and_retry, got, r, bad, blocked) (final, omega (arith, more, few))
                ]
              ]
            ]
      ]

  settle-Within :
      (refreshed : Bool) (pin : Option PooledProxy) (resp : Response) (w : World)
      → Within
          (if refreshed then 0 else c.image_proxy_max_attempts)
          w
          (settle c answer now roll refreshed pin resp w)
  unfolding settle
  settle-Within refreshed pin resp w = elim (Bool-cases (is_permanent resp.status)) [
    | inr fine ↦ rw (settle, fine) (raise_for_status-IsFinal resp fine, omega arith)
    | inl bad ↦ elim (Bool-cases (is_waf_block resp)) [
      | inl waf ↦ rw (settle, bad, waf) (tt, omega arith)
      | inr plain ↦ elim (Bool-cases (not refreshed && blocks c.is_origin_block resp)) [
        | inr other ↦ rw (settle, bad, plain, other) (tt, omega arith)
        | inl blocked ↦
            let (final, few) =
              rotate_and_retry-Within c.image_proxy_max_attempts (pin_keys pin) resp.status w in
            rw (settle, bad, plain, blocked) (final, ground (arith, few))
      ]
    ]
  ]

  -- One send, and then one refreshed send or the rotations.
  abbrev pub sends_of_one : ℕ
  sends_of_one = 1 + max 1 c.image_proxy_max_attempts

  pub reconcile-Within :
      (pin : Option PooledProxy) (w : World)
      → Within sends_of_one w (reconcile c answer now roll pin w)
  unfolding reconcile
  reconcile-Within pin w =
      let w' = sent_with false false pin w in
      let more : length w'.sent ≡ length w.sent + 1 =
        length-sent w.sent (record { force_cf = false; force_csrf = false; pin = pin }) in
      elim (Reply-cases (answer (length w.sent))) [
        | inr (inl (e, r)) ↦ rw (reconcile, r) (tt, omega (arith, more))
        | inr (inr (e, r)) ↦ rw (reconcile, r) (tt, omega (arith, more))
        | inl (resp, r) ↦ elim (Bool-cases (cf_stale c resp || csrf_stale c resp)) [
          | inr current ↦
              let (final, few) = settle-Within false pin resp w' in
              rw (reconcile, r, current) (final, omega (arith, more, few))
          | inl stale ↦
              let x : Sent = record {
                force_cf = cf_stale c resp;
                force_csrf = csrf_stale c resp;
                pin = pin;
              } in
              let twice = length-sent w'.sent x in
              elim (Reply-cases (answer (length w'.sent))) [
                | inr (inl (e, q)) ↦ rw (reconcile, r, stale, q) (tt, omega (arith, more, twice))
                | inr (inr (e, q)) ↦ rw (reconcile, r, stale, q) (tt, omega (arith, more, twice))
                | inl (again, q) ↦
                    let (final, few) =
                      settle-Within true pin again (record w' { sent = w'.sent ++ x ∷ [] }) in
                    rw (reconcile, r, stale, q) (final, omega (arith, more, twice, few))
              ]
        ]
      ]
