-- ===== src/Framework/Request.antt =====
-- One request of `SourceContext` in src/manga_gateway/framework/context.py: `_reconcile_request`,
-- `_rotate_and_retry_origin_block`, `_request_response` and `_retrying`. What the n-th send answers,
-- the clock and the random source are arguments.
mod Tests
pub mod Responses
pub mod Sends
pub mod Ends
use mangarr_gateway.Prelude.{
  Bool, List, Option, String, [], any, false, if◌then◌else◌, leb, length, nat_beq, none, not, some,
  string_eq, suc, true, zero, ℕ, ◌&&◌, ◌++◌, ◌+◌, ◌-◌, ◌==◌, ◌||◌, ◌∷◌,
}
use mangarr_gateway.Framework.ProxyPool.{
  PooledProxy, SourcePinnedProxies, selection_key, rotate, get_or_acquire,
}
use mangarr_gateway.Framework.Request.Responses.{
  Response, is_cf_challenge, is_csrf_failure, is_waf_block, is_permanent, is_success,
}

-- How `_send` ends: with a response, an httpx.TransportError, or another exception.
pub data Reply : Type 0 where
  responded : Response → Reply
  broken : String → Reply
  failed : String → Reply

-- How a request ends. `source_error` has the code and the status.
pub data Outcome : Type 0 where
  returned : Response → Outcome
  source_error : String → ℕ → Outcome
  http_status_error : ℕ → Outcome
  transport_error : String → Outcome
  raised : String → Outcome
  out_of_fuel : Outcome

-- A send: what it refreshed, and the proxy that was active.
pub record Sent : Type 0 where
  pub force_cf : Bool
  pub force_csrf : Bool
  pub pin : Option PooledProxy

pub record World : Type 0 where
  pub sent : List Sent
  pub pins : SourcePinnedProxies

-- The settings of the context. `csrf_active` is what `_session_prep_active` answers where there is a
-- provider; `is_origin_block` is there where the source opted in and has a pinned proxy pool.
pub record Context : Type 0 where
  pub source_key : String
  pub is_cloudflare : Bool
  pub csrf_active : Bool
  pub is_origin_block : Option (Response → Bool)
  pub solve_search_via_proxy_pool : Bool
  pub image_proxy_max_attempts : ℕ
  pub retry_attempts : ℕ

abbrev pub raise_for_status : Response → Outcome
raise_for_status resp =
    if is_success resp.status then returned resp else http_status_error resp.status

abbrev pub blocks : Option (Response → Bool) → Response → Bool
blocks none resp = false
blocks (some p) resp = p resp

-- `_send`: the world with this send, and the reply.
abbrev pub sent_with : Bool → Bool → Option PooledProxy → World → World
sent_with force_cf force_csrf pin w = record w {
  sent = w.sent ++ record { force_cf = force_cf; force_csrf = force_csrf; pin = pin } ∷ [];
}

abbrev pub reply : (ℕ → Reply) → World → Reply
reply answer w = answer (length w.sent)

abbrev pub exhausted : ℕ → Outcome
exhausted status = source_error "source_unavailable" status

abbrev pub pin_keys : Option PooledProxy → List String
pin_keys none = []
pin_keys (some p) = selection_key p ∷ []

abbrev pub cf_stale : Context → Response → Bool
cf_stale c resp = c.is_cloudflare && is_cf_challenge resp

abbrev pub csrf_stale : Context → Response → Bool
csrf_stale c resp = nat_beq resp.status 403 && (is_csrf_failure resp && c.csrf_active)

abbrev pub add_key : String → List String → List String
add_key key tried = if any (λ k. k == key) tried then tried else key ∷ tried

-- `except httpx.TransportError`
abbrev pub is_transport : Outcome → Bool
is_transport (transport_error e) = true
is_transport _ = false

-- `_is_retryable`
abbrev pub is_retryable : Outcome → Bool
is_retryable (transport_error e) = true
is_retryable (http_status_error status) = leb 500 status
is_retryable _ = false

module _ (c : Context) (answer : ℕ → Reply) (now roll : ℕ → ℕ) where
  -- `_rotate_and_retry_origin_block` with `attempts` left.
  unfoldable pub rotate_and_retry : ℕ → List String → ℕ → World → Outcome × World
  rotate_and_retry zero tried status w = (exhausted status, w)
  rotate_and_retry (suc attempts) tried status w =
      let n = length w.sent in
      let (new_pin, pins) = rotate (now n) (roll n) c.source_key tried w.pins in
      elim new_pin [
        | none ↦ (exhausted status, record w { pins = pins })
        | some p ↦
            let w' = sent_with true false (some p) (record w { pins = pins }) in
            elim (reply answer w) [
              | broken e ↦ (transport_error e, w')
              | failed e ↦ (raised e, w')
              | responded resp ↦
                  let rest = rotate_and_retry attempts (selection_key p ∷ tried) status w' in
                  if not (is_permanent resp.status)
                  then (raise_for_status resp, w')
                  else if not (blocks c.is_origin_block resp)
                  then (exhausted resp.status, w')
                  else rest
            ]
      ]

  -- The end of `_reconcile_request`, from the permanent statuses on.
  unfoldable pub settle : Bool → Option PooledProxy → Response → World → Outcome × World
  unfolding rotate_and_retry is_waf_block
  settle refreshed pin resp w =
      if not (is_permanent resp.status)
      then (raise_for_status resp, w)
      else if is_waf_block resp
      then (source_error "waf_blocked" resp.status, w)
      else if not refreshed && blocks c.is_origin_block resp
      then rotate_and_retry c.image_proxy_max_attempts (pin_keys pin) resp.status w
      else (exhausted resp.status, w)

  -- `_reconcile_request`
  unfoldable pub reconcile : Option PooledProxy → World → Outcome × World
  unfolding settle
  reconcile pin w = elim (reply answer w) [
    | broken e ↦ (transport_error e, sent_with false false pin w)
    | failed e ↦ (raised e, sent_with false false pin w)
    | responded resp ↦
        let w' = sent_with false false pin w in
        if cf_stale c resp || csrf_stale c resp
        then elim (reply answer w') [
          | broken e ↦ (transport_error e, sent_with (cf_stale c resp) (csrf_stale c resp) pin w')
          | failed e ↦ (raised e, sent_with (cf_stale c resp) (csrf_stale c resp) pin w')
          | responded again ↦
              settle true pin again (sent_with (cf_stale c resp) (csrf_stale c resp) pin w')
        ]
        else settle false pin resp w'
  ]

  -- The loop of `_request_response` over transport errors. `own_pin` says whether this request set
  -- the active proxy.
  unfoldable pub pinned_request :
      Bool → ℕ → Option PooledProxy → List String → World → Outcome × World
  unfolding reconcile
  pinned_request own_pin zero pin tried w = (out_of_fuel, w)
  pinned_request own_pin (suc fuel) none tried w = reconcile none w
  pinned_request own_pin (suc fuel) (some old) tried w =
      let (outcome, w') = reconcile (some old) w in
      let tried' = add_key (selection_key old) tried in
      let n = length w'.sent in
      let (new_pin, pins) = rotate (now n) (roll n) c.source_key tried' w'.pins in
      if not (is_transport outcome)
        || (not own_pin || leb c.image_proxy_max_attempts (length tried'))
      then (outcome, w')
      else elim new_pin [
        | none ↦ (outcome, record w' { pins = pins })
        | some p ↦ pinned_request own_pin fuel (some p) tried' (record w' { pins = pins })
      ]

  -- `_request_response`, where `active` is the proxy that is set already.
  unfoldable pub request_response : Option PooledProxy → World → Outcome × World
  unfolding pinned_request
  request_response (some active) w =
      pinned_request false (c.image_proxy_max_attempts + 1) (some active) [] w
  request_response none w =
      if c.solve_search_via_proxy_pool
      then (let n = length w.sent in
          let (pin, pins) = get_or_acquire (now n) (roll n) c.source_key w.pins in
          pinned_request true (c.image_proxy_max_attempts + 1) pin [] (record w { pins = pins }))
      else pinned_request false (c.image_proxy_max_attempts + 1) none [] w

  -- `_retrying` with `attempts` left after this one. The waits between them are not modelled.
  unfoldable pub retrying : ℕ → Option PooledProxy → World → Outcome × World
  unfolding request_response
  retrying zero active w = request_response active w
  retrying (suc attempts) active w =
      let (outcome, w') = request_response active w in
      let again = retrying attempts active w' in
      if is_retryable outcome then again else (outcome, w')

  -- `stop_after_attempt(self._retry_attempts)`
  unfoldable pub request : Option PooledProxy → World → Outcome × World
  unfolding retrying
  request = retrying (c.retry_attempts - 1)
