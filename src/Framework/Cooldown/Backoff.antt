-- ===== src/Framework/Cooldown/Backoff.antt =====
-- How the cooldown grows with the failures in a row.
use mangarr_gateway.Prelude.{
  List, String, [], arith, beq_refl, length, ltb, min, none, refl, some, string_eq, true, ℕ, ◌&&◌,
  ◌*◌, ◌+◌, ◌-◌, ◌^◌, ◌∙◌, ◌∷◌, ◌≡◌,
}
use mangarr_gateway.Prelude.Dict
use mangarr_gateway.Prelude.Dict.{Dict}
use mangarr_gateway.Framework.Cooldown.{
  Cooldown, enabled, duration, next_streak, record_failure, in_cooldown,
}

-- Failures of one source at these times.
unfoldable pub failures : List ℕ → String → Cooldown → Cooldown
failures [] key c = c
failures (t ∷ ts) key c = failures ts key (record_failure t key c)

-- What a failure leaves: the streak grows by one, and the knobs stay.
failure_lem :
    (now : ℕ) (key : String) (c : Cooldown)
    → enabled c ≡ true
    → (Dict.get (record_failure now key c).streak key ≡ some (next_streak c key))
      × ((record_failure now key c).base ≡ c.base)
      × ((record_failure now key c).cap ≡ c.cap)
      × (enabled (record_failure now key c) ≡ true)
unfolding record_failure enabled
failure_lem now key c e =
    ground (arith, beq_refl key, Dict.get-put c.streak key (next_streak c key) key)

failures_lem :
    (ts : List ℕ) (key : String) (c : Cooldown)
    → enabled c ≡ true
    → (next_streak (failures ts key c) key ≡ next_streak c key + length ts)
      × ((failures ts key c).base ≡ c.base)
      × ((failures ts key c).cap ≡ c.cap)
      × (enabled (failures ts key c) ≡ true)
unfolding failures
failures_lem [] key c e = (omega arith, refl, refl, e)
failures_lem (t ∷ ts) key c e =
    let (n, b, m, on) = failure_lem t key c e in
    let (r, rb, rm, ron) = failures_lem ts key (record_failure t key c) on in
    (r ∙ rw (next_streak, n) (omega arith), rb ∙ b, rm ∙ m, ron)

-- With the cooldown enabled and no streak or entry for the source, after n failures in a row,
-- the last at the time t: for n = 1 it is not in cooldown, and for more it is exactly until t +
-- min(base * 2 ^ (n - 2), cap).
pub in_cooldown-failures :
    (ts : List ℕ) (t now : ℕ) (key : String) (c : Cooldown)
    → enabled c ≡ true
    → Dict.get c.streak key ≡ none
    → Dict.get c.until key ≡ none
    → (in_cooldown now key (record_failure t key (failures ts key c))).0
      ≡ (ltb 0 (length ts) && ltb now (t + min (c.base * 2 ^ (length ts - 1)) c.cap))
unfolding failures in_cooldown record_failure duration enabled
in_cooldown-failures [] t now key c e f u = ground (arith, f, u, Dict.get-put c.streak key 1 key)
in_cooldown-failures (s ∷ ts) t now key c e f u =
    let d = failures (s ∷ ts) key c in
    let l = failures_lem (s ∷ ts) key c e in
    let n : next_streak d key ≡ 2 + length ts = l.0 ∙ rw (next_streak, f) (omega arith) in
    ground
      (arith, beq_refl key, l, n, Dict.get-put d.until key (t + duration d (2 + length ts)) key)
