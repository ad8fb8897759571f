-- ===== src/Framework/ProxyPool/Selection.antt =====
-- A selected proxy is usable, and a rotation moves a source off its failed proxy.
use mangarr_gateway.Prelude.{
  Bool, Bool-cases, List, Option, String, [], any, ap, arith, beq_refl, false, inl, inr, keep,
  keep_congr, length, ltb, none, not, refl, some, string_eq, subst, suc, sym, true, zero, ℕ, ◌%◌,
  ◌&&◌, ◌+◌, ◌<◌, ◌==◌, ◌∙◌, ◌∷◌, ◌≡◌,
}
use native.Mathlib.Nat.{mod-lt}
use mangarr_gateway.Prelude.Dict
use mangarr_gateway.Prelude.Dict.{Dict}
use mangarr_gateway.Framework.ProxyPool.{
  PooledProxy, selection_key, on_cooldown, available, nth, ProxyPool, choice, acquire, mark_failed,
  pinned, SourcePinnedProxies, current, rotate,
}

abbrev pub cooling : ℕ → Option ℕ → Bool
cooling now none = false
cooling now (some deadline) = ltb now deadline

-- The proxy is neither excluded nor on a live cooldown.
abbrev pub usable : ℕ → List String → Dict String ℕ → PooledProxy → Bool
usable now excluded d p =
    not (any (λ k. k == selection_key p) excluded)
    && not (cooling now (Dict.get d (selection_key p)))

on_cooldown_lem :
    (now : ℕ) (key : String) (d : Dict String ℕ)
    → (on_cooldown now key d).0 ≡ cooling now (Dict.get d key)
unfolding on_cooldown
on_cooldown_lem now key d = ground arith

-- The dropped deadlines were no live cooldowns.
cooling-on_cooldown :
    (now : ℕ) (key k : String) (d : Dict String ℕ)
    → cooling now (Dict.get (on_cooldown now key d).1 k) ≡ cooling now (Dict.get d k)
unfolding on_cooldown
cooling-on_cooldown now key k d = ground (arith, Dict.get-pop d key k, string_eq.beq_iff key k)

available_lem :
    (now : ℕ) (excluded : List String) (ps : List PooledProxy) (d : Dict String ℕ)
    → (available now excluded ps d).0 ≡ keep (usable now excluded d) ps
unfolding available keep
available_lem now excluded [] d = refl
available_lem now excluded (p ∷ ps) d =
    let d' = (on_cooldown now (selection_key p) d).1 in
    let same = keep_congr (usable now excluded d') (usable now excluded d) ps (λ q.
      ap (λ b. not (any (λ k. k == selection_key q) excluded) && not b)
        (cooling-on_cooldown now (selection_key p) (selection_key q) d)) in
    ground (
      arith,
      available_lem now excluded ps d,
      available_lem now excluded ps d',
      same,
      on_cooldown_lem now (selection_key p) d,
    )

nth_lem :
    (p : PooledProxy → Bool) (n : ℕ) (ps : List PooledProxy) (q : PooledProxy)
    → nth n (keep p ps) ≡ some q
    → p q ≡ true
unfolding keep
nth_lem p n [] q h = cc
nth_lem p zero (x ∷ ps) q h = elim (Bool-cases (p x)) [
  | inl e ↦ let same : x ≡ q = ground (arith, e, h) in subst (λ y. p y ≡ true) same e
  | inr e ↦ nth_lem p zero ps q (ground arith)
]
nth_lem p (suc n) (x ∷ ps) q h = elim (Bool-cases (p x)) [
  | inl e ↦ nth_lem p n ps q (ground arith)
  | inr e ↦ nth_lem p (suc n) ps q (ground arith)
]

nth_there :
    (n : ℕ) (ps : List PooledProxy) → n < length ps → (p : PooledProxy) × (nth n ps ≡ some p)
nth_there n [] h = let impossible : ⊥ = omega arith in elim impossible [ ]
nth_there zero (p ∷ ps) h = (p, refl)
nth_there (suc n) (p ∷ ps) h = nth_there n ps (omega arith)

choice-none : (roll : ℕ) (ps : List PooledProxy) → choice roll ps ≡ none → ps ≡ []
choice-none roll [] h = refl
choice-none roll (p ∷ ps) h =
    let (q, e) = nth_there (roll % length (p ∷ ps)) (p ∷ ps) (mod-lt roll (omega arith)) in
    let impossible : some q ≡ none = sym e ∙ h in cc

keep-none : (p : PooledProxy → Bool) (ps : List PooledProxy) → keep p ps ≡ [] → any p ps ≡ false
unfolding keep
keep-none p [] h = refl
keep-none p (x ∷ ps) h = ground (arith, keep-none p ps)

-- Whatever the random choice, an acquired proxy is not excluded and not on a live cooldown.
pub acquire-usable :
    (now roll : ℕ) (excluded : List String) (pool : ProxyPool) (q : PooledProxy)
    → (acquire now roll excluded pool).0 ≡ some q
    → usable now excluded pool.cooldowns q ≡ true
unfolding acquire
acquire-usable now roll excluded pool q h =
    nth_lem (usable now excluded pool.cooldowns) _ pool.proxies q (
      ap (nth (roll % length (available now excluded pool.proxies pool.cooldowns).0))
        (sym (available_lem now excluded pool.proxies pool.cooldowns))
      ∙ h)

-- None is acquired only when every proxy of the pool is excluded or on a live cooldown.
pub acquire-none :
    (now roll : ℕ) (excluded : List String) (pool : ProxyPool)
    → (acquire now roll excluded pool).0 ≡ none
    → any (usable now excluded pool.cooldowns) pool.proxies ≡ false
unfolding acquire
acquire-none now roll excluded pool h =
    keep-none (usable now excluded pool.cooldowns) pool.proxies (
      sym (available_lem now excluded pool.proxies pool.cooldowns)
      ∙ choice-none roll (available now excluded pool.proxies pool.cooldowns).0 h)

pub pinned_lem :
    (key : String) (r : Option PooledProxy × ProxyPool) (pins : Dict String PooledProxy)
    (q : PooledProxy)
    → (pinned key r pins).0 ≡ some q
    → (r.0 ≡ some q) × (current key (pinned key r pins).1 ≡ some q)
unfolding current
pinned_lem key (none, pool) pins q h = cc
pinned_lem key (some p, pool) pins q h = (h, rw (Dict.get-put pins key p key, beq_refl key) h)

-- With a pool whose cooldown is positive, the proxy that a rotation answers in place of a pinned
-- one has another key than this one, is not excluded, and is the source's pin from then on.
pub rotate-usable :
    (now roll : ℕ) (source_key : String) (excluded : List String) (s : SourcePinnedProxies)
    (pool : ProxyPool) (old q : PooledProxy)
    → s.pool ≡ some pool
    → current source_key s ≡ some old
    → 0 < pool.cooldown_seconds
    → (rotate now roll source_key excluded s).0 ≡ some q
    → ((selection_key old == selection_key q) ≡ false)
      × (any (λ k. k == selection_key q) excluded ≡ false)
      × (current source_key (rotate now roll source_key excluded s).1 ≡ some q)
unfolding rotate current mark_failed
rotate-usable now roll key excluded s pool old q e c b h =
    let failed = mark_failed now old pool in
    let step : rotate now roll key excluded s
        ≡ pinned key (acquire now roll excluded failed) (Dict.pop s.pins key) =
      rw (rotate, e, c) refl in
    let (got, pin) =
      pinned_lem key (acquire now roll excluded failed) (Dict.pop s.pins key) q
        (ap (λ x. x.0) (sym step) ∙ h) in
    let u = acquire-usable now roll excluded failed q got in
    (
      ground (
        arith,
        u,
        Dict.get-put pool.cooldowns (selection_key old) (now + pool.cooldown_seconds)
            (selection_key q),
      ),
      ground (arith, u),
      ap (λ x. current key x.1) step ∙ pin,
    )
