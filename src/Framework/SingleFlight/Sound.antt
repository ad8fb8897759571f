-- ===== src/Framework/SingleFlight/Sound.antt =====
-- The invariant of `SingleFlightCache`: where its values come from, and how old they are.
pub mod Entered
pub mod Ended
pub mod Followed
use mangarr_gateway.Prelude.{
  Eq, List, Option, arith, inl, inr, none, some, ℕ, ◌<◌, ◌∷◌, ◌≡◌, ◌⊎◌, string_eq,
}
use mangarr_gateway.Prelude.Dict
use mangarr_gateway.Framework.SingleFlight.{
  TlruCache, Settings, ttu, Outcome, value, cancelled, idle, leading, following, returned, Flight,
  joinable,
}

module _ {ℓ κ} {K : Type ℓ} {V : Type κ} where
  -- `v` was fetched for `k` at `t`.
  pub data Fetched (k : K) (v : V) (t : ℕ) : List (K × V × ℕ) → Type (ℓ ⊔ κ) where
    last : (log : List (K × V × ℕ)) → Fetched k v t ((k, v, t) ∷ log)
    earlier : (e : K × V × ℕ) {log : List (K × V × ℕ)} → Fetched k v t log → Fetched k v t (e ∷ log)

  -- It was fetched at some time.
  abbrev pub WasFetched : List (K × V × ℕ) → K → V → Type (ℓ ⊔ κ)
  WasFetched log k v = (t : ℕ) × Fetched k v t log

-- A leader's future is pending, or was cancelled by a follower.
abbrev pub IsPending {κ} : {V : Type κ} → Option (Outcome V) → Type κ
IsPending o = (o ≡ none) ⊎ (o ≡ some cancelled)

pub joinable-eq_some {κ} :
    {V : Type κ} (f : ℕ → Option (Outcome V)) (entry : Option ℕ) (j : ℕ)
    → joinable f entry ≡ some j
    → entry ≡ some j
joinable-eq_some f none j h = h
joinable-eq_some f (some i) j h = ground arith

module _ {ℓ κ} {K : Type ℓ} {V : Type κ} {C : Type 0} where
  -- The future j serves the key k: its caller leads k, or it is done, with a value fetched for k if
  -- with a value.
  abbrev pub Serves : Flight K V C → K → ℕ → Type (ℓ ⊔ κ)
  Serves s k j =
      (s.callers j ≡ leading k)
      ⊎ ((o : Outcome V) × (s.futures j ≡ some o)
          × ((v : V) → o ≡ value v → WasFetched s.fetches k v))

  pub record IsSound ⦃e : Eq K⦄ (ops : TlruCache K V C) (config : Settings K V) (s : Flight K V C)
      : Type (ℓ ⊔ κ) where
    pub fresh : (i : ℕ) → s.callers i ≡ idle → s.futures i ≡ none
    pub pending : (i : ℕ) (k : K) → s.callers i ≡ leading k → IsPending (s.futures i)
    pub cached :
        (now : ℕ) (k : K) (v : V)
        → ops.get now k s.cache ≡ some v
        → (t : ℕ) × Fetched k v t s.fetches × (now < ttu config k v t)
    pub entry : (k : K) (j : ℕ) → Dict.get s.inflight k ≡ some j → Serves s k j
    pub followed : (i j : ℕ) (k : K) → s.callers i ≡ following k j → Serves s k j
    pub given :
        (i : ℕ) (k : K) (v : V) → s.callers i ≡ returned k (value v) → WasFetched s.fetches k v

  -- What the future serves is kept by a step that forgets no outcome and no fetch.
  pub Serves-keep :
      (s t : Flight K V C) (k : K) (j : ℕ)
      → (s.callers j ≡ leading k → Serves t k j)
      → ((o : Outcome V) → s.futures j ≡ some o → t.futures j ≡ some o)
      → ((v : V) → WasFetched s.fetches k v → WasFetched t.fetches k v)
      → Serves s k j
      → Serves t k j
  Serves-keep s t k j leads done more (inl h) = leads h
  Serves-keep s t k j leads done more (inr (o, h, from)) =
      inr (o, done o h, λ v q. more v (from v q))
