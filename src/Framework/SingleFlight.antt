-- ===== src/Framework/SingleFlight.antt =====
-- `SingleFlightCache` of src/manga_gateway/framework/enum_cache.py. A caller of `get_or_fetch` has a
-- number, which is also that of the future it makes if it leads. A step is what a task does between
-- two waits. cachetools' `TLRUCache` is a parameter.
mod Tests
pub mod Unique
pub mod Sound
pub mod Fetched
pub mod Cancelled
use mangarr_gateway.Prelude.{
  Bool, Eq, List, Option, String, [], false, if◌then◌else◌, min, none, some, string_eq, true,
  update, ℕ, ◌+◌, ◌<◌, ◌∷◌, ◌≡◌, ◌⊎◌,
}
use mangarr_gateway.Prelude.Dict
use mangarr_gateway.Prelude.Dict.{Dict}

-- `TLRUCache`: what is gotten after a put is what was put, before it expires, or was there before.
pub record TlruCache {ℓ κ} (K : Type ℓ) (V : Type κ) (C : Type 0) : Type (ℓ ⊔ κ) where
  pub empty : C
  pub get : ℕ → K → C → Option V
  pub put : ℕ → K → V → ℕ → C → C
  pub get-empty : (now : ℕ) (k : K) → get now k empty ≡ none
  pub get-put :
      (now later expiry : ℕ) (k j : K) (v w : V) (c : C)
      → get later j (put now k v expiry c) ≡ some w
      → ((k ≡ j) × (v ≡ w) × (later < expiry)) ⊎ (get later j c ≡ some w)

-- The settings: `ttl`, `ttl_overrides`, `max_ttl`, `empty_ttl` and `is_empty`.
pub record Settings {ℓ κ} (K : Type ℓ) (V : Type κ) : Type (ℓ ⊔ κ) where
  pub source_key : K → String
  pub default_ttl : ℕ
  pub ttl_overrides : Dict String ℕ
  pub max_ttl : ℕ
  pub empty_ttl : ℕ
  pub is_empty : Option (V → Bool)

abbrev pub value_is_empty {κ} : {V : Type κ} → Option (V → Bool) → V → Bool
value_is_empty none v = false
value_is_empty (some p) v = p v

abbrev pub override {ℓ κ} : {K : Type ℓ} {V : Type κ} → Settings K V → K → ℕ
override c k = elim (Dict.get c.ttl_overrides (c.source_key k)) [
  | some t ↦ t
  | none ↦ c.default_ttl
]

-- `_ttu`
unfoldable pub ttu {ℓ κ} : {K : Type ℓ} {V : Type κ} → Settings K V → K → V → ℕ → ℕ
ttu c k v now =
    if value_is_empty c.is_empty v
    then now + min c.empty_ttl c.max_ttl
    else now + min (override c k) c.max_ttl

-- How an awaited call ends.
pub data Outcome {κ} (V : Type κ) : Type κ where
  value : V → Outcome V
  raised : String → Outcome V
  cancelled : Outcome V

-- Where a caller is: before its call, in `await fetch_fn()`, in `await inflight` on the future of
-- another caller, or back.
pub data Phase {ℓ κ} (K : Type ℓ) (V : Type κ) : Type (ℓ ⊔ κ) where
  idle : Phase K V
  leading : K → Phase K V
  following : K → ℕ → Phase K V
  returned : K → Outcome V → Phase K V

-- `futures i` is the outcome of the future of caller i, once it is done. `fetches` are the values
-- that were fetched, with the time of the fetch.
pub record Flight {ℓ κ} (K : Type ℓ) (V : Type κ) (C : Type 0) : Type (ℓ ⊔ κ) where
  pub cache : C
  pub inflight : Dict K ℕ
  pub futures : ℕ → Option (Outcome V)
  pub callers : ℕ → Phase K V
  pub fetches : List (K × V × ℕ)

abbrev pub is_done {κ} : {V : Type κ} → Option (Outcome V) → Bool
is_done none = false
is_done (some _) = true

-- `if not future.done(): future.set_...`
abbrev pub resolve {κ} :
    {V : Type κ} → (ℕ → Option (Outcome V)) → ℕ → Outcome V → ℕ → Option (Outcome V)
resolve f i o = if is_done (f i) then f else update f i (some o)

-- The future that a caller would await: one that is not done.
abbrev pub joinable {κ} : {V : Type κ} → (ℕ → Option (Outcome V)) → Option ℕ → Option ℕ
joinable f none = none
joinable f (some i) = if is_done (f i) then none else some i

module _ {ℓ κ} {K : Type ℓ} {V : Type κ} {C : Type 0} ⦃e : Eq K⦄ (ops : TlruCache K V C)
    (config : Settings K V) where
  -- `get_or_fetch` up to its first wait: a hit, a future to follow, or the lead.
  unfoldable pub get_or_fetch : ℕ → ℕ → K → Flight K V C → Flight K V C
  get_or_fetch now i k s = elim (ops.get now k s.cache) [
    | some v ↦ record s { callers = update s.callers i (returned k (value v)) }
    | none ↦ elim (joinable s.futures (Dict.get s.inflight k)) [
      | some j ↦ record s { callers = update s.callers i (following k j) }
      | none ↦ record s {
        callers = update s.callers i (leading k);
        inflight = Dict.put s.inflight k i;
        futures = update s.futures i none;
      }
    ]
  ]

  -- The leader's fetch has given a value: it is cached, the future is set, the entry popped.
  unfoldable pub fetched : ℕ → ℕ → K → V → Flight K V C → Flight K V C
  unfolding ttu
  fetched now i k v s = record s {
    cache = ops.put now k v (ttu config k v now) s.cache;
    futures = resolve s.futures i (value v);
    inflight = Dict.pop s.inflight k;
    callers = update s.callers i (returned k (value v));
    fetches = (k, v, now) ∷ s.fetches;
  }

  -- The leader's fetch has raised, or the leader was cancelled in it.
  unfoldable pub fetch_failed : ℕ → K → Outcome V → Flight K V C → Flight K V C
  fetch_failed i k o s = record s {
    futures = resolve s.futures i o;
    inflight = Dict.pop s.inflight k;
    callers = update s.callers i (returned k o);
  }

  unfoldable pub woken : ℕ → K → Outcome V → Flight K V C → Flight K V C
  woken i k o s = record s { callers = update s.callers i (returned k o) }

  -- `replace`, with a value that a source has fetched anew.
  unfoldable pub replace : ℕ → K → V → Flight K V C → Flight K V C
  unfolding ttu
  replace now k v s = record s {
    cache = ops.put now k v (ttu config k v now) s.cache;
    fetches = (k, v, now) ∷ s.fetches;
  }

  -- The task of a follower is cancelled: asyncio cancels the future that it awaits.
  unfoldable pub cancel_follower : ℕ → Flight K V C → Flight K V C
  cancel_follower j s = record s { futures = resolve s.futures j cancelled }

  -- One step of the event loop. `cancelling` says whether followers are cancelled.
  pub data Step (cancelling : Bool) (s : Flight K V C) : Flight K V C → Type (ℓ ⊔ κ) where
    calls : (now i : ℕ) (k : K) → s.callers i ≡ idle → Step cancelling s (get_or_fetch now i k s)
    fetches :
        (now i : ℕ) (k : K) (v : V)
        → s.callers i ≡ leading k
        → Step cancelling s (fetched now i k v s)
    raises :
        (i : ℕ) (k : K) (message : String)
        → s.callers i ≡ leading k
        → Step cancelling s (fetch_failed i k (raised message) s)
    leader_cancelled :
        (i : ℕ) (k : K) → s.callers i ≡ leading k → Step cancelling s (fetch_failed i k cancelled s)
    replaces : (now : ℕ) (k : K) (v : V) → Step cancelling s (replace now k v s)
    wakes :
        (i j : ℕ) (k : K) (o : Outcome V)
        → s.callers i ≡ following k j
        → s.futures j ≡ some o
        → Step cancelling s (woken i k o s)
    follower_cancelled :
        (i j : ℕ) (k : K)
        → cancelling ≡ true
        → s.callers i ≡ following k j
        → Step cancelling s (cancel_follower j s)

  pub data Reach (cancelling : Bool) (s : Flight K V C) : Flight K V C → Type (ℓ ⊔ κ) where
    here : Reach cancelling s s
    next : {t u : Flight K V C} → Reach cancelling s t → Step cancelling t u → Reach cancelling s u

  abbrev pub start : Flight K V C
  start = record {
    cache = ops.empty;
    inflight = [];
    futures = λ _. none;
    callers = λ _. idle;
    fetches = [];
  }
