-- ===== src/Framework/Health.antt =====
-- `SourceHealth` of src/manga_gateway/framework/health.py: the breaker of one source.
use mangarr_gateway.Prelude.{
  Bool, Bool-cases, List, [], ap, false, if◌then◌else◌, inl, inr, ltb, not, refl, true, ℕ, ◌&&◌,
  ◌+◌, ◌∷◌, ◌≡◌,
}

pub record SourceHealth : Type 0 where
  pub threshold : ℕ
  pub consecutive_failures : ℕ
  pub force_disabled : Bool

unfoldable pub is_enabled : SourceHealth → Bool
is_enabled h = if h.force_disabled then false else ltb h.consecutive_failures h.threshold

unfoldable pub record_failure : SourceHealth → SourceHealth
record_failure h = record h { consecutive_failures = h.consecutive_failures + 1 }

unfoldable pub record_success : SourceHealth → SourceHealth
record_success h = record h { consecutive_failures = 0; force_disabled = false }

-- What the program does with a breaker: `force` is `force_disabled = True`, when an eager launch
-- has failed.
pub data Event : Type 0 where
  failure success force : Event

unfoldable pub event : Event → SourceHealth → SourceHealth
unfolding record_failure record_success
event failure h = record_failure h
event success h = record_success h
event force h = record h { force_disabled = true }

-- The latest event stands first.
unfoldable pub events : List Event → SourceHealth → SourceHealth
unfolding event
events [] h = h
events (e ∷ es) h = event e (events es h)

-- The failures since the last success, and whether it was forced since.
abbrev pub failures_since : List Event → ℕ
failures_since [] = 0
failures_since (failure ∷ es) = failures_since es + 1
failures_since (success ∷ es) = 0
failures_since (force ∷ es) = failures_since es

abbrev pub forced_since : List Event → Bool
forced_since [] = false
forced_since (failure ∷ es) = forced_since es
forced_since (success ∷ es) = false
forced_since (force ∷ es) = true

abbrev pub new : ℕ → SourceHealth
new threshold = record { threshold = threshold; consecutive_failures = 0; force_disabled = false }

state_lem :
    (n : ℕ) (es : List Event)
    → events es (new n) ≡ record {
      threshold = n;
      consecutive_failures = failures_since es;
      force_disabled = forced_since es;
    }
unfolding events
state_lem n [] = refl
state_lem n (failure ∷ es) = ap record_failure (state_lem n es)
state_lem n (success ∷ es) = ap record_success (state_lem n es)
state_lem n (force ∷ es) = ap (event force) (state_lem n es)

-- From a new breaker, after any events, the source is enabled exactly when fewer than
-- `threshold` failures have followed its last success and it was not forced off since.
pub is_enabled-events :
    (threshold : ℕ) (es : List Event)
    → is_enabled (events es (new threshold))
      ≡ (not (forced_since es) && ltb (failures_since es) threshold)
unfolding is_enabled
is_enabled-events n es =
    rw (state_lem n es)
      (elim (Bool-cases (forced_since es)) [ inl e ↦ rw e refl | inr e ↦ rw e refl ])
