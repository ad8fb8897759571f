-- ===== src/Metrics/Rollups.antt =====
-- `InMemoryStore` and `Rollup` of src/manga_gateway/metrics/store.py. The histogram of hdrh and the
-- rounding of a duration to milliseconds are parameters. Arithmetic is exact.

pub mod Totals
use mangarr_gateway.Prelude.{
  Bool, Eq, List, Option, String, [], arith, if◌then◌else◌, length, ltb, max, min, none, option_beq,
  option_beq_iff, some, string_eq, suc, true, ℕ, ◌&&◌, ◌*◌, ◌++◌, ◌+◌, ◌↔◌, ◌∷◌, ◌≡◌,
}
use mangarr_gateway.Prelude.Dict
use mangarr_gateway.Prelude.Dict.{Dict}
use mangarr_gateway.Metrics.Event.{MetricEvent, is_failure}

-- `HdrHistogram`: a new one, `record_value`, the value at the 95th percentile, and `round`.
pub record Histogram (H : Type 0) : Type 0 where
  pub new_histogram : H
  pub record_value : ℕ → H → H
  pub value_at_p95 : H → ℕ
  pub round_ms : ℕ → ℕ

pub record Rollup (H : Type 0) : Type 0 where
  pub count : ℕ
  pub error_count : ℕ
  pub sum_ms : ℕ
  pub min_ms : Option ℕ
  pub max_ms : ℕ
  pub hist : H

abbrev pub RollupKey : Type 0
RollupKey = Option String × Option String × Option String × Option String

pub data Ring : Type 0 where
  recent : Ring
  failures : Ring
  slow : Ring

abbrev pub key_beq : RollupKey → RollupKey → Bool
key_beq (a, b, c, d) (i, j, k, l) =
    (option_beq a i && option_beq b j) && (option_beq c k && option_beq d l)

pub key_beq_iff : (x y : RollupKey) → (key_beq x y ≡ true) ↔ (x ≡ y)
key_beq_iff (a, b, c, d) (i, j, k, l) =
    ground (arith, option_beq_iff a i, option_beq_iff b j, option_beq_iff c k, option_beq_iff d l)

instance abbrev pub key_eq : Eq RollupKey
key_eq = record { beq_iff = key_beq_iff; beq = key_beq }

abbrev pub rollup_key : MetricEvent → RollupKey
rollup_key ev = (ev.surface, ev.source_key, ev.endpoint, ev.op)

-- `min(self.min_ms, d)`, where none is the infinite float.
abbrev pub min_with : Option ℕ → ℕ → Option ℕ
min_with none d = some d
min_with (some m) d = some (min m d)

module _ {H : Type 0} (h : Histogram H) where
  abbrev pub new_rollup : Rollup H
  new_rollup = record {
    count = 0;
    error_count = 0;
    sum_ms = 0;
    min_ms = none;
    max_ms = 0;
    hist = h.new_histogram;
  }

  unfoldable pub observe : MetricEvent → Rollup H → Rollup H
  observe ev r = record r {
    count = suc r.count;
    error_count = if is_failure ev then suc r.error_count else r.error_count;
    sum_ms = r.sum_ms + ev.duration;
    min_ms = min_with r.min_ms ev.duration;
    max_ms = max r.max_ms ev.duration;
    hist = h.record_value (max 1 (h.round_ms ev.duration)) r.hist;
  }

  -- `_rollups.setdefault(key, Rollup())`
  abbrev pub found : Option (Rollup H) → Rollup H
  found none = new_rollup
  found (some r) = r

  -- `ev.duration_ms > max(self._slow_factor * rollup.avg_ms, rollup.p95_ms())`, with the factor in
  -- thousandths.
  unfoldable pub is_slow : ℕ → ℕ → Rollup H → Bool
  is_slow slow_factor d r =
      ltb (slow_factor * r.sum_ms) (1000 * d * r.count) && ltb (1000 * h.value_at_p95 r.hist) d

  -- `classify`: the rollups, and the rings of the event.
  unfoldable pub classify :
      ℕ → MetricEvent → Dict RollupKey (Rollup H) → Dict RollupKey (Rollup H) × List Ring
  unfolding observe is_slow
  classify slow_factor ev s =
      let r = observe ev (found (Dict.get s (rollup_key ev))) in
      (
        Dict.put s (rollup_key ev) r,
        recent ∷ (if is_failure ev then failures ∷ [] else [])
            ++ (if is_slow slow_factor ev.duration r then slow ∷ [] else []),
      )

abbrev pub total {ℓ} : {A : Type ℓ} → (A → ℕ) → List A → ℕ
total f [] = 0
total f (x ∷ xs) = f x + total f xs

-- `total_calls`, `total_errors` and `tracked_series` of `summary`
unfoldable pub summary : {H : Type 0} → Dict RollupKey (Rollup H) → ℕ × ℕ × ℕ
summary s = (total (λ e. e.1.count) s, total (λ e. e.1.error_count) s, length s)
