-- ===== src/Metrics/Event.antt =====
-- `MetricEvent` of src/manga_gateway/metrics/event.py and `is_failure` of store.py. A time and a
-- duration are natural numbers, a duration in microseconds. `details` stands for the other fields.
use mangarr_gateway.Prelude.{
  Bool, Option, String, false, none, some, string_eq, true, ℕ, ◌&&◌, ◌==◌, ◌||◌,
}

pub record MetricEvent : Type 0 where
  pub ts : ℕ
  pub kind : String
  pub request_id : Option ℕ
  pub surface : Option String
  pub endpoint : Option String
  pub source_key : Option String
  pub op : Option String
  pub outcome : String
  pub duration : ℕ
  pub details : String

abbrev pub is_none {ℓ} : {A : Type ℓ} → Option A → Bool
is_none none = true
is_none (some _) = false

-- `is_failure`, and `_FAILURE_OUTCOMES`
unfoldable pub is_failure : MetricEvent → Bool
is_failure ev =
    (ev.outcome == "error" || ev.outcome == "timeout")
    || (ev.outcome == "client_error" && (ev.kind == "request" && is_none ev.source_key))
