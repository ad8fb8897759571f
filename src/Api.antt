-- ===== src/Api.antt =====
-- What the routes of src/manga_gateway/api do with the releases of the fan-out: the merge, newest
-- first (sorting.py), the window of `search` and the feed of `get_recent` (routes). The parsers of
-- dates and of integers are parameters: a date is the number of time units since `datetime.min`.
mod Tests
pub mod Merge
use mangarr_gateway.Prelude.{
  List, Option, String, [], drop, if◌then◌else◌, keep, ltb, min, negsuc, none, pos, some, string_eq,
  take, ℕ, ℤ, ◌==◌, ◌∷◌,
}

-- `TS_FLOOR`
abbrev pub ts_floor : ℕ
ts_floor = 0

-- `_MAX_LIMIT`
abbrev pub max_limit : ℕ
max_limit = 2000

-- `parse_publish_ts`; `fromisoformat` takes a naive time as UTC.
unfoldable pub parse_publish_ts : (String → Option ℕ) → String → ℕ
parse_publish_ts fromisoformat raw =
    if raw == "" then ts_floor else elim (fromisoformat raw) [ some t ↦ t | none ↦ ts_floor ]

-- `max(n, 0)`
unfoldable pub clamp : ℤ → ℕ
clamp (pos n) = n
clamp (negsuc n) = 0

-- `_parse_limit`
unfoldable pub parse_limit : (String → Option ℤ) → Option String → ℕ
parse_limit int none = max_limit
parse_limit int (some raw) = elim (int raw) [
  | none ↦ max_limit
  | some (negsuc n) ↦ max_limit
  | some (pos n) ↦ if ltb n 1 then max_limit else min n max_limit
]

-- `date` is `parse_publish_ts(rel.publish_date)`.
module _ {A : Type 0} (date : A → ℕ) where
  -- The stable sort with `reverse=True`.
  unfoldable pub place : A → List A → List A
  place r [] = r ∷ []
  place r (x ∷ xs) = if ltb (date r) (date x) then x ∷ place r xs else r ∷ x ∷ xs

  unfoldable pub sort_newest_first : List A → List A
  unfolding place
  sort_newest_first [] = []
  sort_newest_first (r ∷ rs) = place r (sort_newest_first rs)

  -- The releases that `search` answers.
  unfoldable pub search_window : ℤ → ℤ → List A → List A
  unfolding sort_newest_first clamp
  search_window offset limit releases =
      take (clamp limit) (drop (clamp offset) (sort_newest_first releases))

  -- The releases of `get_recent`, after the cut at `since`.
  unfoldable pub recent_feed : Option ℕ → ℕ → List A → List A
  unfolding sort_newest_first
  recent_feed none limit releases = take limit (sort_newest_first releases)
  recent_feed (some since) limit releases =
      take limit (sort_newest_first (keep (λ r. ltb since (date r)) releases))
