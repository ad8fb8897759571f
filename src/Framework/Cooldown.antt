-- ===== src/Framework/Cooldown.antt =====
-- `SourceFailureCooldown` of src/manga_gateway/framework/cooldown.py: the state with the two
-- dictionaries, and its methods. `now` is a reading of the monotonic clock.
pub mod Backoff
pub mod Isolation
use mangarr_gateway.Prelude.{
  Bool, String, false, if◌then◌else◌, ltb, min, none, not, some, string_eq, true, ℕ, ◌&&◌, ◌*◌, ◌+◌,
  ◌-◌, ◌^◌,
}
use mangarr_gateway.Prelude.Dict
use mangarr_gateway.Prelude.Dict.{Dict}

pub record Cooldown : Type 0 where
  pub base : ℕ
  pub cap : ℕ
  pub until : Dict String ℕ
  pub streak : Dict String ℕ

-- `_enabled`
unfoldable pub enabled : Cooldown → Bool
enabled c = ltb 0 c.base && ltb 0 c.cap

-- `min(base * 2 ** (streak - 2), max)`, from a streak of 2
unfoldable pub duration : Cooldown → ℕ → ℕ
duration c streak = min (c.base * 2 ^ (streak - 2)) c.cap

-- `streak.get(key, 0) + 1`
abbrev pub next_streak : Cooldown → String → ℕ
next_streak c key = elim (Dict.get c.streak key) [ some n ↦ n + 1 | none ↦ 1 ]

unfoldable pub record_failure : ℕ → String → Cooldown → Cooldown
unfolding enabled duration
record_failure now key c =
    let n = next_streak c key in
    let counted = record c { streak = Dict.put c.streak key n } in
    if not (enabled c)
    then c
    else if ltb n 2
    then counted
    else record counted { until = Dict.put c.until key (now + duration c n) }

unfoldable pub record_success : String → Cooldown → Cooldown
unfolding enabled
record_success key c =
    if enabled c
    then record c { streak = Dict.pop c.streak key; until = Dict.pop c.until key }
    else c

-- An expired entry is dropped, and the streak stays.
unfoldable pub in_cooldown : ℕ → String → Cooldown → Bool × Cooldown
unfolding enabled
in_cooldown now key c = if not (enabled c) then (false, c) else elim (Dict.get c.until key) [
  | none ↦ (false, c)
  | some expiry ↦
      if ltb now expiry then (true, c) else (false, record c { until = Dict.pop c.until key })
]

unfoldable pub remaining : ℕ → String → Cooldown → ℕ
unfolding enabled
remaining now key c =
    if not (enabled c)
    then 0
    else elim (Dict.get c.until key) [ none ↦ 0 | some expiry ↦ expiry - now ]
