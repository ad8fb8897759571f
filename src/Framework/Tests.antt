-- ===== src/Framework/Tests.antt =====
-- Concrete inputs for the theorems on the cooldown and the fan-out.
mod Selections
use mangarr_gateway.Prelude.{
  Bool, List, String, [], count, if◌then◌else◌, keep, map, none, refl, string_eq, true, ℕ, ◌==◌,
  ◌∷◌, ◌≡◌,
}
use mangarr_gateway.Prelude.Dict
use mangarr_gateway.Framework.Cooldown.{Cooldown, enabled, record_failure, in_cooldown}
use mangarr_gateway.Framework.Cooldown.Backoff.{failures, in_cooldown-failures}
use mangarr_gateway.Framework.Cooldown.Isolation.{Call, failure, about, calls, in_cooldown-calls}
use mangarr_gateway.Framework.FanOut.{
  Attempt, result, timed_out, cancelled, Warning, releases, fan_out,
}
use mangarr_gateway.Framework.FanOut.Isolation.{all_warned, AllFair, IsCollected, fan_out-given}

abbrev start : Cooldown
start = record { base = 30; cap = 600; until = []; streak = [] }

on : enabled start ≡ true
unfolding enabled
on = refl

no_entry : Dict.get {K = String} {V = ℕ} [] "comix" ≡ none
unfolding Dict.get
no_entry = refl

-- The third failure in a row, at 9, opens a cooldown of 60.
in_cooldown-failures_example :
    (in_cooldown 68 "comix" (record_failure 9 "comix" (failures (3 ∷ 5 ∷ []) "comix" start))).0
    ≡ true
in_cooldown-failures_example =
    in_cooldown-failures (3 ∷ 5 ∷ []) 9 68 "comix" start on no_entry no_entry

abbrev history : List Call
history = failure 1 "comix" ∷ failure 2 "kagane" ∷ failure 3 "comix" ∷ []

in_cooldown-calls_example :
    (in_cooldown 4 "kagane" (calls history start)).0
    ≡ (in_cooldown 4 "kagane" (calls (keep (about "kagane") history) start)).0
in_cooldown-calls_example = in_cooldown-calls "kagane" history 4 start

abbrev key : String → String
key s = s

abbrev outcome : String → Attempt ℕ
outcome s =
    if s == "comix" then timed_out else if s == "kagane" then cancelled else result (7 ∷ 8 ∷ [])

abbrev soft : String → List (String × String)
soft s = ("partial", "one page") ∷ []

-- The second source ends before the first.
abbrev moves : List (ℕ × ℕ)
moves = (0, 0) ∷ (0, 1) ∷ (5, 1) ∷ (30, 0) ∷ []

abbrev sources : List String
sources = "comix" ∷ "mangadex" ∷ []

fan_out-given_example :
    (map (λ t. t.src) (fan_out key outcome soft moves sources none).0 ≡ sources)
    × AllFair key outcome soft (fan_out key outcome soft moves sources none).0
    × IsCollected key outcome soft (fan_out key outcome soft moves sources none).0
    × ((p : Warning → Bool)
        → count p (fan_out key outcome soft moves sources none).1.warnings
          ≡ count p (all_warned key outcome soft (fan_out key outcome soft moves sources none).0))
fan_out-given_example = fan_out-given key outcome soft moves sources none

-- A cancelled run takes the releases of all sources with it.
cancelled_run :
    releases key outcome soft
      (fan_out key outcome soft
        ((0, 0) ∷ (0, 1) ∷ (5, 1) ∷ (30, 0) ∷ [])
        ("kagane" ∷ "mangadex" ∷ [])
        none).0
    ≡ none
unfolding fan_out releases
cancelled_run = refl
