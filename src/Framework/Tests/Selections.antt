-- ===== src/Framework/Tests/Selections.antt =====
-- Concrete inputs for the theorems on the breaker, the lanes and the proxies.
use mangarr_gateway.Prelude.{
  List, String, [], count, if◌then◌else◌, keep, none, refl, some, string_eq, true, ℕ, ◌==◌, ◌∷◌,
  ◌≡◌,
}
use mangarr_gateway.Prelude.Dict
use mangarr_gateway.Prelude.Dict.{Dict}
use mangarr_gateway.Framework.Health.{
  failure, success, force, is_enabled, events, new, is_enabled-events,
}
use mangarr_gateway.Framework.Relevance.{is_exact, prune_candidates}
use mangarr_gateway.Framework.Lanes.{lane_of}
use mangarr_gateway.Framework.ProxyPool.{
  PooledProxy, selection_key, ProxyPool, on_cooldown, available, acquire, mark_failed,
  SourcePinnedProxies, current, rotate,
}

-- One failure after a success, with a threshold of 2.
is_enabled-events_example :
    is_enabled (events (failure ∷ success ∷ force ∷ failure ∷ []) (new 2)) ≡ true
is_enabled-events_example = is_enabled-events 2 (failure ∷ success ∷ force ∷ failure ∷ [])

abbrev lanes : Dict String String
lanes = ("default", "device1:5555") ∷ ("fast", "device2:5555") ∷ []

abbrev lane_map : Dict String String
lane_map = ("comix", "fast") ∷ []

abbrev keys : List String
keys = "comix" ∷ "kagane" ∷ []

declared : count (λ l. lane_of lane_map "kagane" == l.0) lanes ≡ 1
unfolding lane_of Dict.get count
declared = refl

abbrev proxy : String → PooledProxy
proxy user = record { host = "gate"; port = "8000"; username = some user; password = some "p" }

abbrev pool : ProxyPool
pool = record { proxies = proxy "a" ∷ proxy "b" ∷ []; cooldown_seconds = 60; cooldowns = [] }

acquired : (acquire 5 7 ("gate:8000:a" ∷ []) pool).0 ≡ some (proxy "b")
unfolding acquire available on_cooldown selection_key Dict.get
acquired = refl

exhausted : (acquire 5 7 ("gate:8000:b" ∷ "gate:8000:a" ∷ []) pool).0 ≡ none
unfolding acquire available selection_key
exhausted = refl

abbrev pins : SourcePinnedProxies
pins = record { pool = some pool; pins = ("comix", proxy "a") ∷ [] }

pinned_one : current "comix" pins ≡ some (proxy "a")
unfolding current Dict.get
pinned_one = refl

rotated : (rotate 5 7 "comix" [] pins).0 ≡ some (proxy "b")
unfolding rotate acquire available on_cooldown mark_failed selection_key Dict.get Dict.put Dict.pop
rotated = refl

abbrev titles : String → List String
titles c = c ∷ "naruto side story" ∷ []

abbrev score : String → String → ℕ
score t q = if t == q then 100 else 50

abbrev found : List String
found = "boruto" ∷ "naruto" ∷ "gaiden" ∷ []

one_exact : count (is_exact titles score 60 40 "naruto") found ≡ 1
unfolding count
one_exact = refl

pruned : prune_candidates titles score 60 40 "naruto" 2 found ≡ "naruto" ∷ []
unfolding prune_candidates keep
pruned = refl
