-- ===== src/Framework/Lanes.antt =====
-- `resolve_lane_plans` of src/manga_gateway/framework/lanes.py. A frozenset is the list of its
-- members.
use mangarr_gateway.Prelude.{
  Bool, Bool-cases, List, Option, String, [], any, arith, count, count-map_comp, count_congr, inl,
  inr, keep, length, map, none, refl, some, string_eq, true, ◌&&◌, ◌<◌, ◌==◌, ◌∙◌, ◌∷◌, ◌≡◌,
}
use mangarr_gateway.Prelude.Dict
use mangarr_gateway.Prelude.Dict.{Dict}

-- `DEFAULT_LANE`
abbrev pub default_lane : String
default_lane = "default"

pub record LanePlan : Type 0 where
  pub lane_id : String
  pub adb_target : Option String
  pub source_keys : List String

-- `source_lane_map.get(key, DEFAULT_LANE)`
unfoldable pub lane_of : Dict String String → String → String
lane_of lane_map key = elim (Dict.get lane_map key) [ some l ↦ l | none ↦ default_lane ]

unfoldable pub plan : Dict String String → List String → String × String → String × LanePlan
plan lane_map android_keys (lane_id, target) = (
  lane_id,
  record {
    lane_id = lane_id;
    adb_target = some target;
    source_keys = keep (λ k. lane_of lane_map k == lane_id) android_keys;
  },
)

unfoldable pub resolve_lane_plans :
    Dict String String → Dict String String → List String → Dict String LanePlan
unfolding plan
resolve_lane_plans [] lane_map android_keys =
    (default_lane, record { lane_id = default_lane; adb_target = none; source_keys = android_keys })
    ∷ []
resolve_lane_plans (l ∷ ls) lane_map android_keys = map (plan lane_map android_keys) (l ∷ ls)

abbrev pub owns : String → String × LanePlan → Bool
owns key e = any (λ k. k == key) e.1.source_keys

any-keep :
    (lane_map : Dict String String) (key lane : String) (keys : List String)
    → any (λ k. k == key) (keep (λ k. lane_of lane_map k == lane) keys)
      ≡ (any (λ k. k == key) keys && (lane_of lane_map key == lane))
unfolding keep
any-keep m key lane [] = refl
any-keep m key lane (k ∷ keys) = elim (Bool-cases (k == key)) [
  | inl e ↦
      let same : k ≡ key = (string_eq.beq_iff k key).0 e in
      ground (arith, any-keep m key lane keys, same)
  | inr e ↦ ground (arith, any-keep m key lane keys)
]

-- Every android source belongs to exactly one lane, provided that, if lanes are configured, the
-- one that the source is mapped to is declared once.
pub resolve_lane_plans-owns :
    (lanes lane_map : Dict String String) (android_keys : List String) (key : String)
    → any (λ k. k == key) android_keys ≡ true
    → (0 < length lanes → count (λ l. lane_of lane_map key == l.0) lanes ≡ 1)
    → count (owns key) (resolve_lane_plans lanes lane_map android_keys) ≡ 1
unfolding resolve_lane_plans plan
resolve_lane_plans-owns [] m keys key h d = unfold count in rw h refl
resolve_lane_plans-owns (l ∷ ls) m keys key h d =
    count-map_comp (owns key) (plan m keys) (l ∷ ls)
    ∙ count_congr _ (λ x. lane_of m key == x.0) (l ∷ ls) (λ x. any-keep m key x.0 keys ∙ rw h refl)
    ∙ d (omega arith)
