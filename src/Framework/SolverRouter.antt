-- ===== src/Framework/SolverRouter.antt =====
-- `SolverRouter` of src/manga_gateway/framework/solver_router.py. A backend is the number that `id`
-- gives it; what the backends can do and answer are arguments.
mod Tests
pub mod Once
use mangarr_gateway.Prelude.{
  Bool, Eq, List, Option, String, [], any, if◌then◌else◌, nat_eq, none, not, some, string_eq, ℕ,
  ◌&&◌, ◌++◌, ◌==◌, ◌∷◌,
}
use mangarr_gateway.Prelude.Dict
use mangarr_gateway.Prelude.Dict.{Dict}
use mangarr_gateway.Framework.Lanes.{default_lane}

pub record Router : Type 0 where
  pub patchright : ℕ
  pub android_by_lane : Dict String ℕ
  pub source_lane_map : Dict String String
  pub eval_backend : ℕ
  pub engine_by_source : Dict String String

abbrev pub get_or : Option String → String → String
get_or none d = d
get_or (some s) d = s

-- `_backend_for`. `none` is the KeyError of a missing default lane, which Python looks up in any case.
unfoldable pub backend_for : Router → String → Option ℕ
backend_for r source_key =
    if not (get_or (Dict.get r.engine_by_source source_key) "patchright" == "android")
    then some r.patchright
    else elim (Dict.get r.android_by_lane default_lane) [
      | none ↦ none
      | some fallback ↦
          elim (Dict.get r.android_by_lane
            (get_or (Dict.get r.source_lane_map source_key) default_lane)) [
              | none ↦ some fallback
              | some own ↦ some own
            ]
    ]

-- What a backend declares of `get_clearance`.
pub record Keywords : Type 0 where
  pub takes_force_resolve : Bool
  pub takes_solve_if_missing : Bool

-- `get_clearance`: the backend that is called, and the two arguments as it sees them.
unfoldable pub get_clearance :
    (ℕ → Keywords) → Router → String → Bool → Bool → Option (ℕ × Bool × Bool)
unfolding backend_for
get_clearance declared r source_key force_resolve solve_if_missing =
    elim (backend_for r source_key) [
      | none ↦ none
      | some b ↦ some (
        b,
        force_resolve && (declared b).takes_force_resolve,
        not (not solve_if_missing && (declared b).takes_solve_if_missing),
      )
    ]

module _ {ℓ} {A : Type ℓ} ⦃e : Eq A⦄ where
  abbrev pub member : A → List A → Bool
  member a xs = any (λ x. x == a) xs

  -- `if x not in seen: seen.add(x); out.append(x)`, where `seen` holds what `out` holds.
  unfoldable pub add_new : List A → List A → List A
  add_new out [] = out
  add_new out (x ∷ xs) = add_new (if member x out then out else out ++ x ∷ []) xs

unfoldable pub all_backends : Router → List ℕ
unfolding add_new
all_backends r = add_new ⦃e = nat_eq⦄ [] (r.patchright ∷ Dict.values r.android_by_lane)

-- What `warm` of a backend does, if it has one.
pub data Warmed : Type 0 where
  no_warm crashed : Warmed
  failed_keys : List String → Warmed

-- `_warm_backend`
abbrev pub warm_backend : Warmed → List String
warm_backend no_warm = []
warm_backend crashed = []
warm_backend (failed_keys keys) = keys

module _ (warmed : ℕ → Warmed) where
  -- The loop of `warm`: the keys, and the backends in the order in which they were warmed.
  unfoldable pub warm_all : List ℕ → List String → List String × List ℕ
  unfolding add_new
  warm_all [] failed = (failed, [])
  warm_all (b ∷ bs) failed =
      let (keys, called) = warm_all bs (add_new failed (warm_backend (warmed b))) in
      (keys, b ∷ called)

  unfoldable pub warm : Router → List String × List ℕ
  unfolding warm_all all_backends
  warm r = warm_all (all_backends r) []
