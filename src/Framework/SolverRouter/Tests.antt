-- ===== src/Framework/SolverRouter/Tests.antt =====
-- Concrete inputs for the theorems on the solver router.
use mangarr_gateway.Prelude.{[], if◌then◌else◌, nat_beq, refl, some, ℕ, ◌∷◌, ◌≡◌}
use mangarr_gateway.Prelude.Dict
use mangarr_gateway.Framework.SolverRouter.{Router, backend_for, Warmed, crashed, failed_keys}

-- Two lanes share a backend.
abbrev router : Router
router = record {
  patchright = 0;
  android_by_lane = ("default", 1) ∷ ("fast", 2) ∷ ("spare", 1) ∷ [];
  source_lane_map = ("kagane", "fast") ∷ [];
  eval_backend = 1;
  engine_by_source = ("kagane", "android") ∷ [];
}

abbrev warmed : ℕ → Warmed
warmed b = if nat_beq b 0 then crashed else failed_keys ("kagane" ∷ [])

fast_lane : backend_for router "kagane" ≡ some 2
unfolding backend_for Dict.get
fast_lane = refl
