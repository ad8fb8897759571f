-- ===== src/Framework/FanOut/Finish.antt =====
-- A search ends: two moves finish a task, however the other tasks move.
use mangarr_gateway.Prelude.{
  Bool, Bool-cases, List, Option, String, [], arith, count, if◌then◌else◌, inl, inr, nat_beq, suc,
  zero, ℕ, ◌-◌, ◌∷◌, ◌≡◌, ◌≤◌,
}
use mangarr_gateway.Framework.Cooldown.{Cooldown}
use mangarr_gateway.Framework.FanOut.{
  Attempt, result, timed_out, source_error, http_status, transport_error, unexpected, cancelled,
  Phase, waiting, running, skipped, aborted, done, Task, Shared, ended, guarded, advance, run,
  create_tasks, fan_out, checked,
}

module _ {ℓ κ} {S : Type ℓ} {R : Type κ} (key : S → String) (outcome : S → Attempt R)
    (soft : S → List (String × String)) where
  -- The moves that a task still needs at most.
  abbrev pub left : Phase R → ℕ
  left waiting = 2
  left running = 1
  left skipped = 0
  left aborted = 0
  left (done _) = 0

  abbrev pub left_at : ℕ → List (Task S R) → ℕ
  left_at i [] = 0
  left_at zero (t ∷ ts) = left t.phase
  left_at (suc i) (t ∷ ts) = left_at i ts

  abbrev pub moves_of : ℕ → ℕ × ℕ → Bool
  moves_of i m = nat_beq m.1 i

  ended-left : (a : Attempt R) → left (ended key outcome soft a) ≤ 0
  ended-left (result rs) = omega arith
  ended-left timed_out = omega arith
  ended-left (source_error code message) = omega arith
  ended-left (http_status n) = omega arith
  ended-left (transport_error n) = omega arith
  ended-left unexpected = omega arith
  ended-left cancelled = omega arith

  guarded-left :
      (now : ℕ) (s : S) (f : Phase R) (sh : Shared)
      → left (guarded key outcome soft now s f sh).0 ≤ left f - 1
  unfolding guarded
  guarded-left now s waiting sh = elim (Bool-cases (checked now (key s) sh.cooldown).0) [
    | inl e ↦ rw e (omega arith)
    | inr e ↦ rw e (omega arith)
  ]
  guarded-left now s running sh = ended-left (outcome s)
  guarded-left now s skipped sh = omega arith
  guarded-left now s aborted sh = omega arith
  guarded-left now s (done rs) sh = omega arith

  advance-left :
      (now i j : ℕ) (ts : List (Task S R)) (sh : Shared)
      → left_at j (advance key outcome soft now i ts sh).0
        ≤ (if nat_beq i j then left_at j ts - 1 else left_at j ts)
  unfolding advance
  advance-left now i j [] sh = ground arith
  advance-left now zero zero (t ∷ ts) sh = guarded-left now t.src t.phase sh
  advance-left now zero (suc j) (t ∷ ts) sh = ground arith
  advance-left now (suc i) zero (t ∷ ts) sh = ground arith
  advance-left now (suc i) (suc j) (t ∷ ts) sh = ground (arith, advance-left now i j ts sh)

  run-left :
      (moves : List (ℕ × ℕ)) (j : ℕ) (ts : List (Task S R)) (sh : Shared)
      → left_at j (run key outcome soft moves ts sh).0 ≤ left_at j ts - count (moves_of j) moves
  unfolding run count
  run-left [] j ts sh = omega arith
  run-left ((now, i) ∷ moves) j ts sh =
      let (ts', sh') = advance key outcome soft now i ts sh in
      ground (arith, advance-left now i j ts sh, run-left moves j ts' sh')

  created-left : (sources : List S) (j : ℕ) → left_at j (create_tasks key outcome soft sources) ≤ 2
  unfolding create_tasks
  created-left [] j = omega arith
  created-left (s ∷ ss) zero = omega arith
  created-left (s ∷ ss) (suc j) = created-left ss j

  -- In every schedule in which the j-th task moves twice it ends, whatever moves the other tasks
  -- make.
  pub fan_out-left :
      (moves : List (ℕ × ℕ)) (sources : List S) (cooldown : Option Cooldown) (j : ℕ)
      → 2 ≤ count (moves_of j) moves
      → left_at j (fan_out key outcome soft moves sources cooldown).0 ≡ 0
  unfolding fan_out
  fan_out-left moves sources cooldown j h =
      let ts = create_tasks key outcome soft sources in
      omega (
        arith,
        created-left sources j,
        run-left moves j ts (record { warnings = []; cooldown = cooldown }),
      )
