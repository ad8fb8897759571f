-- ===== src/Framework/AndroidSolver/Sidecar.antt =====
-- `_post_sidecar` and `_solve_with_retry` of src/manga_gateway/framework/android_solver.py. The
-- answers of the sidecar and the device are functions of the attempt's number.
pub mod Posted
pub mod Retried
use mangarr_gateway.Prelude.{
  Bool, Option, if◌then◌else◌, leb, ltb, none, some, suc, zero, ℕ, ◌&&◌, ◌+◌,
}
use mangarr_gateway.Framework.AndroidSolver.{Solved, minted, blocked, failed}

-- The loop of `_post_sidecar`: the number of posts and the last response. `none` is out of fuel.
unfoldable pub post_from : {R : Type 0} → (R → Bool) → (ℕ → R) → ℕ → ℕ → ℕ → Option (ℕ × R)
post_from busy post attempts zero attempt = none
post_from busy post attempts (suc n) attempt =
    let again = post_from busy post attempts n (attempt + 1) in
    if busy (post attempt) && ltb attempt attempts then again else some (attempt, post attempt)

abbrev pub post_sidecar : {R : Type 0} → (R → Bool) → (ℕ → R) → ℕ → Option (ℕ × R)
post_sidecar busy post attempts = post_from busy post attempts (suc attempts) 1

-- What one attempt of a solve comes to. A failure after the POST has its elapsed time.
pub data Attempted (C : Type 0) : Type 0 where
  deferred : Attempted C
  unposted : Attempted C
  errored : ℕ → Attempted C
  succeeded : C → Option ℕ → Attempted C

-- `_RefreshDeferred`, the AssertionError after the loop, or what a caller of the solve sees.
pub data Tried (C : Type 0) : Type 0 where
  bailed : Tried C
  fell_through : Tried C
  ended : Solved C → Tried C

-- After a fast failure: `continue`, or the error.
abbrev pub retry_or_raise : {C : Type 0} → ℕ → ℕ → ℕ × Tried C → ℕ × Tried C
retry_or_raise attempts attempt again =
    if ltb attempt attempts then again else (attempt, ended failed)

-- The body of the loop, given what the attempt came to and what the next rounds come to.
abbrev pub after_attempt : {C : Type 0} → ℕ → ℕ → ℕ → ℕ × Tried C → Attempted C → ℕ × Tried C
after_attempt threshold attempts attempt again deferred = (attempt, bailed)
after_attempt threshold attempts attempt again unposted = retry_or_raise attempts attempt again
after_attempt threshold attempts attempt again (errored elapsed) =
    if leb threshold elapsed
    then (attempt, ended blocked)
    else retry_or_raise attempts attempt again
after_attempt threshold attempts attempt again (succeeded c expires) =
    (attempt, ended (minted c expires))

-- `for attempt in range(...)`, with the number of attempts that are left and the number made.
unfoldable pub solve_from : {C : Type 0} → (ℕ → Attempted C) → ℕ → ℕ → ℕ → ℕ → ℕ × Tried C
solve_from device threshold attempts zero attempt = (attempt, fell_through)
solve_from device threshold attempts (suc n) attempt =
    let again = solve_from device threshold attempts n (attempt + 1) in
    after_attempt threshold attempts attempt again (device attempt)

abbrev pub solve_with_retry : {C : Type 0} → (ℕ → Attempted C) → ℕ → ℕ → ℕ × Tried C
solve_with_retry device threshold attempts = solve_from device threshold attempts attempts 1
