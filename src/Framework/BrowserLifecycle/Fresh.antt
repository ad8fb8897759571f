-- ===== src/Framework/BrowserLifecycle/Fresh.antt =====
-- Which context a held clearance belongs to.
use mangarr_gateway.Prelude.{
  Bool, String, [], arith, false, inl, inr, nat_beq_iff, none, refl, some, string_eq, true, ℕ, ◌≡◌,
}
use mangarr_gateway.Prelude.Dict
use mangarr_gateway.Framework.SingleFlight.{value}
use mangarr_gateway.Framework.BrowserLifecycle.{
  idle, solving, back, Lifecycle, solve, run_solve, solved, solve_failed, launch_failed, woken,
  close_context, Step, calls, runs, launch_fails, succeeds, fails, wakes, recycles, Reach, here,
  next, start,
}

-- Held clearances and running solves belong to the live context.
abbrev IsFresh : Lifecycle → Type 0
IsFresh s =
    ((key : String) (c : ℕ) → Dict.get s.held key ≡ some c → s.context ≡ some c)
    × ((i : ℕ) (key : String) (force : Bool) (c : ℕ)
        → s.callers i ≡ solving key force c
        → s.context ≡ some c)

Step-IsFresh : {s t : Lifecycle} → Step false s t → IsFresh s → IsFresh t
unfolding solve run_solve solved solve_failed launch_failed woken close_context
Step-IsFresh {s} (calls i key force idles) (held, running) = (
  λ k c q. ground (arith, held k c),
  λ j k f c q. ground (arith, running j k f c, nat_beq_iff i j),
)
Step-IsFresh {s} (runs i key force waits free) (held, running) = (
  λ k c q. ground (arith, held k c),
  λ j k f c q. ground (arith, running j k f c, nat_beq_iff i j),
)
Step-IsFresh {s} (launch_fails i key force message waits free none_live) (held, running) =
    (held, λ j k f d q. ground (arith, running j k f d, nat_beq_iff i j))
Step-IsFresh {s} (succeeds i key force c solves) (held, running) = (
  λ k d q. ground (arith, held k d, running i key force c, Dict.get-put s.held key c k),
  λ j k f d q. ground (arith, running j k f d, nat_beq_iff i j),
)
Step-IsFresh {s} (fails i key force c message solves) (held, running) =
    (held, λ j k f d q. ground (arith, running j k f d, nat_beq_iff i j))
Step-IsFresh {s} (wakes i j key o follows done) (held, running) =
    (held, λ m k f d q. ground (arith, running m k f d, nat_beq_iff i m))
Step-IsFresh {s} (recycles (inl on)) h = cc
Step-IsFresh {s} (recycles (inr none_solves)) (held, running) =
    (λ k c q. unfold Dict.get in cc, λ j k f c q. absurd (none_solves j k f c q))

Reach-IsFresh : (n : ℕ) {s : Lifecycle} → Reach false (start n) s → IsFresh s
Reach-IsFresh n here = (λ k c q. unfold Dict.get in cc, λ i k f c q. cc)
Reach-IsFresh n (next r st) = Step-IsFresh st (Reach-IsFresh n r)

-- Where the context is never closed during a solve, a call that finds a clearance held gets one of
-- the live context.
pub held-context :
    (n : ℕ) {s : Lifecycle} (key : String) (c : ℕ)
    → Reach false (start n) s
    → Dict.get s.held key ≡ some c
    → s.context ≡ some c
held-context n key c r q = (Reach-IsFresh n r).0 key c q

-- Where the context is closed during a solve that then succeeds, a later call gets the clearance of
-- the closed context, without a solve.
pub close_context-stale :
    (s : Lifecycle) (i j : ℕ) (key : String) (force : Bool) (c : ℕ)
    → s.callers i ≡ solving key force c
    → s.callers j ≡ idle
    → (t : Lifecycle) × Reach true s t × (t.context ≡ none) × (t.callers j ≡ back key (value c))
unfolding close_context solved solve
close_context-stale s i j key force c solves idles =
    let closed = close_context s in
    let after = solved i key force c closed in
    let one : Reach true s closed = next here (recycles (inl refl)) in
    let two : Reach true s after = next one (succeeds i key force c solves) in
    (
      solve j key false after,
      next two (calls j key false (ground (arith, nat_beq_iff i j))),
      ground (arith, Dict.get-put {K = String} [] key c key, string_eq.beq_iff key key),
      ground (
        arith,
        Dict.get-put {K = String} [] key c key,
        string_eq.beq_iff key key,
        nat_beq_iff j j,
      ),
    )
