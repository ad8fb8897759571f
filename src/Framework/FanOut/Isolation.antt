-- ===== src/Framework/FanOut/Isolation.antt =====
-- What each source contributes to a search depends on that source only.
use mangarr_gateway.Prelude.{
  All, Bool, Bool-cases, List, Option, String, [], any, ap, arith, count, count-append, false, inl,
  inr, map, none, refl, some, suc, true, zero, ℕ, ◌++◌, ◌+◌, ◌∙◌, ◌∷◌, ◌≡◌, ◌⊎◌,
}
use Prim.Native.String.{◌++◌ as append_text}
use mangarr_gateway.Framework.FanOut.{
  Attempt, result, timed_out, source_error, http_status, transport_error, unexpected, cancelled,
  Warning, Phase, waiting, running, skipped, aborted, done, Task, Shared, warnings_of,
  cooldown_warning, ended, guarded, advance, run, extend, releases, create_tasks, fan_out, checked,
}
use mangarr_gateway.Framework.Cooldown.{Cooldown}

-- The code and the message that the warning of a failed run is to have; none where it has not failed.
abbrev pub reason {κ} : {R : Type κ} → Attempt R → Option (String × String)
reason timed_out = some ("source_unavailable", "timed out")
reason (source_error code message) = some (code, message)
reason (http_status n) = some ("source_unavailable", append_text "upstream " n)
reason (transport_error n) = some ("source_unavailable", append_text "transport error: " n)
reason unexpected = some ("source_unavailable", "unexpected error")
reason (result rs) = none
reason cancelled = none

module _ {ℓ κ} {S : Type ℓ} {R : Type κ} (key : S → String) (outcome : S → Attempt R)
    (soft : S → List (String × String)) where
  -- The releases that the ended tasks hold, and whether one was cancelled.
  abbrev pub all_given : List (Task S R) → List R
  all_given [] = []
  all_given (t ∷ ts) = elim t.phase [ done rs ↦ rs | _ ↦ [] ] ++ all_given ts

  abbrev pub is_aborted : Task S R → Bool
  is_aborted t = elim t.phase [ aborted ↦ true | _ ↦ false ]

  -- An ended task holds what its run gave, or nothing after a failure. A cancelled task had a
  -- cancelled run.
  abbrev pub IsFair : S → Phase R → Type κ
  IsFair s (done rs) =
      (outcome s ≡ result rs)
      ⊎ ((rs ≡ [])
          × (code : String) × (message : String) × (reason (outcome s) ≡ some (code, message)))
  IsFair s aborted = outcome s ≡ cancelled
  IsFair s _ = Unit

  -- The warnings that a task stands for.
  abbrev pub warned_by : S → Attempt R → List Warning
  warned_by s (result rs) = map (λ w. (key s, w.0, w.1)) (soft s)
  warned_by s a = elim (reason a) [ some w ↦ (key s, w.0, w.1) ∷ [] | none ↦ [] ]

  abbrev pub warned : S → Phase R → List Warning
  warned s (done _) = warned_by s (outcome s)
  warned s skipped = (key s, "source_unavailable", "upstream unavailable (cooldown)") ∷ []
  warned s _ = []

  abbrev pub all_warned : List (Task S R) → List Warning
  all_warned [] = []
  all_warned (t ∷ ts) = warned t.src t.phase ++ all_warned ts

  ended-warned :
      (s : S) (a : Attempt R)
      → outcome s ≡ a
      → warned s (ended key outcome soft a) ≡ warnings_of key outcome soft s a
  unfolding warnings_of
  ended-warned s (result rs) e = rw e refl
  ended-warned s timed_out e = rw e refl
  ended-warned s (source_error code message) e = rw e refl
  ended-warned s (http_status n) e = rw e refl
  ended-warned s (transport_error n) e = rw e refl
  ended-warned s unexpected e = rw e refl
  ended-warned s cancelled e = refl

  ended-IsFair : (s : S) (a : Attempt R) → outcome s ≡ a → IsFair s (ended key outcome soft a)
  ended-IsFair s (result rs) e = inl e
  ended-IsFair s timed_out e = inr (refl, _, _, ap reason e)
  ended-IsFair s (source_error code message) e = inr (refl, _, _, ap reason e)
  ended-IsFair s (http_status n) e = inr (refl, _, _, ap reason e)
  ended-IsFair s (transport_error n) e = inr (refl, _, _, ap reason e)
  ended-IsFair s unexpected e = inr (refl, _, _, ap reason e)
  ended-IsFair s cancelled e = e

  guarded-warnings :
      (p : Warning → Bool) (now : ℕ) (s : S) (f : Phase R) (sh : Shared)
      → count p (guarded key outcome soft now s f sh).1.warnings + count p (warned s f)
        ≡ count p sh.warnings + count p (warned s (guarded key outcome soft now s f sh).0)
  unfolding guarded count
  guarded-warnings p now s waiting sh = elim (Bool-cases (checked now (key s) sh.cooldown).0) [
    | inl e ↦
        rw e (omega (arith, count-append p sh.warnings (cooldown_warning key outcome soft s ∷ [])))
    | inr e ↦ rw e (omega arith)
  ]
  guarded-warnings p now s running sh = omega (
    arith,
    count-append p sh.warnings (warnings_of key outcome soft s (outcome s)),
    ap (count p) (ended-warned s (outcome s) refl),
  )
  guarded-warnings p now s skipped sh = refl
  guarded-warnings p now s aborted sh = refl
  guarded-warnings p now s (done rs) sh = refl

  guarded-IsFair :
      (now : ℕ) (s : S) (f : Phase R) (sh : Shared)
      → IsFair s f
      → IsFair s (guarded key outcome soft now s f sh).0
  unfolding guarded
  guarded-IsFair now s waiting sh h = elim (Bool-cases (checked now (key s) sh.cooldown).0) [
    | inl e ↦ rw e tt
    | inr e ↦ rw e tt
  ]
  guarded-IsFair now s running sh h = ended-IsFair s (outcome s) refl
  guarded-IsFair now s skipped sh h = h
  guarded-IsFair now s aborted sh h = h
  guarded-IsFair now s (done rs) sh h = h

  abbrev pub AllFair : List (Task S R) → Type κ
  AllFair = All (λ t. IsFair t.src t.phase)

  -- One move keeps the warnings in step with the tasks.
  advance-warnings :
      (p : Warning → Bool) (now i : ℕ) (ts : List (Task S R)) (sh : Shared)
      → count p (advance key outcome soft now i ts sh).1.warnings + count p (all_warned ts)
        ≡ count p sh.warnings + count p (all_warned (advance key outcome soft now i ts sh).0)
  unfolding advance
  advance-warnings p now i [] sh = refl
  advance-warnings p now zero (t ∷ ts) sh =
      let g = guarded-warnings p now t.src t.phase sh in
      omega (
        arith,
        g,
        count-append p (warned t.src t.phase) (all_warned ts),
        count-append p (warned t.src (guarded key outcome soft now t.src t.phase sh).0)
            (all_warned ts),
      )
  advance-warnings p now (suc i) (t ∷ ts) sh = omega (
    arith,
    advance-warnings p now i ts sh,
    count-append p (warned t.src t.phase) (all_warned ts),
    count-append p (warned t.src t.phase) (all_warned (advance key outcome soft now i ts sh).0),
  )

  advance-Fair :
      (now i : ℕ) (ts : List (Task S R)) (sh : Shared)
      → AllFair ts
      → AllFair (advance key outcome soft now i ts sh).0
        × (map (λ t. t.src) (advance key outcome soft now i ts sh).0 ≡ map (λ t. t.src) ts)
  unfolding advance
  advance-Fair now i [] sh f = (f, refl)
  advance-Fair now zero (t ∷ ts) sh f = ((guarded-IsFair now t.src t.phase sh f.0, f.1), refl)
  advance-Fair now (suc i) (t ∷ ts) sh f =
      let (g, e) = advance-Fair now i ts sh f.1 in ((f.0, g), ap (λ l. t.src ∷ l) e)

  run-warnings :
      (p : Warning → Bool) (moves : List (ℕ × ℕ)) (ts : List (Task S R)) (sh : Shared)
      → count p (run key outcome soft moves ts sh).1.warnings + count p (all_warned ts)
        ≡ count p sh.warnings + count p (all_warned (run key outcome soft moves ts sh).0)
  unfolding run
  run-warnings p [] ts sh = refl
  run-warnings p ((now, i) ∷ moves) ts sh =
      let (ts', sh') = advance key outcome soft now i ts sh in
      omega (arith, advance-warnings p now i ts sh, run-warnings p moves ts' sh')

  run-Fair :
      (moves : List (ℕ × ℕ)) (ts : List (Task S R)) (sh : Shared)
      → AllFair ts
      → AllFair (run key outcome soft moves ts sh).0
        × (map (λ t. t.src) (run key outcome soft moves ts sh).0 ≡ map (λ t. t.src) ts)
  unfolding run
  run-Fair [] ts sh f = (f, refl)
  run-Fair ((now, i) ∷ moves) ts sh f =
      let (ts', sh') = advance key outcome soft now i ts sh in
      let (g, e) = advance-Fair now i ts sh f in let (k, q) = run-Fair moves ts' sh' g in (k, q ∙ e)

  -- The loop over the results raises where a task was cancelled, and else gives all releases.
  abbrev pub IsCollected : List (Task S R) → Type κ
  IsCollected ts =
      ((any is_aborted ts ≡ true) × (releases key outcome soft ts ≡ none))
      ⊎ ((any is_aborted ts ≡ false) × (releases key outcome soft ts ≡ some (all_given ts)))

  -- A task that was not cancelled, before the others.
  collected_more :
      (rs : List R) (ts : List (Task S R))
      → IsCollected ts
      → ((any is_aborted ts ≡ true)
          × (extend key outcome soft (some rs) (releases key outcome soft ts) ≡ none))
        ⊎ ((any is_aborted ts ≡ false)
            × (extend key outcome soft (some rs) (releases key outcome soft ts)
                ≡ some (rs ++ all_given ts)))
  collected_more rs ts (inl (b, n)) = inl (b, ap (extend key outcome soft (some rs)) n)
  collected_more rs ts (inr (b, n)) = inr (b, ap (extend key outcome soft (some rs)) n)

  collected :
      (s : S) (f : Phase R) (ts : List (Task S R))
      → IsCollected ts
      → IsCollected (record { src = s; phase = f } ∷ ts)
  unfolding releases
  collected s waiting ts c = collected_more [] ts c
  collected s running ts c = collected_more [] ts c
  collected s skipped ts c = collected_more [] ts c
  collected s aborted ts c = inl (refl, refl)
  collected s (done rs) ts c = collected_more rs ts c

  releases-IsCollected : (ts : List (Task S R)) → IsCollected ts
  unfolding releases
  releases-IsCollected [] = inr (refl, refl)
  releases-IsCollected (t ∷ ts) = collected t.src t.phase ts (releases-IsCollected ts)

  created :
      (ss : List S)
      → AllFair (create_tasks key outcome soft ss)
        × (map (λ t. t.src) (create_tasks key outcome soft ss) ≡ ss)
        × (all_warned (create_tasks key outcome soft ss) ≡ [])
  unfolding create_tasks
  created [] = (tt, refl, refl)
  created (s ∷ ss) = let (f, e, n) = created ss in ((tt, f), ap (λ l. s ∷ l) e, n)

  -- Whatever the interleaving of the tasks, there is one task for each source, in order. An ended
  -- task holds what its run gave, or nothing where the run failed, and a task that is cancelled
  -- had a cancelled run. Collecting the results raises where a task was cancelled, and gives all
  -- releases of the ended tasks otherwise, in the order of the sources. The warnings are, up to
  -- their order, those of the ended tasks, none for a cancelled one, and one for each source that
  -- its cooldown skipped.
  pub fan_out-given :
      (moves : List (ℕ × ℕ)) (sources : List S) (cooldown : Option Cooldown)
      → (map (λ t. t.src) (fan_out key outcome soft moves sources cooldown).0 ≡ sources)
        × AllFair (fan_out key outcome soft moves sources cooldown).0
        × IsCollected (fan_out key outcome soft moves sources cooldown).0
        × ((p : Warning → Bool)
            → count p (fan_out key outcome soft moves sources cooldown).1.warnings
              ≡ count p (all_warned (fan_out key outcome soft moves sources cooldown).0))
  unfolding fan_out
  fan_out-given moves sources cooldown =
      let (f, e, n) = created sources in
      let ts = create_tasks key outcome soft sources in
      let sh : Shared = record { warnings = []; cooldown = cooldown } in
      let (g, q) = run-Fair moves ts sh f in
      (
        q ∙ e,
        g,
        releases-IsCollected (run key outcome soft moves ts sh).0,
        λ p. omega (arith, run-warnings p moves ts sh, ap (count p) n),
      )
