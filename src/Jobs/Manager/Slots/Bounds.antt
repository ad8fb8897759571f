-- ===== src/Jobs/Manager/Slots/Bounds.antt =====
-- The bounds on running jobs, and that the slots never deadlock.
use mangarr_gateway.Prelude.{
  Bool, Bool-cases, List, Option, Option-cases, String, [], ap, arith, beq_refl, count,
  count-append, count-find, count-le, count-replace, false, if◌then◌else◌, inl, inr, length,
  length-append, ltb, ltb→lt, none, not, refl, some, string_eq, suc, true, ℕ, ◌&&◌, ◌++◌, ◌+◌, ◌-◌,
  ◌<◌, ◌==◌, ◌∙◌, ◌∷◌, ◌≡◌, ◌≤◌,
}
use mangarr_gateway.Prelude.Dict
use mangarr_gateway.Prelude.Dict.{Dict}
use mangarr_gateway.Jobs.Manager.Slots.{
  waiting_source, waiting_global, running, Task, Slots, is_running, of_source, holds, at, Step,
  start, take_source, take_global, finish, IsValid, set_default, Reach, here, next, holds_source,
}

-- The slots before any job.
abbrev pub all_free : ℕ → Slots
all_free limit = record { global_free = limit; source_free = []; tasks = [] }

abbrev or_new : Option ℕ → Option ℕ → Option ℕ
or_new (some v) o = some v
or_new none o = o

get-set_default :
    (d : Dict String ℕ) (key : String) (n : ℕ) (k : String)
    → Dict.get (set_default d key n) k ≡ or_new (Dict.get d k) (if key == k then some n else none)
get-set_default d key n k = ground (arith, Dict.get-put d key n k, string_eq.beq_iff key k)

holds-le : (k : String) (ts : List Task) → count (holds k) ts ≤ count (of_source k) ts
holds-le k ts = count-le (holds k) (of_source k) ts (λ x p. ground arith)

-- A task that changes its phase.
count-at :
    (p : Task → Bool) (before after : List Task) (t u : Task) (tasks : List Task)
    → tasks ≡ before ++ t ∷ after
    → count p tasks + (if p u then 1 else 0)
      ≡ count p (before ++ u ∷ after) + (if p t then 1 else 0)
unfolding count
count-at p before after t u tasks e =
    ground (arith, ap (count p) e, count-replace p before after t u)

count-gone :
    (p : Task → Bool) (before after : List Task) (t : Task) (tasks : List Task)
    → tasks ≡ before ++ t ∷ after
    → count p tasks ≡ count p (before ++ after) + (if p t then 1 else 0)
unfolding count
count-gone p before after t tasks e =
    ground (arith, ap (count p) e, count-append p before (t ∷ after), count-append p before after)

-- The task has its source's slot and waits for a global one.
abbrev is_waiting_global : Task → Bool
is_waiting_global t = elim t.phase [ waiting_global ↦ true | _ ↦ false ]

-- A task waits for its source where it neither runs nor waits for a global slot.
phases :
    (p : Task → Bool) (ts : List Task)
    → count p ts
      ≤ count is_running ts
        + count is_waiting_global ts
        + count (λ t. p t && not (holds_source t)) ts
unfolding count
phases p [] = omega arith
phases p (t ∷ ts) = ground (arith, phases p ts)

held-le :
    (k : String) (ts : List Task)
    → count (holds k) ts ≤ count is_running ts + count is_waiting_global ts
unfolding count
held-le k [] = omega arith
held-le k (t ∷ ts) = ground (arith, held-le k ts)

count-true : (ts : List Task) → count (λ _. true) ts ≡ length ts
unfolding count
count-true [] = refl
count-true (t ∷ ts) = ap suc (count-true ts)

module _ (bound : String → ℕ) (limit : ℕ) where
  pub all_free-IsValid : IsValid bound limit (all_free limit)
  unfolding count Dict.get
  all_free-IsValid = record {
    global = omega arith;
    source = λ k n h. absurd (ground arith);
    known = λ k h. refl;
  }

  source_found :
      (s : Slots) (before after : List Task) (t : Task)
      → IsValid bound limit s
      → s.tasks ≡ before ++ t ∷ after
      → (n : ℕ) × (Dict.get s.source_free t.source_key ≡ some n)
  unfolding count
  source_found s before after t v e = elim (Option-cases (Dict.get s.source_free t.source_key)) [
    | inl n ↦ absurd (
        ground (
          arith,
          v.known t.source_key n,
          beq_refl t.source_key,
          count-gone (of_source t.source_key) before after t s.tasks e,
        ))
    | inr f ↦ f
  ]

  finish_step :
      (s : Slots)
      → IsValid bound limit s
      → 0 < count is_running s.tasks
      → (t : Slots) × Step bound s t × (length t.tasks ≤ length s.tasks)
  finish_step s v h =
      let (before, t, after, e, p) = count-find is_running s.tasks h in
      let (n, f) = source_found s before after t v e in
      (
        record s {
          tasks = before ++ after;
          global_free = s.global_free + 1;
          source_free = Dict.put s.source_free t.source_key (suc n);
        },
        finish s before after t n e (ground arith) f,
        omega (arith, ap length e, length-append before (t ∷ after), length-append before after),
      )

  global_step :
      (s : Slots)
      → IsValid bound limit s
      → 0 < s.global_free
      → 0 < count is_waiting_global s.tasks
      → (t : Slots) × Step bound s t × (length t.tasks ≤ length s.tasks)
  global_step s v g h =
      let (before, t, after, e, p) = count-find is_waiting_global s.tasks h in
      (
        record s { tasks = before ++ at t running ∷ after; global_free = s.global_free - 1 },
        take_global s before after t (s.global_free - 1) e (ground arith) (omega arith),
        omega (
          arith,
          ap length e,
          length-append before (t ∷ after),
          length-append before (at t running ∷ after),
        ),
      )

  source_step :
      (s : Slots)
      → IsValid bound limit s
      → ((k : String) → 1 ≤ bound k)
      → 0 < length s.tasks
      → count is_running s.tasks ≡ 0
      → count is_waiting_global s.tasks ≡ 0
      → (t : Slots) × Step bound s t × (length t.tasks ≤ length s.tasks)
  source_step s v b h r w =
      let waits : 0 < count (λ t. true && not (holds_source t)) s.tasks =
        omega (arith, phases (λ _. true) s.tasks, count-true s.tasks, r, w) in
      let (before, t, after, e, p) = count-find (λ t. true && not (holds_source t)) s.tasks waits in
      let (n, f) = source_found s before after t v e in
      let none_held : count (holds t.source_key) s.tasks ≡ 0 =
        omega (arith, held-le t.source_key s.tasks, r, w) in
      let room : n ≡ suc (n - 1) =
        omega (arith, v.source t.source_key n f, b t.source_key, none_held) in
      (
        record s {
          tasks = before ++ at t waiting_global ∷ after;
          source_free = Dict.put s.source_free t.source_key (n - 1);
        },
        take_source s before after t (n - 1) e (ground arith) (f ∙ ap some room),
        omega (
          arith,
          ap length e,
          length-append before (t ∷ after),
          length-append before (at t waiting_global ∷ after),
        ),
      )

  Step-IsValid : {s t : Slots} → Step bound s t → IsValid bound limit s → IsValid bound limit t
  unfolding count
  Step-IsValid (start s i key) v = record {
    global = ground (
      arith,
      v.global,
      count-append is_running s.tasks
          (record { job_id = i; source_key = key; phase = waiting_source } ∷ []),
    );
    source = λ k n h. ground (
      arith,
      get-set_default s.source_free key (bound key) k,
      string_eq.beq_iff key k,
      v.known k,
      v.source k n,
      holds-le k s.tasks,
      count-append (holds k) s.tasks
          (record { job_id = i; source_key = key; phase = waiting_source } ∷ []),
    );
    known = λ k h. ground (
      arith,
      get-set_default s.source_free key (bound key) k,
      string_eq.beq_iff key k,
      v.known k,
      count-append (of_source k) s.tasks
          (record { job_id = i; source_key = key; phase = waiting_source } ∷ []),
    );
  }
  Step-IsValid (take_source s before after t n e p f) v = record {
    global =
        ground
          (arith, v.global, count-at is_running before after t (at t waiting_global) s.tasks e);
    source = λ k m h. ground (
      arith,
      Dict.get-put s.source_free t.source_key n k,
      string_eq.beq_iff t.source_key k,
      v.source k (suc n),
      v.source k m,
      count-at (holds k) before after t (at t waiting_global) s.tasks e,
    );
    known = λ k h. ground (
      arith,
      Dict.get-put s.source_free t.source_key n k,
      string_eq.beq_iff t.source_key k,
      v.known k,
      count-at (of_source k) before after t (at t waiting_global) s.tasks e,
    );
  }
  Step-IsValid (take_global s before after t n e p f) v = record {
    global = ground (arith, v.global, count-at is_running before after t (at t running) s.tasks e);
    source = λ k m h.
        ground (arith, v.source k m, count-at (holds k) before after t (at t running) s.tasks e);
    known = λ k h.
        ground (arith, v.known k, count-at (of_source k) before after t (at t running) s.tasks e);
  }
  Step-IsValid (finish s before after t n e p f) v = record {
    global = ground (arith, v.global, count-gone is_running before after t s.tasks e);
    source = λ k m h. ground (
      arith,
      Dict.get-put s.source_free t.source_key (suc n) k,
      string_eq.beq_iff t.source_key k,
      v.source k n,
      v.source k m,
      count-gone (holds k) before after t s.tasks e,
    );
    known = λ k h. ground (
      arith,
      Dict.get-put s.source_free t.source_key (suc n) k,
      string_eq.beq_iff t.source_key k,
      v.known k,
      count-gone (of_source k) before after t s.tasks e,
    );
  }

  Reach-IsValid : {s t : Slots} → Reach bound s t → IsValid bound limit s → IsValid bound limit t
  Reach-IsValid here v = v
  Reach-IsValid (next r st) v = Step-IsValid st (Reach-IsValid r v)

  -- However the tasks interleave, no more jobs run than max_concurrent_chapters, and no more of
  -- one source than its own bound.
  pub Reach-running-le :
      (s : Slots)
      → Reach bound (all_free limit) s
      → (count is_running s.tasks ≤ limit)
        × ((k : String) → count (λ t. of_source k t && is_running t) s.tasks ≤ bound k)
  Reach-running-le s r =
      let v = Reach-IsValid r all_free-IsValid in
      (
        omega (arith, v.global),
        λ k.
            let h =
              count-le (λ t. of_source k t && is_running t) (holds k) s.tasks
                (λ x p. ground arith) in
            elim (Option-cases (Dict.get s.source_free k)) [
              | inl n ↦ omega (arith, h, v.known k n, holds-le k s.tasks)
              | inr (n, f) ↦ omega (arith, h, v.source k n f)
            ],
      )

  -- A global slot that is taken belongs to a running job: a task that waits for its source takes
  -- none from the other sources.
  pub Reach-taken :
      (s : Slots)
      → Reach bound (all_free limit) s
      → limit - s.global_free ≡ count is_running s.tasks
  Reach-taken s r = let v = Reach-IsValid r all_free-IsValid in omega (arith, v.global)

  -- With at least one slot of each kind the tasks never block one another: while there are tasks,
  -- one of them can take its next step.
  pub Reach-progress :
      (s : Slots)
      → 1 ≤ limit
      → ((k : String) → 1 ≤ bound k)
      → Reach bound (all_free limit) s
      → 0 < length s.tasks
      → (t : Slots) × Step bound s t × (length t.tasks ≤ length s.tasks)
  Reach-progress s l b r h =
      let v = Reach-IsValid r all_free-IsValid in
      elim (Bool-cases (ltb 0 (count is_running s.tasks))) [
        | inl e ↦ finish_step s v (ltb→lt _ _ e)
        | inr e ↦ elim (Bool-cases (ltb 0 (count is_waiting_global s.tasks))) [
          | inl f ↦ global_step s v (ground arith) (ltb→lt _ _ f)
          | inr f ↦ source_step s v b h (ground arith) (ground arith)
        ]
      ]
