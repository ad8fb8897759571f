-- ===== src/Metrics/Rollups/Totals.antt =====
-- The rollups of a history of events, in closed form.
use mangarr_gateway.Prelude.{
  Bool, Bool-cases, List, Option, [], ap, arith, count, if◌then◌else◌, inl, inr, keep, length, max,
  none, refl, some, ℕ, ◌+◌, ◌==◌, ◌∙◌, ◌∷◌, ◌≡◌, string_eq,
}
use mangarr_gateway.Prelude.Dict
use mangarr_gateway.Prelude.Dict.{Dict, get-put}
use mangarr_gateway.Metrics.Event.{MetricEvent, is_failure}
use mangarr_gateway.Metrics.Rollups.{
  Histogram, Rollup, RollupKey, key_beq, key_beq_iff, key_eq, rollup_key, min_with, observe, found,
  classify, total, summary,
}

abbrev at : {H : Type 0} → (Rollup H → ℕ) → Option (Rollup H) → ℕ
at f none = 0
at f (some r) = f r

-- What a put takes away and adds.
total-put :
    {H : Type 0} (f : Rollup H → ℕ) (d : Dict RollupKey (Rollup H)) (k : RollupKey) (r : Rollup H)
    → total (λ e. f e.1) (Dict.put d k r) + at f (Dict.get d k) ≡ total (λ e. f e.1) d + f r
unfolding Dict.put Dict.get
total-put f [] k r = omega arith
total-put f ((j, w) ∷ d) k r = ground (arith, total-put f d k r)

-- The least duration.
abbrev pub least : List MetricEvent → Option ℕ
least [] = none
least (ev ∷ evs) = min_with (least evs) ev.duration

abbrev pub greatest : List MetricEvent → ℕ
greatest [] = 0
greatest (ev ∷ evs) = max (greatest evs) ev.duration

abbrev pub of_key : RollupKey → MetricEvent → Bool
of_key k ev = rollup_key ev == k

module _ {H : Type 0} (h : Histogram H) where
  abbrev pub recorded : List MetricEvent → H
  recorded [] = h.new_histogram
  recorded (ev ∷ evs) = h.record_value (max 1 (h.round_ms ev.duration)) (recorded evs)

  -- The rollup of some events, the latest in front, of which none has another key.
  abbrev pub rollup_of : List MetricEvent → Rollup H
  rollup_of evs = record {
    count = length evs;
    error_count = count is_failure evs;
    sum_ms = total (λ ev. ev.duration) evs;
    min_ms = least evs;
    max_ms = greatest evs;
    hist = recorded evs;
  }

  abbrev pub rollup_of_some : List MetricEvent → Option (Rollup H)
  rollup_of_some [] = none
  rollup_of_some (ev ∷ evs) = some (rollup_of (ev ∷ evs))

  -- The rollups after the events of a history, the latest in front.
  abbrev pub classify_all : ℕ → List MetricEvent → Dict RollupKey (Rollup H)
  classify_all slow_factor [] = []
  classify_all slow_factor (ev ∷ evs) = (classify h slow_factor ev (classify_all slow_factor evs)).0

  observe-rollup_of :
      (ev : MetricEvent) (evs : List MetricEvent)
      → observe h ev (found h (rollup_of_some evs)) ≡ rollup_of (ev ∷ evs)
  unfolding observe count
  observe-rollup_of ev [] = ground arith
  observe-rollup_of ev (e ∷ evs) = ground arith

  get-classify_all :
      (slow_factor : ℕ) (evs : List MetricEvent) (k : RollupKey)
      → Dict.get (classify_all slow_factor evs) k ≡ rollup_of_some (keep (of_key k) evs)
  unfolding classify keep Dict.get
  get-classify_all f [] k = refl
  get-classify_all f (ev ∷ evs) k =
      rw
        (
          get-put (classify_all f evs) (rollup_key ev) _ k,
          get-classify_all f evs (rollup_key ev),
          observe-rollup_of ev (keep (of_key (rollup_key ev)) evs),
          get-classify_all f evs k,
        )
        elim (Bool-cases (key_beq (rollup_key ev) k)) [
          | inl e ↦
              let same : rollup_key ev ≡ k = (key_beq_iff (rollup_key ev) k).0 e in
              rw e (ap (λ z. rollup_of_some (ev ∷ keep (of_key z) evs)) same)
          | inr e ↦ rw e refl
        ]

  -- A quantity that a step raises by an amount of the event's own.
  total-classify_all :
      (slow_factor : ℕ) (f : Rollup H → ℕ) (g : MetricEvent → ℕ) (evs : List MetricEvent)
      → ((ev : MetricEvent) (o : Option (Rollup H)) → f (observe h ev (found h o)) ≡ g ev + at f o)
      → total (λ e. f e.1) (classify_all slow_factor evs) ≡ total g evs
  unfolding classify
  total-classify_all s f g [] step = refl
  total-classify_all s f g (ev ∷ evs) step =
      let d = classify_all s evs in
      omega (
        arith,
        total-put f d (rollup_key ev) (observe h ev (found h (Dict.get d (rollup_key ev)))),
        step ev (Dict.get d (rollup_key ev)),
        total-classify_all s f g evs step,
      )

  total-ones : (evs : List MetricEvent) → total (λ _. 1) evs ≡ length evs
  total-ones [] = refl
  total-ones (ev ∷ evs) = omega (arith, total-ones evs)

  total-failures :
      (evs : List MetricEvent)
      → total (λ ev. if is_failure ev then 1 else 0) evs ≡ count is_failure evs
  unfolding count
  total-failures [] = refl
  total-failures (ev ∷ evs) = ground (arith, total-failures evs)

  observe-count :
      (ev : MetricEvent) (o : Option (Rollup H))
      → (observe h ev (found h o)).count ≡ 1 + at (λ r. r.count) o
  unfolding observe
  observe-count ev none = refl
  observe-count ev (some r) = omega arith

  observe-error_count :
      (ev : MetricEvent) (o : Option (Rollup H))
      → (observe h ev (found h o)).error_count
        ≡ (if is_failure ev then 1 else 0) + at (λ r. r.error_count) o
  unfolding observe
  observe-error_count ev none = ground arith
  observe-error_count ev (some r) = ground arith

  -- After any history, the rollup of a key is that of the events of this key, in closed form, and
  -- there is none for a key without events. The summary counts every event and every failure once,
  -- over whatever keys they are spread.
  pub classify_all-totals :
      (slow_factor : ℕ) (evs : List MetricEvent) (k : RollupKey)
      → (Dict.get (classify_all slow_factor evs) k ≡ rollup_of_some (keep (of_key k) evs))
        × ((summary (classify_all slow_factor evs)).0 ≡ length evs)
        × ((summary (classify_all slow_factor evs)).1 ≡ count is_failure evs)
  unfolding summary
  classify_all-totals s evs k = (
    get-classify_all s evs k,
    total-classify_all s (λ r. r.count) (λ _. 1) evs observe-count ∙ total-ones evs,
    total-classify_all s (λ r. r.error_count) _ evs observe-error_count ∙ total-failures evs,
  )
