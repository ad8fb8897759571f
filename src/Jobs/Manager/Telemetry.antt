-- ===== src/Jobs/Manager/Telemetry.antt =====
-- `telemetry_items` and `_estimate_bytes_and_eta` of manager.py.
use mangarr_gateway.Prelude.{
  All, Bool, Bool-cases, List, Option, String, [], ap, arith, count, count-map_comp, false,
  if◌then◌else◌, inl, inr, keep, leb, length, ltb, map, min, nat_beq, none, refl, some, suc, sym,
  take, true, zero, ℕ, ◌&&◌, ◌-◌, ◌∙◌, ◌∷◌, ◌≡◌, ◌≤◌,
}
use mangarr_gateway.Prelude.Dict
use mangarr_gateway.Jobs.Model.{
  Job, JobStatus, queued, resolving, downloading, archiving, completed, failed,
}
use mangarr_gateway.Jobs.Manager.{Manager}

-- `_TELEMETRY_TIER`
unfoldable pub tier : JobStatus → ℕ
tier completed = 0
tier failed = 1
tier archiving = 2
tier downloading = 3
tier resolving = 4
tier queued = 5

-- `_TELEMETRY_QUEUE_CAP`
abbrev pub queue_cap : ℕ
queue_cap = 50

-- `sorted` by the tier: stable, so a job stands before the later jobs of its tier.
pub place : Job → List Job → List Job
place j [] = j ∷ []
place j (x ∷ xs) = if leb (tier j.status) (tier x.status) then j ∷ x ∷ xs else x ∷ place j xs

pub by_tier : List Job → List Job
unfolding place
by_tier [] = []
by_tier (j ∷ js) = place j (by_tier js)

pub record Item : Type 0 where
  pub job_id : String
  pub manga_title : Option String
  pub chapter_number : Option String
  pub status : JobStatus

item : Job → Item
item j = record {
  job_id = j.job_id;
  manga_title = j.manga_title;
  chapter_number = j.chapter_number;
  status = j.status;
}

unfoldable pub telemetry_items : Manager → List Item
unfolding by_tier item
telemetry_items m = map item (take queue_cap (by_tier (Dict.values m.projection)))

-- `round` and `/` of Python's floats are outside: `estimate b p t` is `round(b / p * t)`, and
-- `rate` is the ETA that `_eta_seconds` computes from the observed rate.
module _ (estimate : ℕ → ℕ → ℕ → ℕ) (rate : Job → ℕ → Option ℕ) where
  -- `_estimate_bytes_and_eta`, on the page counts
  abbrev live_estimate : Job → ℕ → ℕ → Option (ℕ × ℕ × Option ℕ)
  live_estimate j pages total =
      if ltb 0 pages && (ltb 0 total && ltb 0 j.downloaded_bytes)
      then (let est = estimate j.downloaded_bytes pages total in
          let remaining = est - j.downloaded_bytes in some (est, remaining, rate j remaining))
      else none

  abbrev stored : Job → ℕ × ℕ × Option ℕ
  stored j = (j.total_bytes, j.remaining_bytes, none)

  abbrev in_progress : JobStatus → Bool
  in_progress downloading = true
  in_progress archiving = true
  in_progress _ = false

  abbrev with_pages : Job → Option ℕ → Option ℕ → Option (ℕ × ℕ × Option ℕ)
  with_pages j (some pages) (some total) = live_estimate j pages total
  with_pages j _ _ = none

  abbrev or_stored : Job → Option (ℕ × ℕ × Option ℕ) → ℕ × ℕ × Option ℕ
  or_stored j (some e) = e
  or_stored j none = stored j

  unfoldable pub estimate_bytes_and_eta : Job → ℕ × ℕ × Option ℕ
  estimate_bytes_and_eta j =
      if in_progress j.status
      then or_stored j (with_pages j j.downloaded_pages j.total_pages)
      else stored j

abbrev pub IsSorted : List Job → Type 0
IsSorted [] = Unit
IsSorted (x ∷ xs) = All (λ y. tier x.status ≤ tier y.status) xs × IsSorted xs

All-place :
    (n : ℕ) (j : Job) (xs : List Job)
    → n ≤ tier j.status
    → All (λ y. n ≤ tier y.status) xs
    → All (λ y. n ≤ tier y.status) (place j xs)
unfolding place
All-place n j [] h a = (h, tt)
All-place n j (x ∷ xs) h a = ground (arith, All-place n j xs h a.1)

All-weaken :
    (m n : ℕ) (xs : List Job)
    → n ≤ m
    → All (λ y. m ≤ tier y.status) xs
    → All (λ y. n ≤ tier y.status) xs
All-weaken m n [] h a = tt
All-weaken m n (x ∷ xs) h a = (omega arith, All-weaken m n xs h a.1)

place-IsSorted : (j : Job) (xs : List Job) → IsSorted xs → IsSorted (place j xs)
unfolding place
place-IsSorted j [] s = (tt, tt)
place-IsSorted j (x ∷ xs) s = ground (
  arith,
  place-IsSorted j xs s.1,
  All-place (tier x.status) j xs,
  All-weaken (tier x.status) (tier j.status) xs,
)

pub by_tier-IsSorted : (js : List Job) → IsSorted (by_tier js)
unfolding by_tier
by_tier-IsSorted [] = tt
by_tier-IsSorted (j ∷ js) = place-IsSorted j (by_tier js) (by_tier-IsSorted js)

abbrev pub in_tier : ℕ → Job → Bool
in_tier k j = nat_beq (tier j.status) k

keep-place :
    (k : ℕ) (j : Job) (xs : List Job) → keep (in_tier k) (place j xs) ≡ keep (in_tier k) (j ∷ xs)
unfolding place keep
keep-place k j [] = refl
keep-place k j (x ∷ xs) = ground (arith, keep-place k j xs)

-- The jobs of each tier stay in the order of the projection.
pub by_tier-stable : (k : ℕ) (js : List Job) → keep (in_tier k) (by_tier js) ≡ keep (in_tier k) js
unfolding by_tier keep
by_tier-stable k [] = refl
by_tier-stable k (j ∷ js) = keep-place k j (by_tier js) ∙ ground (arith, by_tier-stable k js)

abbrev active : Job → Bool
active j = ltb (tier j.status) 5

count-place : (p : Job → Bool) (j : Job) (xs : List Job) → count p (place j xs) ≡ count p (j ∷ xs)
unfolding place count
count-place p j [] = refl
count-place p j (x ∷ xs) = ground (arith, count-place p j xs)

count-by_tier : (p : Job → Bool) (js : List Job) → count p (by_tier js) ≡ count p js
unfolding by_tier count
count-by_tier p [] = refl
count-by_tier p (j ∷ js) = count-place p j (by_tier js) ∙ ground (arith, count-by_tier p js)

-- Behind a queued job all are queued.
count-active-zero :
    (xs : List Job) → All (λ y. 5 ≤ tier y.status) xs → (k : ℕ) → count active (take k xs) ≡ 0
unfolding count
count-active-zero [] a zero = refl
count-active-zero [] a (suc k) = refl
count-active-zero (x ∷ xs) a zero = refl
count-active-zero (x ∷ xs) a (suc k) = ground (arith, count-active-zero xs a.1 k)

take_all : (xs : List Job) → take (length xs) xs ≡ xs
take_all [] = refl
take_all (x ∷ xs) = ap (◌∷◌ x) (take_all xs)

count-active-take :
    (k : ℕ) (xs : List Job) → IsSorted xs → count active (take k xs) ≡ min k (count active xs)
unfolding count
count-active-take zero xs s = omega arith
count-active-take (suc k) [] s = omega arith
count-active-take (suc k) (x ∷ xs) s = elim (Bool-cases (active x)) [
  | inl e ↦ rw e (omega (arith, count-active-take k xs s.1))
  | inr e ↦
      let a : All (λ y. 5 ≤ tier y.status) xs =
        All-weaken (tier x.status) 5 xs (ground arith) s.0 in
      let z : count active xs ≡ 0 =
        ap (count active) (sym (take_all xs)) ∙ count-active-zero xs a (length xs) in
      rw e (omega (arith, count-active-zero xs a k, z))
]

-- Of the jobs that are not queued the telemetry shows all, up to the cap: a queued job is dropped
-- before any other.
pub telemetry_items-active :
    (m : Manager)
    → count (λ x. ltb (tier x.status) 5) (telemetry_items m)
      ≡ min queue_cap (count (λ j. ltb (tier j.status) 5) (Dict.values m.projection))
unfolding telemetry_items item
telemetry_items-active m =
    let js = Dict.values m.projection in
    count-map_comp _ item (take queue_cap (by_tier js))
    ∙ count-active-take queue_cap (by_tier js) (by_tier-IsSorted js)
    ∙ ap (min queue_cap) (count-by_tier active js)
