-- ===== src/Sources/Comix/Deferred.antt =====
-- The composite chapter ids of src/manga_gateway/sources/comix.py and the late binding of those that
-- the recent feed mints: `_make_composite_chapter_id`, `_parse_composite_chapter_id`,
-- `_make_deferred_composite`, `_pick_among_duplicates`, `_resolve_deferred`. A text is its code
-- points. The parsing of decimals, of relative times and of ids is a parameter.
pub mod Composite
pub mod Picked
use mangarr_gateway.Prelude.{
  Bool, List, Option, [], false, if◌then◌else◌, keep, ltb, nat_beq, none, not, some, true, ℕ, ◌&&◌,
  ◌++◌, ◌||◌, ◌∷◌,
}
use mangarr_gateway.Package.Text.{Text}

-- `_CID_SEP`
abbrev pub separator : ℕ
separator = 124

-- `_DEFERRED_SENTINEL`: "DEFERRED"
abbrev pub deferred : Text
deferred = 68 ∷ 69 ∷ 70 ∷ 69 ∷ 82 ∷ 82 ∷ 69 ∷ 68 ∷ []

pub data Outcome {ℓ} (A : Type ℓ) : Type ℓ where
  ok : A → Outcome A
  value_error : Outcome A
  deferred_resolution_error : Outcome A

-- `_CID_SEP.join(parts)`
unfoldable pub join : List Text → Text
join [] = []
join (p ∷ []) = p
join (p ∷ q ∷ ps) = p ++ separator ∷ join (q ∷ ps)

-- The head of a split takes one more character.
abbrev pub push : ℕ → List Text → List Text
push c [] = (c ∷ []) ∷ []
push c (p ∷ ps) = (c ∷ p) ∷ ps

-- `composite.split(_CID_SEP)`
unfoldable pub split : Text → List Text
split [] = [] ∷ []
split (c ∷ cs) = let rest = split cs in if nat_beq c separator then [] ∷ rest else push c rest

abbrev pub is_empty : Text → Bool
is_empty [] = true
is_empty (_ ∷ _) = false

abbrev pub Segments : Type 0
Segments = Text × Text × Text × Text

unfoldable pub make_composite_chapter_id : Text → Text → Text → Text → Text
unfolding join
make_composite_chapter_id numeric_id hid slug number = join (numeric_id ∷ hid ∷ slug ∷ number ∷ [])

abbrev pub four_parts : List Text → Outcome Segments
four_parts (a ∷ b ∷ c ∷ d ∷ []) =
    if (is_empty a || is_empty b) || (is_empty c || is_empty d)
    then value_error
    else ok (a, b, c, d)
four_parts parts = value_error

unfoldable pub parse_composite_chapter_id : Text → Outcome Segments
unfolding split
parse_composite_chapter_id composite = four_parts (split composite)

unfoldable pub make_deferred_composite : Text → Text → Text → Outcome Text
unfolding make_composite_chapter_id
make_deferred_composite hid slug number =
    if is_empty hid || (is_empty slug || is_empty number)
    then value_error
    else ok (make_composite_chapter_id deferred hid slug number)

-- A row of the series page. `chapter` is `row.get("chapter") or row.get("number")`; `relative` is
-- `_relative_seconds` of the row's time.
pub record ChapterRow : Type 0 where
  pub id : Option Text
  pub chapter : Text
  pub relative : Option ℕ
  pub has_groups : Bool

abbrev pub age : ChapterRow → ℕ
age r = elim r.relative [ some s ↦ s | none ↦ 1000000000000 ]

-- `id_lt` is the order of `_id_sort_key`.
module _ (id_lt : Option Text → Option Text → Bool) where
  -- The order of the keys of `_pick_among_duplicates`.
  unfoldable pub key_lt : ChapterRow → ChapterRow → Bool
  key_lt r s =
      ltb (age r) (age s)
      || (nat_beq (age r) (age s)
          && ((r.has_groups && not s.has_groups)
              || (not (r.has_groups && not s.has_groups)
                  && not (s.has_groups && not r.has_groups)
                  && id_lt r.id s.id)))

  -- `min(rows, key=...)` on r and the rows after it.
  unfoldable pub pick_among_duplicates : ChapterRow → List ChapterRow → ChapterRow
  unfolding key_lt
  pick_among_duplicates r [] = r
  pick_among_duplicates r (s ∷ rows) = pick_among_duplicates (if key_lt s r then s else r) rows

-- Decimals are compared by their number, none where the text is not one.
abbrev pub has_number : (Text → Option ℕ) → ℕ → ChapterRow → Bool
has_number parse_decimal target r = elim (parse_decimal r.chapter) [
  | none ↦ false
  | some n ↦ nat_beq n target
]

module _ (id_lt : Option Text → Option Text → Bool) (parse_decimal : Text → Option ℕ) where
  abbrev pub chosen_id : List ChapterRow → Outcome Text
  chosen_id [] = deferred_resolution_error
  chosen_id (r ∷ rows) = elim (pick_among_duplicates id_lt r rows).id [
    | none ↦ deferred_resolution_error
    | some i ↦ if is_empty i then deferred_resolution_error else ok i
  ]

  unfoldable pub resolve_deferred : Text → List ChapterRow → Outcome Text
  unfolding pick_among_duplicates
  resolve_deferred number rows = elim (parse_decimal number) [
    | none ↦ value_error
    | some target ↦ chosen_id (keep (has_number parse_decimal target) rows)
  ]
