-- ===== src/Sources/Comix/Deferred/Picked.antt =====
-- The row that `_resolve_deferred` takes.
use mangarr_gateway.Prelude.{
  All, Bool, Bool-cases, In, In-keep, List, Option, Option-cases, [], ap, arith, false,
  if◌then◌else◌, inl, inr, keep, none, refl, some, subst, sym, true, ℕ, ◌∷◌, ◌≡◌, ◌⊎◌,
}
use mangarr_gateway.Package.Text.{Text}
use mangarr_gateway.Sources.Comix.Deferred.{
  Outcome, ok, value_error, deferred_resolution_error, is_empty, ChapterRow, key_lt,
  pick_among_duplicates, has_number, chosen_id, resolve_deferred,
}

module _ (id_lt : Option Text → Option Text → Bool) where
  -- The order of Python on the keys of ids.
  pub record IsOrder : Type 0 where
    pub irreflexive : (a : Option Text) → id_lt a a ≡ false
    pub transitive : (a b c : Option Text) → id_lt a b ≡ true → id_lt b c ≡ true → id_lt a c ≡ true

  key_lt_trans :
      IsOrder
      → (r s t : ChapterRow) → key_lt id_lt r s ≡ true
      → key_lt id_lt s t ≡ true
      → key_lt id_lt r t ≡ true
  unfolding key_lt
  key_lt_trans o r s t h k = ground (arith, h, k, o.transitive r.id s.id t.id)

  abbrev pub Preferred : ChapterRow → List ChapterRow → Type 0
  Preferred r = All (λ s. key_lt id_lt s r ≡ false)

  Preferred-less :
      (o : IsOrder) (r s : ChapterRow) (rows : List ChapterRow)
      → key_lt id_lt s r ≡ true
      → Preferred r rows
      → Preferred s rows
  Preferred-less o r s [] h a = tt
  Preferred-less o r s (x ∷ rows) h a =
      (ground (arith, a.0, h, key_lt_trans o x s r), Preferred-less o r s rows h a.1)

  key_lt_irrefl : IsOrder → (r : ChapterRow) → key_lt id_lt r r ≡ false
  unfolding key_lt
  key_lt_irrefl o r = ground (arith, o.irreflexive r.id)

  -- What holds of the chosen row, over those seen before and those left.
  abbrev Picks : List ChapterRow → List ChapterRow → ChapterRow → Type 0
  Picks seen rows chosen = Preferred chosen seen × Preferred chosen rows × In chosen rows

  pick-Preferred :
      (o : IsOrder) (r : ChapterRow) (rows seen : List ChapterRow)
      → Preferred r seen
      → Picks seen (r ∷ rows) (pick_among_duplicates id_lt r rows)
  unfolding pick_among_duplicates
  pick-Preferred o r [] seen a = (a, (key_lt_irrefl o r, tt), inl refl)
  pick-Preferred o r (s ∷ rows) seen a = elim (Bool-cases (key_lt id_lt s r)) [
    | inl e ↦
        let step : pick_among_duplicates id_lt r (s ∷ rows) ≡ pick_among_duplicates id_lt s rows =
          ap (λ b. pick_among_duplicates id_lt (if b then s else r) rows) e in
        let less = Preferred-less o r s seen e a in
        let older : key_lt id_lt r s ≡ false =
          ground (arith, e, key_lt_trans o r s r, key_lt_irrefl o r) in
        let (before, after, among) = pick-Preferred o s rows (r ∷ seen) (older, less) in
        subst (Picks seen (r ∷ s ∷ rows)) (sym step) (before.1, (before.0, after), inr among)
    | inr e ↦
        let step : pick_among_duplicates id_lt r (s ∷ rows) ≡ pick_among_duplicates id_lt r rows =
          ap (λ b. pick_among_duplicates id_lt (if b then s else r) rows) e in
        let (before, after, among) = pick-Preferred o r rows (s ∷ seen) (e, a) in
        subst (Picks seen (r ∷ s ∷ rows)) (sym step) (
          before.1,
          (after.0, (before.0, after.1)),
          elim among [ inl f ↦ inl f | inr f ↦ inr (inr f) ],
        )
  ]

abbrev pub is_unnamed : ChapterRow → Bool
is_unnamed r = elim r.id [ none ↦ true | some i ↦ is_empty i ]

module _ (id_lt : Option Text → Option Text → Bool) (parse_decimal : Text → Option ℕ) where
  -- A row that none is preferred to.
  abbrev pub IsFirst : List ChapterRow → ChapterRow → Type 0
  IsFirst rows r = In r rows × Preferred id_lt r rows

  abbrev Chooses : List ChapterRow → Outcome Text → Type 0
  Chooses rows (ok i) = (r : ChapterRow) × IsFirst rows r × (r.id ≡ some i) × (is_empty i ≡ false)
  Chooses rows value_error = ⊥
  Chooses rows deferred_resolution_error =
      (rows ≡ []) ⊎ ((r : ChapterRow) × IsFirst rows r × (is_unnamed r ≡ true))

  chosen_id-Chooses :
      (rows : List ChapterRow) → IsOrder id_lt → Chooses rows (chosen_id id_lt parse_decimal rows)
  chosen_id-Chooses [] o = inl refl
  chosen_id-Chooses (r ∷ rows) o =
      let chosen = pick_among_duplicates id_lt r rows in
      let (before, preferred, among) = pick-Preferred id_lt o r rows [] tt in
      elim (Option-cases chosen.id) [
        | inl e ↦
            let k : chosen_id id_lt parse_decimal (r ∷ rows) ≡ deferred_resolution_error =
              ground (arith, e) in
            subst (Chooses (r ∷ rows)) (sym k) (inr (chosen, (among, preferred), ground (arith, e)))
        | inr (i, e) ↦ elim (Bool-cases (is_empty i)) [
          | inl y ↦
              let k : chosen_id id_lt parse_decimal (r ∷ rows) ≡ deferred_resolution_error =
                ground (arith, e, y) in
              subst (Chooses (r ∷ rows)) (sym k)
                (inr (chosen, (among, preferred), ground (arith, e, y)))
          | inr n ↦
              let k : chosen_id id_lt parse_decimal (r ∷ rows) ≡ ok i = ground (arith, e, n) in
              subst (Chooses (r ∷ rows)) (sym k) (chosen, (among, preferred), e, n)
        ]
      ]

  -- What an outcome says of the rows of the series page.
  abbrev pub Resolves : Text → List ChapterRow → Outcome Text → Type 0
  Resolves number rows (ok i) =
      (target : ℕ) × (r : ChapterRow) × (parse_decimal number ≡ some target)
      × In r rows
      × (has_number parse_decimal target r ≡ true)
      × Preferred id_lt r (keep (has_number parse_decimal target) rows)
      × (r.id ≡ some i)
      × (is_empty i ≡ false)
  Resolves number rows value_error = parse_decimal number ≡ none
  Resolves number rows deferred_resolution_error =
      (target : ℕ) × (parse_decimal number ≡ some target)
      × ((keep (has_number parse_decimal target) rows ≡ [])
          ⊎ ((r : ChapterRow) × IsFirst (keep (has_number parse_decimal target) rows) r
              × (is_unnamed r ≡ true)))

  Chooses-Resolves :
      (number : Text) (target : ℕ) (rows : List ChapterRow) (o : Outcome Text)
      → parse_decimal number ≡ some target
      → Chooses (keep (has_number parse_decimal target) rows) o
      → Resolves number rows o
  Chooses-Resolves number target rows (ok i) e (r, (among, preferred), named, whole) =
      let (inside, number_of) = In-keep (has_number parse_decimal target) r rows among in
      (target, r, e, inside, number_of, preferred, named, whole)
  Chooses-Resolves number target rows value_error e c = elim c [ ]
  Chooses-Resolves number target rows deferred_resolution_error e c = (target, e, c)

  -- For an order of the ids: if a chapter is resolved then to the id, not empty, of a row of the
  -- series page that has the chapter's number, and no row with this number is before it by age,
  -- groups and id. A ValueError means that the number is no decimal, and the other error that no
  -- row has it, or that the row which no other is before has no id.
  pub resolve_deferred-Resolves :
      (number : Text) (rows : List ChapterRow)
      → IsOrder id_lt
      → Resolves number rows (resolve_deferred id_lt parse_decimal number rows)
  unfolding resolve_deferred
  resolve_deferred-Resolves number rows o = elim (Option-cases (parse_decimal number)) [
    | inl e ↦
        let k : resolve_deferred id_lt parse_decimal number rows ≡ value_error =
          ground (arith, e) in
        subst (Resolves number rows) (sym k) e
    | inr (target, e) ↦
        let matches = keep (has_number parse_decimal target) rows in
        let k : resolve_deferred id_lt parse_decimal number rows
            ≡ chosen_id id_lt parse_decimal matches =
          ground (arith, e) in
        subst (Resolves number rows) (sym k) (
          Chooses-Resolves number target rows (chosen_id id_lt parse_decimal matches) e
            (chosen_id-Chooses matches o))
  ]
