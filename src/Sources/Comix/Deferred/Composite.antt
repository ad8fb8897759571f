-- ===== src/Sources/Comix/Deferred/Composite.antt =====
-- Composite ids and their segments.
use mangarr_gateway.Prelude.{List, [], any, arith, false, nat_beq, refl, ◌++◌, ◌∙◌, ◌∷◌, ◌≡◌}
use mangarr_gateway.Package.Text.{Text}
use mangarr_gateway.Sources.Comix.Deferred.{
  separator, ok, join, push, split, is_empty, make_composite_chapter_id, parse_composite_chapter_id,
}

-- Without the separator, and not empty.
abbrev pub IsSegment : Text → Type 0
IsSegment t = (is_empty t ≡ false) × (any (λ c. nat_beq c separator) t ≡ false)

-- A text without the separator is put before the first part.
prepend : Text → List Text → List Text
prepend [] parts = parts
prepend (c ∷ cs) parts = push c (prepend cs parts)

split-append :
    (t rest : Text)
    → any (λ c. nat_beq c separator) t ≡ false
    → split (t ++ rest) ≡ prepend t (split rest)
unfolding split prepend
split-append [] rest h = refl
split-append (c ∷ t) rest h =
    let first : nat_beq c separator ≡ false = ground arith in
    rw (split-append t rest (ground arith)) ground (arith, first)

prepend-nil : (t : Text) (parts : List Text) → prepend t ([] ∷ parts) ≡ t ∷ parts
unfolding prepend
prepend-nil [] parts = refl
prepend-nil (c ∷ t) parts = rw (prepend-nil t parts) refl

split-segment :
    (t rest : Text)
    → any (λ c. nat_beq c separator) t ≡ false
    → split (t ++ separator ∷ rest) ≡ t ∷ split rest
unfolding split
split-segment t rest h = split-append t (separator ∷ rest) h ∙ prepend-nil t (split rest)

split-last : (t : Text) → any (λ c. nat_beq c separator) t ≡ false → split t ≡ t ∷ []
unfolding split
split-last [] h = refl
split-last (c ∷ t) h =
    let first : nat_beq c separator ≡ false = ground arith in
    rw (split-last t (ground arith)) ground (arith, first)

-- Of four segments that are not empty and have no separator, the composite id is read back as
-- these segments.
pub parse_composite_chapter_id-make :
    (a b c d : Text)
    → IsSegment a
    → IsSegment b
    → IsSegment c
    → IsSegment d
    → parse_composite_chapter_id (make_composite_chapter_id a b c d) ≡ ok (a, b, c, d)
unfolding parse_composite_chapter_id make_composite_chapter_id join
parse_composite_chapter_id-make a b c d ha hb hc hd =
    rw
      (
        split-segment a (b ++ separator ∷ (c ++ separator ∷ d)) ha.1,
        split-segment b (c ++ separator ∷ d) hb.1,
        split-segment c d hc.1,
        split-last d hd.1,
      )
      (ground (arith, ha.0, hb.0, hc.0, hd.0))
