-- ===== src/Package/Entry.antt =====
-- `_sniff_ext` and `_entry_name` of jobs/package.py, and the loop over the pages of its writers.
pub mod Order
use mangarr_gateway.Prelude.{
  Bool, List, Option, [], false, if◌then◌else◌, length, max, none, some, suc, true, zero, ℕ, ◌&&◌,
  ◌+◌, ◌||◌, ◌∷◌,
}
use mangarr_gateway.Package.Text.{Text, text_beq, after_prefix, digits, spell, padded}

abbrev starts_with : Text → Text → Bool
starts_with prefix s = elim (after_prefix prefix s) [ none ↦ false | some _ ↦ true ]

-- `content[i:j]`
unfoldable pub slice : ℕ → ℕ → Text → Text
slice i zero s = []
slice zero (suc j) [] = []
slice zero (suc j) (c ∷ s) = c ∷ slice zero j s
slice (suc i) (suc j) [] = []
slice (suc i) (suc j) (c ∷ s) = slice i j s

abbrev jpg : Text
jpg = 46 ∷ 106 ∷ 112 ∷ 103 ∷ []

abbrev png : Text
png = 46 ∷ 112 ∷ 110 ∷ 103 ∷ []

abbrev gif : Text
gif = 46 ∷ 103 ∷ 105 ∷ 102 ∷ []

abbrev webp : Text
webp = 46 ∷ 119 ∷ 101 ∷ 98 ∷ 112 ∷ []

abbrev avif : Text
avif = 46 ∷ 97 ∷ 118 ∷ 105 ∷ 102 ∷ []

abbrev jxl : Text
jxl = 46 ∷ 106 ∷ 120 ∷ 108 ∷ []

-- `_sniff_ext`: the extension that the first bytes imply.
unfoldable pub sniff_ext : List ℕ → Option Text
unfolding after_prefix slice text_beq
sniff_ext content =
    if starts_with (255 ∷ 216 ∷ 255 ∷ []) content
    then some jpg
    else if starts_with (137 ∷ 80 ∷ 78 ∷ 71 ∷ 13 ∷ 10 ∷ 26 ∷ 10 ∷ []) content
    then some png
    else if starts_with (71 ∷ 73 ∷ 70 ∷ 56 ∷ []) content
    then some gif
    else if text_beq (slice 0 4 content) (82 ∷ 73 ∷ 70 ∷ 70 ∷ [])
        && text_beq (slice 8 12 content) (87 ∷ 69 ∷ 66 ∷ 80 ∷ [])
    then some webp
    else if text_beq (slice 4 12 content) (102 ∷ 116 ∷ 121 ∷ 112 ∷ 97 ∷ 118 ∷ 105 ∷ 102 ∷ [])
        || text_beq (slice 4 12 content) (102 ∷ 116 ∷ 121 ∷ 112 ∷ 97 ∷ 118 ∷ 105 ∷ 115 ∷ [])
    then some avif
    else if starts_with (255 ∷ 10 ∷ []) content
        || starts_with (0 ∷ 0 ∷ 0 ∷ 12 ∷ 74 ∷ 88 ∷ 76 ∷ 32 ∷ []) content
    then some jxl
    else none

-- `Path(original).suffix or _DEFAULT_EXT`
abbrev or_default : Text → Text
or_default [] = jpg
or_default (c ∷ s) = c ∷ s

-- `max(2, len(str(len(pages))))`
unfoldable pub entry_width : ℕ → ℕ
unfolding digits
entry_width n = max 2 (length (digits (suc n) n))

-- `path_suffix` is pathlib's.
module _ (path_suffix : Text → Text) where
  unfoldable pub entry_name : ℕ → Text → ℕ → List ℕ → Text
  unfolding sniff_ext spell padded
  entry_name index original width content =
      spell (padded width index)
        (elim (sniff_ext content) [ some ext ↦ ext | none ↦ or_default (path_suffix original) ])

  -- `for i, (original, content) in enumerate(pages, start=index)`
  unfoldable pub entries : ℕ → ℕ → List (Text × List ℕ) → List (Text × List ℕ)
  unfolding entry_name
  entries width index [] = []
  entries width index (page ∷ pages) =
      (entry_name index page.0 width page.1, page.1) ∷ entries width (index + 1) pages

  unfoldable pub archive : List (Text × List ℕ) → List (Text × List ℕ)
  unfolding entries entry_width
  archive pages = entries (entry_width (length pages)) 1 pages
