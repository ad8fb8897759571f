-- ===== src/Package/Path.antt =====
-- `compute_output_path` of jobs/package.py. `digest` is the first 8 characters of the hexadecimal
-- SHA-256 of a text.
pub mod Distinct
use mangarr_gateway.Prelude.{
  All, Bool, Bool-cases, Option, Option-cases, [], arith, false, if◌then◌else◌, inl, inr, negsuc,
  none, pos, refl, some, suc, zero, ℕ, ℤ, ◌++◌, ◌∷◌, ◌≡◌, ◌⊎◌,
}
use mangarr_gateway.Sanitize.{
  illegal, dots_only, is_empty, IsSafe, sanitize_filename, sanitize_filename-IsSafe,
  sanitize_filename-cases,
}
use mangarr_gateway.Package.Text.{Text, decimal}

-- "manga-", "unknown", "untitled", ".cbz" and ".cbt"
abbrev pub manga_ : Text
manga_ = 109 ∷ 97 ∷ 110 ∷ 103 ∷ 97 ∷ 45 ∷ []

abbrev pub unknown : Text
unknown = 117 ∷ 110 ∷ 107 ∷ 110 ∷ 111 ∷ 119 ∷ 110 ∷ []

abbrev pub untitled : Text
untitled = 117 ∷ 110 ∷ 116 ∷ 105 ∷ 116 ∷ 108 ∷ 101 ∷ 100 ∷ []

pub data Format : Type 0 where
  cbz cbt folder : Format

-- `_FORMAT_SUFFIX`
abbrev pub format_suffix : Format → Text
format_suffix cbz = 46 ∷ 99 ∷ 98 ∷ 122 ∷ []
format_suffix cbt = 46 ∷ 99 ∷ 98 ∷ 116 ∷ []
format_suffix folder = []

-- `manga_id > 0`, and the id then
abbrev pub usable_id : Option ℤ → Option ℕ
usable_id none = none
usable_id (some (pos zero)) = none
usable_id (some (pos (suc n))) = some (suc n)
usable_id (some (negsuc n)) = none

-- `title_slug or "unknown"`
abbrev pub or_unknown : Text → Text
or_unknown [] = unknown
or_unknown (c ∷ s) = c ∷ s

module _ (is_space is_word : ℕ → Bool) where
  abbrev sanitize : Text → Text → Text
  sanitize = sanitize_filename is_space is_word

  -- The folder below the root: by the id, by the title of the series, or the shared one.
  unfoldable pub output_folder : Option ℤ → Option Text → Text
  unfolding decimal sanitize_filename
  output_folder manga_id manga_title = manga_ ++ elim (usable_id manga_id) [
    | some n ↦ sanitize (decimal n) unknown
    | none ↦ elim manga_title [ some t ↦ or_unknown (sanitize t []) | none ↦ unknown ]
  ]

module _ (is_space is_word : ℕ → Bool) (digest : Text → Text) where
  -- `if not has_id and fallback_discriminator`
  unfoldable pub file_name : Option ℤ → Text → Format → Option Text → Text
  unfolding sanitize_filename
  file_name manga_id title fmt discriminator =
      let name = sanitize_filename is_space is_word title untitled in
      elim (usable_id manga_id) [
        | some n ↦ name ++ format_suffix fmt
        | none ↦ elim discriminator [
          | none ↦ name ++ format_suffix fmt
          | some d ↦
              if is_empty d
              then name ++ format_suffix fmt
              else name ++ 45 ∷ (digest d ++ format_suffix fmt)
        ]
      ]

  unfoldable pub compute_output_path :
      Option ℤ → Text → Format → Option Text → Option Text → Text × Text
  unfolding output_folder file_name
  compute_output_path manga_id title fmt discriminator manga_title = (
    output_folder is_space is_word manga_id manga_title,
    file_name manga_id title fmt discriminator,
  )

abbrev pub Legal : Text → Type 0
Legal = All (λ c. illegal c ≡ false)

Legal-append : (s t : Text) → Legal s → Legal t → Legal (s ++ t)
Legal-append [] t h k = k
Legal-append (c ∷ s) t h k = (h.0, Legal-append s t h.1 k)

append-IsSafe : (s t : Text) → IsSafe s → Legal t → IsSafe (s ++ t)
append-IsSafe s t h k = (Legal-append s t h.0 k, not_dots s h.1)
  where
    not_dots : (u : Text) → dots_only u ≡ false → dots_only (u ++ t) ≡ false
    not_dots [] q = cc
    not_dots (c ∷ u) q = ground (arith, not_dots u)

suffix-Legal : (fmt : Format) → Legal (format_suffix fmt)
unfolding illegal
suffix-Legal cbz = ground arith
suffix-Legal cbt = ground arith
suffix-Legal folder = tt

unknown-IsSafe : IsSafe unknown
unfolding illegal
unknown-IsSafe = ground arith

untitled-IsSafe : IsSafe untitled
unfolding illegal
untitled-IsSafe = ground arith

IsSafe-or_unknown : (s : Text) → (s ≡ []) ⊎ IsSafe s → IsSafe (or_unknown s)
IsSafe-or_unknown [] h = unknown-IsSafe
IsSafe-or_unknown (c ∷ s) (inl h) = cc
IsSafe-or_unknown (c ∷ s) (inr h) = h

IsSafe-manga_ : (s : Text) → IsSafe s → IsSafe (manga_ ++ s)
unfolding illegal
IsSafe-manga_ s h = append-IsSafe manga_ s (ground arith) h.0

module _ (is_space is_word : ℕ → Bool) where
  output_folder-IsSafe :
      (manga_id : Option ℤ) (manga_title : Option Text)
      → IsSafe (output_folder is_space is_word manga_id manga_title)
  unfolding output_folder
  output_folder-IsSafe manga_id manga_title = elim (Option-cases (usable_id manga_id)) [
    | inl e ↦ rw (output_folder, e) (IsSafe-manga_ _ (by_title manga_title))
    | inr (n, e) ↦
        rw (output_folder, e)
          (IsSafe-manga_ _
            (sanitize_filename-IsSafe is_space is_word (decimal n) unknown unknown-IsSafe))
  ]
    where
      by_title :
          (t : Option Text)
          → IsSafe (elim t [
            | some u ↦ or_unknown (sanitize_filename is_space is_word u [])
            | none ↦ unknown
          ])
      by_title none = unknown-IsSafe
      by_title (some t) = IsSafe-or_unknown _ (sanitize_filename-cases is_space is_word t [])

module _ (is_space is_word : ℕ → Bool) (digest : Text → Text) where
  file_name-IsSafe :
      (manga_id : Option ℤ) (title : Text) (fmt : Format) (discriminator : Option Text)
      → ((d : Text) → Legal (digest d))
      → IsSafe (file_name is_space is_word digest manga_id title fmt discriminator)
  unfolding file_name
  file_name-IsSafe manga_id title fmt discriminator hex =
      let name = sanitize_filename is_space is_word title untitled in
      let safe = sanitize_filename-IsSafe is_space is_word title untitled untitled-IsSafe in
      let bare = append-IsSafe name (format_suffix fmt) safe (suffix-Legal fmt) in
      elim (Option-cases (usable_id manga_id)) [
        | inr (n, e) ↦ rw (file_name, e) bare
        | inl e ↦ elim (Option-cases discriminator) [
          | inl none_given ↦ rw (file_name, e, none_given) bare
          | inr (d, given) ↦ elim (Bool-cases (is_empty d)) [
            | inl f ↦ rw (file_name, e, given, f) bare
            | inr f ↦
                rw (file_name, e, given, f)
                  (append-IsSafe name (45 ∷ (digest d ++ format_suffix fmt)) safe (
                    unfold illegal in refl,
                    Legal-append (digest d) (format_suffix fmt) (hex d) (suffix-Legal fmt),
                  ))
          ]
        ]
      ]

  -- Where the digests have no illegal character, the folder and the file of an output path are safe
  -- path components, whatever the id and the titles are: the path is two levels below the root.
  pub compute_output_path-IsSafe :
      (manga_id : Option ℤ) (title : Text) (fmt : Format) (discriminator manga_title : Option Text)
      → ((d : Text) → Legal (digest d))
      → IsSafe
          (compute_output_path is_space is_word digest manga_id title fmt discriminator
            manga_title).0
        × IsSafe
            (compute_output_path is_space is_word digest manga_id title fmt discriminator
              manga_title).1
  unfolding compute_output_path
  compute_output_path-IsSafe manga_id title fmt discriminator manga_title hex = (
    output_folder-IsSafe is_space is_word manga_id manga_title,
    file_name-IsSafe manga_id title fmt discriminator hex,
  )
