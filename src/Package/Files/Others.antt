-- ===== src/Package/Files/Others.antt =====
-- The writers and `_unlink_job_files` of different jobs in one directory.
use mangarr_gateway.Prelude.{
  List, Option-cases, [], ap, arith, false, inl, inr, length, none, refl, some, true, ◌++◌, ◌∙◌,
  ◌∷◌, ◌≡◌, ◌≢◌,
}
use mangarr_gateway.Package.Text.{
  Text, after_prefix, text_beq, text_beq_iff, ends_with, after_prefix_unique,
}
use mangarr_gateway.Package.Path.{Format}
use mangarr_gateway.Package.Files.{
  Directory, FileOp, make, add, clear, publish, execute, execute_all, staging_prefix, staging_temp,
  staging_suffix, unlink_job_files,
}
use mathlib.Core.List.{append_assoc}

-- The directories agree on the two names that a writer uses.
abbrev Same : Text → Text → Directory → Directory → Type 0
Same tmp final c d = (c tmp ≡ d tmp) × (c final ≡ d final)

module _ (fmt : Format) (tmp final : Text) where
  execute-Same :
      (op : FileOp) (c d : Directory)
      → Same tmp final c d
      → Same tmp final (execute fmt tmp final op c) (execute fmt tmp final op d)
  unfolding execute
  execute-Same make c d h = (ground (arith, h.0), ground (arith, h.1))
  execute-Same (add e) c d h = (ground (arith, h.0), ground (arith, h.0, h.1))
  execute-Same clear c d h = (ground (arith, h.0), ground (arith, h.1))
  execute-Same publish c d h = (ground (arith, h.0), ground (arith, h.0))

  execute_all-Same :
      (ops : List FileOp) (c d : Directory)
      → Same tmp final c d
      → Same tmp final (execute_all fmt tmp final ops c) (execute_all fmt tmp final ops d)
  unfolding execute_all
  execute_all-Same [] c d h = h
  execute_all-Same (op ∷ ops) c d h =
      execute_all-Same ops (execute fmt tmp final op c) (execute fmt tmp final op d)
        (execute-Same op c d h)

-- A staging name of one job is not in the glob of another, whose id has the same length.
staging_temp-other :
    (a b rest : Text) (fmt : Format)
    → length a ≡ length b
    → a ≢ b
    → staging_temp a fmt (staging_prefix b ++ rest) ≡ false
unfolding staging_temp after_prefix
staging_temp-other a b rest fmt l apart =
    let s = (b ++ 45 ∷ []) ++ rest in
    elim (Option-cases (after_prefix (a ++ 45 ∷ []) s)) [
      | inl e ↦ rw (staging_temp, e) refl
      | inr (r, e) ↦
          absurd
            (apart (after_prefix_unique a b s 45 r (45 ∷ rest) l e (append_assoc b (45 ∷ []) rest)))
    ]

-- A writer of one job, at any point of which the files of another job are unlinked, leaves under
-- its final name what it leaves without this, where the ids have one length and the final name is
-- neither the output of the other job nor in its glob.
pub execute_all-unlink_job_files :
    (fmt gmt : Format) (a b rest output final : Text) (ops : List FileOp) (d : Directory)
    → length a ≡ length b
    → a ≢ b
    → text_beq output final ≡ false
    → text_beq output (staging_prefix b ++ rest) ≡ false
    → staging_temp a gmt final ≡ false
    → execute_all fmt
        (staging_prefix b ++ rest)
        final
        ops
        (unlink_job_files (some output) a gmt d)
        final
      ≡ execute_all fmt (staging_prefix b ++ rest) final ops d final
unfolding unlink_job_files
execute_all-unlink_job_files fmt gmt a b rest output final ops d l apart f t g =
    let tmp = staging_prefix b ++ rest in
    (execute_all-Same fmt tmp final ops (unlink_job_files (some output) a gmt d) d
      (rw (t, staging_temp-other a b rest gmt l apart) refl, rw (f, g) refl)).1

ends_with_refl : (s : Text) → ends_with s s ≡ true
unfolding ends_with
ends_with_refl [] = refl
ends_with_refl (c ∷ s) = ground (arith, text_beq_iff (c ∷ s) (c ∷ s))

ends_with-append : (r s : Text) → ends_with s (r ++ s) ≡ true
unfolding ends_with
ends_with-append [] s = ends_with_refl s
ends_with-append (c ∷ r) s = ground (arith, ends_with-append r s)

after_prefix-append : (p s : Text) → after_prefix p (p ++ s) ≡ some s
unfolding after_prefix
after_prefix-append [] s = refl
after_prefix-append (c ∷ p) s = ground (arith, after_prefix-append p s)

staging_temp-own :
    (job_id r : Text) (fmt : Format)
    → staging_temp job_id fmt (staging_prefix job_id ++ r ++ staging_suffix fmt) ≡ true
unfolding staging_temp
staging_temp-own job_id r fmt =
    let after : after_prefix (staging_prefix job_id)
          (staging_prefix job_id ++ r ++ staging_suffix fmt)
        ≡ some (r ++ staging_suffix fmt) =
      ap (after_prefix (staging_prefix job_id))
        (append_assoc (staging_prefix job_id) r (staging_suffix fmt))
      ∙ after_prefix-append (staging_prefix job_id) (r ++ staging_suffix fmt) in
    ground (arith, after, ends_with-append r (staging_suffix fmt))

-- `_unlink_job_files` removes the output of the job and every staging name of its own and of its
-- format, and no name that does not start with its own staging prefix.
pub unlink_job_files_own :
    (output job_id r : Text) (fmt : Format) (d : Directory) (name : Text)
    → text_beq output name ≡ false
    → after_prefix (staging_prefix job_id) name ≡ none
    → (unlink_job_files (some output) job_id fmt d output ≡ none)
      × (unlink_job_files
            (some output)
            job_id
            fmt
            d
            (staging_prefix job_id ++ r ++ staging_suffix fmt)
          ≡ none)
      × (unlink_job_files (some output) job_id fmt d name ≡ d name)
unfolding unlink_job_files
unlink_job_files_own output job_id r fmt d name other apart = (
  ground (arith, text_beq_iff output output),
  ground (arith, staging_temp-own job_id r fmt),
  rw (other, staging_temp, apart) refl,
)
