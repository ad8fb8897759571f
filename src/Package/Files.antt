-- ===== src/Package/Files.antt =====
-- The writers of jobs/package.py, `staging_temp_glob`, and `_unlink_job_files` of jobs/manager.py, on
-- the directory of the output path. An operation on a file either takes place or raises.
pub mod Atomic
pub mod Outcome
pub mod Others
use mangarr_gateway.Prelude.{
  Bool, List, Option, [], false, if◌then◌else◌, none, some, suc, true, zero, ℕ, ◌++◌, ◌||◌, ◌∷◌,
}
use mangarr_gateway.Package.Text.{Text, text_beq, after_prefix, ends_with}
use mangarr_gateway.Package.Path.{Format, cbz, cbt, folder}

-- An archive, or a folder of pages, as far as it is written.
pub record Node : Type 0 where
  pub is_folder : Bool
  pub content : List (Text × List ℕ)

-- The names of a directory.
abbrev pub Directory : Type 0
Directory = Text → Option Node

abbrev pub set : Text → Option Node → Directory → Directory
set name o d n = if text_beq name n then o else d n

abbrev pub is_folder_format : Format → Bool
is_folder_format cbz = false
is_folder_format cbt = false
is_folder_format folder = true

-- The steps of a writer: `mkstemp` or `mkdtemp`, an entry, `shutil.rmtree` of an old folder, and
-- `os.replace`.
pub data FileOp : Type 0 where
  make : FileOp
  add : Text × List ℕ → FileOp
  clear : FileOp
  publish : FileOp

abbrev pub extend : Text × List ℕ → Option Node → Option Node
extend e none = none
extend e (some node) = some (record node { content = node.content ++ e ∷ [] })

unfoldable pub execute : Format → Text → Text → FileOp → Directory → Directory
unfolding text_beq
execute fmt tmp final make d =
    set tmp (some (record { is_folder = is_folder_format fmt; content = [] })) d
execute fmt tmp final (add e) d = set tmp (extend e (d tmp)) d
execute fmt tmp final clear d = set final none d
execute fmt tmp final publish d = set final (d tmp) (set tmp none d)

-- The end of `write_cbz` and `write_cbt`, and that of `write_folder`.
abbrev pub last_ops : Format → List FileOp
last_ops cbz = publish ∷ []
last_ops cbt = publish ∷ []
last_ops folder = clear ∷ publish ∷ []

abbrev pub adds : List (Text × List ℕ) → List FileOp → List FileOp
adds [] rest = rest
adds (e ∷ es) rest = add e ∷ adds es rest

unfoldable pub write_ops : Format → List (Text × List ℕ) → List FileOp
write_ops fmt entries = make ∷ adds entries (last_ops fmt)

module _ (fmt : Format) (tmp final : Text) where
  unfoldable pub execute_all : List FileOp → Directory → Directory
  unfolding execute
  execute_all [] d = d
  execute_all (op ∷ ops) d = execute_all ops (execute fmt tmp final op d)

  -- `k` operations take place and the next one raises, if there is one.
  unfoldable pub attempt : ℕ → List FileOp → Directory → Bool × Directory
  unfolding execute
  attempt k [] d = (true, d)
  attempt zero (op ∷ ops) d = (false, d)
  attempt (suc k) (op ∷ ops) d = attempt k ops (execute fmt tmp final op d)

  -- The writer: on an exception the staging name is removed. The result says whether it returned.
  unfoldable pub write : ℕ → List (Text × List ℕ) → Directory → Bool × Directory
  unfolding attempt write_ops
  write k entries d =
      let (done, d') = attempt k (write_ops fmt entries) d in
      if done then (true, d') else (false, set tmp none d')

-- `_staging_prefix`: "j-", the id and "-"
abbrev pub staging_prefix : Text → Text
staging_prefix job_id = 106 ∷ 45 ∷ (job_id ++ 45 ∷ [])

-- `_STAGING_SUFFIX`
abbrev pub staging_suffix : Format → Text
staging_suffix cbz = 46 ∷ 99 ∷ 98 ∷ 122 ∷ 46 ∷ 116 ∷ 109 ∷ 112 ∷ []
staging_suffix cbt = 46 ∷ 99 ∷ 98 ∷ 116 ∷ 46 ∷ 116 ∷ 109 ∷ 112 ∷ []
staging_suffix folder = 46 ∷ 102 ∷ 111 ∷ 108 ∷ 100 ∷ 101 ∷ 114 ∷ 46 ∷ 116 ∷ 109 ∷ 112 ∷ []

-- `staging_temp_glob`, for an id without glob characters
unfoldable pub staging_temp : Text → Format → Text → Bool
unfolding after_prefix ends_with
staging_temp job_id fmt name = elim (after_prefix (staging_prefix job_id) name) [
  | none ↦ false
  | some rest ↦ ends_with (staging_suffix fmt) rest
]

-- `_unlink_job_files` of a job whose `output_path` has the name `output`
unfoldable pub unlink_job_files : Option Text → Text → Format → Directory → Directory
unfolding staging_temp text_beq
unlink_job_files none job_id fmt d name = d name
unlink_job_files (some output) job_id fmt d name =
    if text_beq output name || staging_temp job_id fmt name then none else d name
