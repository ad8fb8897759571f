-- ===== src/Package/Tests.antt =====
-- Concrete inputs for the theorems on the output paths, the archives and their files.
use mangarr_gateway.Prelude.{
  Bool, List, [], arith, false, if◌then◌else◌, leb, length, map, nat_beq, none, refl, some, ℕ, ◌%◌,
  ◌&&◌, ◌++◌, ◌+◌, ◌||◌, ◌∷◌, ◌≡◌,
}
use mangarr_gateway.Sanitize.{illegal, IsSafe}
use mangarr_gateway.Package.Text.{Text, text_beq}
use mangarr_gateway.Package.Entry.{entry_name, archive}
use mangarr_gateway.Package.Entry.Order.{IsSorted, archive-IsSorted}
use mangarr_gateway.Package.Path.{
  cbz, format_suffix, compute_output_path, Legal, compute_output_path-IsSafe,
}
use mangarr_gateway.Package.Files.{Directory, write, staging_prefix, staging_suffix, staging_temp}
use mangarr_gateway.Package.Files.Outcome.{WriteOutcome, write_outcome}

abbrev space : ℕ → Bool
space = nat_beq 32

-- Digits and small letters.
abbrev word : ℕ → Bool
word c = leb 48 c && leb c 57 || leb 97 c && leb c 122

-- The lengths of the texts stand in for a hash.
abbrev digest : Text → Text
digest s = (48 + length s % 10) ∷ []

-- "../a", "x" and "yz"
abbrev up : Text
up = 46 ∷ 46 ∷ 47 ∷ 97 ∷ []

digest-Legal : (d : Text) → Legal (digest d)
unfolding illegal
digest-Legal d = (ground arith, tt)

compute_output_path-IsSafe_example :
    IsSafe (compute_output_path space word digest none up cbz (some (120 ∷ [])) (some up)).0
    × IsSafe (compute_output_path space word digest none up cbz (some (120 ∷ [])) (some up)).1
compute_output_path-IsSafe_example =
    compute_output_path-IsSafe space word digest none up cbz (some (120 ∷ [])) (some up)
      digest-Legal

-- The extension of every name is empty.
abbrev no_suffix : Text → Text
no_suffix s = []

-- A JPEG under a name that says otherwise, and an unknown one.
abbrev pages : List (Text × List ℕ)
pages = (up, 255 ∷ 216 ∷ 255 ∷ 1 ∷ []) ∷ (up, 1 ∷ 2 ∷ []) ∷ []

archive-IsSorted_example :
    IsSorted (map (λ e. e.0) (archive no_suffix pages))
    × (map (λ e. e.1) (archive no_suffix pages) ≡ map (λ e. e.1) pages)
archive-IsSorted_example = archive-IsSorted no_suffix pages

first_name :
    entry_name no_suffix 1 up 2 (255 ∷ 216 ∷ 255 ∷ 1 ∷ []) ≡ 48 ∷ 49 ∷ 46 ∷ 106 ∷ 112 ∷ 103 ∷ []
unfolding entry_name
first_name = refl

-- "j-k-7.cbz.tmp", the staging name of the job "k"
abbrev tmp : Text
tmp = staging_prefix (107 ∷ []) ++ 55 ∷ staging_suffix cbz

-- "c.cbz" and "b.cbz"
abbrev final : Text
final = 99 ∷ format_suffix cbz

abbrev output : Text
output = 98 ∷ format_suffix cbz

abbrev old : Directory
old n = if text_beq n final then some (record { is_folder = false; content = [] }) else none

apart : text_beq tmp final ≡ false
unfolding text_beq
apart = refl

fresh : old tmp ≡ none
unfolding text_beq
fresh = refl

write_outcome_example : WriteOutcome cbz final old pages (write cbz tmp final 4 pages old)
write_outcome_example = write_outcome cbz tmp final 4 old pages refl fresh apart

not_staging : staging_temp (109 ∷ []) cbz final ≡ false
unfolding staging_temp
not_staging = refl
