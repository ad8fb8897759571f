-- ===== src/Package/Files/Atomic.antt =====
-- What the directory holds while a writer runs, and after it.
use mathlib.Core.List.{append-nil, append_assoc}
use mangarr_gateway.Prelude.{
  List, [], arith, false, inl, inr, none, refl, some, suc, sym, zero, ℕ, ◌++◌, ◌∙◌, ◌∷◌, ◌≡◌, ◌⊎◌,
}
use mangarr_gateway.Package.Text.{Text, text_beq, text_beq_iff}
use mangarr_gateway.Package.Path.{Format, folder, cbz, cbt}
use mangarr_gateway.Package.Files.{
  Node, Directory, is_folder_format, FileOp, make, add, execute, last_ops, clear, publish, adds,
  write_ops, attempt,
}

-- The property holds at the start and after each operation.
abbrev pub Throughout {κ} :
    Format → Text → Text → (Directory → Type κ) → List FileOp → Directory → Type κ
Throughout fmt tmp final P [] d = P d
Throughout fmt tmp final P (op ∷ ops) d =
    P d × Throughout fmt tmp final P ops (execute fmt tmp final op d)

-- The node that a writer publishes.
abbrev pub complete : Format → List (Text × List ℕ) → Node
complete fmt entries = record { is_folder = is_folder_format fmt; content = entries }

module _ (fmt : Format) (tmp final : Text) (old : Directory) (entries : List (Text × List ℕ)) where
  -- Under the final name is what was there, or the whole archive; while a folder is replaced it may
  -- be missing. All names but this and the staging name are as before.
  pub record IsUnharmed (d : Directory) : Type 0 where
    pub final_name :
        (d final ≡ old final)
        ⊎ ((fmt ≡ folder) × (d final ≡ none))
        ⊎ (d final ≡ some (complete fmt entries))
    pub other_names : (n : Text) → text_beq tmp n ≡ false → text_beq final n ≡ false → d n ≡ old n

  -- The staging name holds what is written, and all others are as before.
  abbrev pub IsStaged : List (Text × List ℕ) → Directory → Type 0
  IsStaged xs d =
      (d tmp ≡ some (complete fmt xs)) × ((n : Text) → text_beq tmp n ≡ false → d n ≡ old n)

  module _ (apart : text_beq tmp final ≡ false) where
    IsStaged-IsUnharmed : (xs : List (Text × List ℕ)) (d : Directory) → IsStaged xs d → IsUnharmed d
    IsStaged-IsUnharmed xs d h = record {
      final_name = inl (h.1 final apart);
      other_names = λ n p q. h.1 n p;
    }

    pub make-IsStaged : IsStaged [] (execute fmt tmp final make old)
    unfolding execute
    make-IsStaged = (ground (arith, text_beq_iff tmp tmp), λ n p. ground arith)

    pub add-IsStaged :
        (xs : List (Text × List ℕ)) (e : Text × List ℕ) (d : Directory)
        → IsStaged xs d
        → IsStaged (xs ++ e ∷ []) (execute fmt tmp final (add e) d)
    unfolding execute
    add-IsStaged xs e d h =
        (ground (arith, h.0, text_beq_iff tmp tmp), λ n p. ground (arith, h.1 n p))

publish-IsUnharmed :
    (fmt : Format) (tmp final : Text) (old : Directory) (entries : List (Text × List ℕ))
    (d : Directory)
    → d tmp ≡ some (complete fmt entries)
    → ((n : Text) → text_beq tmp n ≡ false → text_beq final n ≡ false → d n ≡ old n)
    → IsUnharmed fmt tmp final old entries (execute fmt tmp final publish d)
unfolding execute
publish-IsUnharmed fmt tmp final old entries d staged others = record {
  final_name = inr (inr (ground (arith, text_beq_iff final final)));
  other_names = λ n p q. ground (arith, others n p);
}

last-Throughout :
    (fmt : Format) (tmp final : Text) (old : Directory) (entries : List (Text × List ℕ))
    (d : Directory)
    → text_beq tmp final ≡ false
    → IsStaged fmt tmp final old entries entries d
    → Throughout fmt tmp final (IsUnharmed fmt tmp final old entries) (last_ops fmt) d
last-Throughout cbz tmp final old entries d apart h = (
  IsStaged-IsUnharmed cbz tmp final old entries apart entries d h,
  publish-IsUnharmed cbz tmp final old entries d h.0 (λ n p q. h.1 n p),
)
last-Throughout cbt tmp final old entries d apart h = (
  IsStaged-IsUnharmed cbt tmp final old entries apart entries d h,
  publish-IsUnharmed cbt tmp final old entries d h.0 (λ n p q. h.1 n p),
)
last-Throughout folder tmp final old entries d apart h =
    unfold execute in
    (
      IsStaged-IsUnharmed folder tmp final old entries apart entries d h,
      (
        record {
          final_name = inr (inl (refl, ground (arith, text_beq_iff final final)));
          other_names = λ n p q. ground (arith, h.1 n p);
        },
        publish-IsUnharmed folder tmp final old entries (execute folder tmp final clear d)
            (ground
              (arith, h.0, text_beq_iff final tmp, text_beq_iff tmp final, text_beq_iff tmp tmp))
            (λ n p q. ground (arith, h.1 n p)),
      ),
    )

module _ (fmt : Format) (tmp final : Text) (old : Directory) (entries : List (Text × List ℕ))
    (apart : text_beq tmp final ≡ false) where
  adds-Throughout :
      (xs ys : List (Text × List ℕ)) (d : Directory)
      → xs ++ ys ≡ entries
      → IsStaged fmt tmp final old entries xs d
      → Throughout fmt tmp final (IsUnharmed fmt tmp final old entries) (adds ys (last_ops fmt)) d
  adds-Throughout xs [] d q h =
      let all : xs ≡ entries = sym (append-nil xs) ∙ q in
      last-Throughout fmt tmp final old entries d apart (rw (← all) h)
  adds-Throughout xs (y ∷ ys) d q h = (
    IsStaged-IsUnharmed fmt tmp final old entries apart xs d h,
    adds-Throughout (xs ++ y ∷ []) ys (execute fmt tmp final (add y) d)
        (append_assoc xs (y ∷ []) ys ∙ q) (add-IsStaged fmt tmp final old entries apart xs y d h),
  )

attempt_inv {κ} :
    (fmt : Format) (tmp final : Text) (P : Directory → Type κ) (k : ℕ) (ops : List FileOp)
    (d : Directory)
    → Throughout fmt tmp final P ops d
    → P (attempt fmt tmp final k ops d).1
unfolding attempt
attempt_inv fmt tmp final P zero [] d h = h
attempt_inv fmt tmp final P (suc k) [] d h = h
attempt_inv fmt tmp final P zero (op ∷ ops) d h = h.0
attempt_inv fmt tmp final P (suc k) (op ∷ ops) d h =
    attempt_inv fmt tmp final P k ops (execute fmt tmp final op d) h.1

-- However many operations of a writer have taken place, and whatever its staging name holds: the
-- final name has what it had before, or the whole archive, or nothing while a folder is replaced;
-- and all other names have what they had.
pub attempt-IsUnharmed :
    (fmt : Format) (tmp final : Text) (k : ℕ) (old : Directory) (entries : List (Text × List ℕ))
    → text_beq tmp final ≡ false
    → IsUnharmed fmt tmp final old entries (attempt fmt tmp final k (write_ops fmt entries) old).1
unfolding write_ops
attempt-IsUnharmed fmt tmp final k old entries apart =
    attempt_inv fmt tmp final (IsUnharmed fmt tmp final old entries) k (write_ops fmt entries) old (
      record { final_name = inl refl; other_names = λ n p q. refl },
      adds-Throughout fmt tmp final old entries apart [] entries (execute fmt tmp final make old)
          refl (make-IsStaged fmt tmp final old entries apart),
    )
