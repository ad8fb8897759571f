-- ===== src/Package/Files/Outcome.antt =====
-- How a writer ends.
use mathlib.Core.List.{append-nil, append_assoc}
use mangarr_gateway.Prelude.{
  Bool, Bool-cases, List, [], arith, false, if◌then◌else◌, inl, inr, none, refl, some, suc, sym,
  true, zero, ℕ, ◌++◌, ◌∙◌, ◌∷◌, ◌≡◌, ◌⊎◌,
}
use mangarr_gateway.Package.Text.{Text, text_beq, text_beq_iff}
use mangarr_gateway.Package.Path.{Format, cbz, cbt, folder}
use mangarr_gateway.Package.Files.{
  Directory, set, is_folder_format, make, add, publish, execute, last_ops, adds, write_ops, attempt,
  write,
}
use mangarr_gateway.Package.Files.Atomic.{complete, IsStaged, make-IsStaged, add-IsStaged}

-- A writer that returned has published, and one that raised has changed nothing.
abbrev pub WriteOutcome :
    Format → Text → Directory → List (Text × List ℕ) → Bool × Directory → Type 0
WriteOutcome fmt final old entries (done, d) =
    ((done ≡ true)
      × (d final ≡ some (complete fmt entries))
      × ((n : Text) → text_beq final n ≡ false → d n ≡ old n))
    ⊎ ((done ≡ false) × ((n : Text) → d n ≡ old n))

-- The attempt before its exception is handled.
abbrev Attempted :
    Format → Text → Text → Directory → List (Text × List ℕ) → Bool × Directory → Type 0
Attempted fmt tmp final old entries (done, d) =
    ((done ≡ true)
      × (d final ≡ some (complete fmt entries))
      × (d tmp ≡ none)
      × ((n : Text) → text_beq tmp n ≡ false → text_beq final n ≡ false → d n ≡ old n))
    ⊎ ((done ≡ false) × ((n : Text) → text_beq tmp n ≡ false → d n ≡ old n))

module _ (fmt : Format) (tmp final : Text) (old : Directory) (entries : List (Text × List ℕ))
    (apart : text_beq tmp final ≡ false) where
  publish-Attempted :
      (k : ℕ) (d : Directory)
      → IsStaged fmt tmp final old entries entries d
      → Attempted fmt tmp final old entries (attempt fmt tmp final k (publish ∷ []) d)
  unfolding attempt
  publish-Attempted zero d h = inr (refl, h.1)
  publish-Attempted (suc zero) d h = inl (
    refl,
    ground (arith, h.0, text_beq_iff final final),
    ground (arith, text_beq_iff final tmp, text_beq_iff tmp final, text_beq_iff tmp tmp),
    λ n p q. ground (arith, h.1 n p),
  )
  publish-Attempted (suc (suc k)) d h = inl (
    refl,
    ground (arith, h.0, text_beq_iff final final),
    ground (arith, text_beq_iff final tmp, text_beq_iff tmp final, text_beq_iff tmp tmp),
    λ n p q. ground (arith, h.1 n p),
  )

  adds-Attempted :
      (k : ℕ) (xs ys : List (Text × List ℕ)) (d : Directory)
      → xs ++ ys ≡ entries
      → IsStaged fmt tmp final old entries xs d
      → Attempted fmt tmp final old entries (attempt fmt tmp final k (adds ys (publish ∷ [])) d)
  unfolding attempt
  adds-Attempted k xs [] d q h =
      let all : xs ≡ entries = sym (append-nil xs) ∙ q in publish-Attempted k d (rw (← all) h)
  adds-Attempted zero xs (y ∷ ys) d q h = inr (refl, h.1)
  adds-Attempted (suc k) xs (y ∷ ys) d q h =
      adds-Attempted k (xs ++ y ∷ []) ys (execute fmt tmp final (add y) d)
        (append_assoc xs (y ∷ []) ys ∙ q) (add-IsStaged fmt tmp final old entries apart xs y d h)

  write_ops-Attempted :
      (k : ℕ)
      → last_ops fmt ≡ publish ∷ []
      → Attempted fmt tmp final old entries (attempt fmt tmp final k (write_ops fmt entries) old)
  unfolding attempt write_ops
  write_ops-Attempted zero e = inr (refl, λ n p. refl)
  write_ops-Attempted (suc k) e = rw e (
      adds-Attempted k [] entries (execute fmt tmp final make old) refl
        (make-IsStaged fmt tmp final old entries apart))

handled :
    (fmt : Format) (tmp final : Text) (old : Directory) (entries : List (Text × List ℕ))
    (done : Bool) (d : Directory)
    → old tmp ≡ none
    → Attempted fmt tmp final old entries (done, d)
    → WriteOutcome fmt final old entries (if done then (true, d) else (false, set tmp none d))
handled fmt tmp final old entries true d fresh (inl h) = inl (
  refl,
  h.1,
  λ n q. elim (Bool-cases (text_beq tmp n)) [
    | inl same ↦ ground (arith, h.2, text_beq_iff tmp n)
    | inr p ↦ h.3 n p q
  ],
)
handled fmt tmp final old entries false d fresh (inl h) = cc
handled fmt tmp final old entries true d fresh (inr h) = cc
handled fmt tmp final old entries false d fresh (inr h) = inr (
  refl,
  λ n. elim (Bool-cases (text_beq tmp n)) [
    | inl same ↦ ground (arith, text_beq_iff tmp n)
    | inr p ↦ ground (arith, h.1 n p)
  ],
)

-- `write_cbz` and `write_cbt` under a fresh staging name, whichever operation raises: they return
-- with the whole archive under the final name, or raise; and all other names have what they had, in
-- the second case also the final one.
pub write_outcome :
    (fmt : Format) (tmp final : Text) (k : ℕ) (old : Directory) (entries : List (Text × List ℕ))
    → is_folder_format fmt ≡ false
    → old tmp ≡ none
    → text_beq tmp final ≡ false
    → WriteOutcome fmt final old entries (write fmt tmp final k entries old)
unfolding write
write_outcome cbz tmp final k old entries file fresh apart =
    handled cbz tmp final old entries _ _ fresh
      (write_ops-Attempted cbz tmp final old entries apart k refl)
write_outcome cbt tmp final k old entries file fresh apart =
    handled cbt tmp final old entries _ _ fresh
      (write_ops-Attempted cbt tmp final old entries apart k refl)
write_outcome folder tmp final k old entries file fresh apart = cc
