-- ===== src/Prelude/Family.antt =====
-- Families indexed by the number of a task, changed at one index.
use mangarr_gateway.Prelude.Tests.{if◌then◌else◌, nat_beq}
use Prim.Native.Nat.{ℕ}

abbrev pub update {ℓ} : {A : Type ℓ} → (ℕ → A) → ℕ → A → ℕ → A
update f i a j = if nat_beq i j then a else f j
