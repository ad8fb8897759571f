-- ===== src/Handles/Store/Minted.antt =====
-- Whatever the program does with the store, a handle resolves only to a record it was minted for.
use mangarr_gateway.Prelude.{
  All, Bool, List, Option, String, [], false, if◌then◌else◌, inl, inr, none, refl, some, true, ℕ,
  ◌∷◌, ◌≡◌, ◌⊎◌,
}
use mangarr_gateway.Handles.Record.{ResolutionRecord}
use mangarr_gateway.Handles.Store.Holds.{
  Holds, CacheHolds, RowsHold, rows_of, mint-Holds, resolve-Holds, rehydrate-Holds, persist-Holds,
}
use mangarr_gateway.Handles.Store.{
  Row, record_from_row, TtlCache, HandleStore, mint, resolve, rehydrate, open_store, persist,
}

-- A call of the program, or a restart, with the readings of the clocks.
pub data Call : Type 0 where
  minting : String → Bool → ℕ → ℕ → ResolutionRecord → Call
  resolving : ℕ → ℕ → String → Call
  rehydrating : ℕ → ℕ → Call
  persisting : Bool → Call
  restarting : ℕ → ℕ → Call

-- The calls have minted this record under this handle.
abbrev pub Minted : List Call → String → ResolutionRecord → Type 0
Minted [] h r = ⊥
Minted (minting token loop mono wall q ∷ cs) h r = ((h ≡ token) × (r ≡ q)) ⊎ Minted cs h r
Minted (_ ∷ cs) h r = Minted cs h r

later-Minted :
    (c : Call) (cs : List Call) (k : String) (r : ResolutionRecord)
    → Minted cs k r
    → Minted (c ∷ cs) k r
later-Minted (minting token loop mono wall q) cs k r m = inr m
later-Minted (resolving mono wall h) cs k r m = m
later-Minted (rehydrating mono wall) cs k r m = m
later-Minted (persisting w) cs k r m = m
later-Minted (restarting mono wall) cs k r m = m

first :
    (c : Call) (cs : List Call) (k : String) (r : ResolutionRecord)
    → Minted (c ∷ []) k r
    → Minted (c ∷ cs) k r
first (minting token loop mono wall q) cs k r (inl m) = inl m
first (minting token loop mono wall q) cs k r (inr m) = elim m [ ]
first (resolving mono wall h) cs k r m = elim m [ ]
first (rehydrating mono wall) cs k r m = elim m [ ]
first (persisting w) cs k r m = elim m [ ]
first (restarting mono wall) cs k r m = elim m [ ]

no_rows :
    (cs : List Call) (connected : Bool)
    → All
        (λ x. Minted cs x.handle (record_from_row x))
        (rows_of (if connected then some [] else none))
no_rows cs true = tt
no_rows cs false = tt

module _ {C : Type 0} (ops : TtlCache C) where
  unfoldable pub call : Call → HandleStore C → HandleStore C
  unfolding mint resolve rehydrate persist open_store
  call (minting token loop mono wall r) s = (mint ops token loop mono wall r s).1
  call (resolving mono wall h) s = (resolve ops mono wall h s).1
  call (rehydrating mono wall) s = (rehydrate ops mono wall s).1
  call (persisting written) s = persist written s
  call (restarting mono wall) s = elim s.rows [
    | none ↦ s
    | some rows ↦ open_store ops mono wall rows
  ]

  -- The latest call stands first.
  unfoldable pub calls : List Call → HandleStore C → HandleStore C
  unfolding call
  calls [] s = s
  calls (c ∷ cs) s = call c (calls cs s)

  module _ (P : String → ResolutionRecord → Type 0) where
    restart-Holds :
        (mono wall : ℕ) (c : C) (o : Option (List Row)) (ps : List Row)
        → CacheHolds ops P c
        → RowsHold ops P (rows_of o)
        → RowsHold ops P ps
        → Holds ops P (call (restarting mono wall) (record { cache = c; rows = o; pending = ps }))
    unfolding call open_store
    restart-Holds mono wall c none ps h rs qs = record { cache = h; rows = rs; pending = qs }
    restart-Holds mono wall c (some rows) ps h rs qs =
        rehydrate-Holds ops P mono wall ops.empty (some rows) []
          (λ now k r e. let n = ops.get-empty now k in cc) rs tt

    call-Holds :
        (c : Call) (s : HandleStore C)
        → ((k : String) (r : ResolutionRecord) → Minted (c ∷ []) k r → P k r)
        → Holds ops P s
        → Holds ops P (call c s)
    unfolding call
    call-Holds (minting token loop mono wall r) s m h =
        mint-Holds ops P token loop mono wall r s.cache s.rows s.pending
          (m token r (inl (refl, refl))) h.cache h.rows h.pending
    call-Holds (resolving mono wall k) s m h = (resolve-Holds ops P mono wall k s h).0
    call-Holds (rehydrating mono wall) s m h =
        rehydrate-Holds ops P mono wall s.cache s.rows s.pending h.cache h.rows h.pending
    call-Holds (persisting w) s m h =
        persist-Holds ops P w s.cache s.rows s.pending h.cache h.rows h.pending
    call-Holds (restarting mono wall) s m h =
        restart-Holds mono wall s.cache s.rows s.pending h.cache h.rows h.pending

    calls-Holds :
        (cs : List Call) (s : HandleStore C)
        → ((k : String) (r : ResolutionRecord) → Minted cs k r → P k r)
        → Holds ops P s
        → Holds ops P (calls cs s)
    unfolding calls
    calls-Holds [] s m h = h
    calls-Holds (c ∷ cs) s m h =
        call-Holds c (calls cs s) (λ k r x. m k r (first c cs k r x))
          (calls-Holds cs s (λ k r x. m k r (later-Minted c cs k r x)) h)

  -- From an empty store, with or without a table, after any calls and restarts in any order and at
  -- any times, a handle that resolves gives a record that was minted under this handle.
  pub resolve-Minted :
      (cs : List Call) (connected : Bool) (mono wall : ℕ) (h : String) (r : ResolutionRecord)
      → (resolve ops mono wall h (
          calls cs (record {
            cache = ops.empty;
            rows = if connected then some [] else none;
            pending = [];
          }))).0
        ≡ some r
      → Minted cs h r
  resolve-Minted cs connected mono wall h r e =
      let start : Holds ops (Minted cs)
          (record { cache = ops.empty; rows = if connected then some [] else none; pending = [] }) =
        record {
          cache = λ now k q g. let n = ops.get-empty now k in cc;
          rows = no_rows cs connected;
          pending = tt;
        } in
      (resolve-Holds ops (Minted cs) mono wall h _
          (calls-Holds (Minted cs) cs _ (λ k q x. x) start)).1
        r e
