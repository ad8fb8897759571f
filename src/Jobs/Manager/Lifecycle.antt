-- ===== src/Jobs/Manager/Lifecycle.antt =====
-- `remove`, `rehydrate` and `resume_interrupted` of manager.py.
use mangarr_gateway.Prelude.{
  Bool, List, String, [], any, any-keep-count, ap, arith, count-pos, count-split, false,
  if◌then◌else◌, keep, keep-keep, keep_congr, map, max, none, not, refl, some, string_eq, sym, take,
  true, ℕ, ◌&&◌, ◌++◌, ◌==◌, ◌∙◌, ◌∷◌, ◌≡◌,
}
use mangarr_gateway.Prelude.Dict
use mangarr_gateway.Prelude.Dict.{Dict}
use mangarr_gateway.Jobs.Model.{Job, is_live}
use mangarr_gateway.Jobs.Row.{Row, row_to_job}
use mangarr_gateway.Jobs.Store.{
  Table, has_id, live_for, is_terminal, requeue, latest_first, find_live_by_handle,
}
use mangarr_gateway.Jobs.Store
use mangarr_gateway.Jobs.Store.Valid.{IsValid, rehydrate-IsValid, prune_terminal-IsValid}
use mangarr_gateway.Jobs.Store.Lookup.{get-delete, find_live-none}
use mangarr_gateway.Jobs.Store.Retention.{prune_terminal-live, prune_terminal-latest}
use mangarr_gateway.Jobs.Manager.{
  Manager, known_job, remove, by_id, rehydrate, resume_interrupted, is_queued,
}
use mangarr_gateway.Jobs.Manager

module _ (i : String) (delete_data : Bool) (m : Manager) where
  -- An unknown id is answered by false, and nothing changes.
  pub remove_unknown : known_job m i ≡ none → remove i delete_data m ≡ (false, none, m)
  unfolding remove
  remove_unknown h = rw (h, remove)

  -- A known job is gone from the projection and the table. Every other id reads as before.
  pub remove_known :
      (j : Job) (k : String)
      → known_job m i ≡ some j
      → (remove i delete_data m).0 ≡ true
        × (Manager.get (remove i delete_data m).2 k ≡ (if i == k then none else Manager.get m k))
        × (Store.get (remove i delete_data m).2.table k
            ≡ (if i == k then none else Store.get m.table k))
  unfolding remove Manager.get
  remove_known j k h = rw (h, remove) (refl, Dict.get-pop m.projection i k, get-delete m.table i k)

  -- From a valid table, the removal of a known job whose row is the live row of a handle leaves no
  -- live row under the handle.
  pub remove_frees-handle :
      (j : Job) (h : String)
      → IsValid m.table
      → known_job m i ≡ some j
      → any (λ r. live_for h r && has_id i r) m.table ≡ true
      → find_live_by_handle (remove i delete_data m).2.table h ≡ none
  unfolding remove Store.delete
  remove_frees-handle j h v k there =
      let s = count-split (live_for h) (has_id i) m.table in
      let p = count-pos (λ r. live_for h r && has_id i r) m.table there in
      rw (k, remove, Store.delete)
        (find_live-none _ h (
          any-keep-count (live_for h) (λ r. not (has_id i r)) m.table
            (omega (arith, s, p, v.live h))))

-- The projection that a restart builds reads as the table does.
get-by_id : (t : Table) (i : String) → Dict.get (by_id (Store.all t)) i ≡ Store.get t i
unfolding Dict.get by_id Store.all Store.get keep row_to_job
get-by_id [] i = refl
get-by_id (r ∷ t) i = ground (arith, get-by_id t i)

pub get-rehydrate :
    (n now : ℕ) (m : Manager) (i : String)
    → Manager.get (rehydrate n now m) i ≡ Store.get (rehydrate n now m).table i
unfolding rehydrate Manager.get
get-rehydrate n now m i = get-by_id _ i

abbrev queued_row : Row → Bool
queued_row r = is_queued r.status

abbrev live_row : Row → Bool
live_row r = is_live r.status

abbrev ids_of : Table → List String
ids_of = map (λ r. r.job_id)

resumed_ids :
    (t : Table)
    → map (λ (e : String × Job). e.0) (keep (λ e. is_queued e.1.status) (by_id (Store.all t)))
      ≡ ids_of (keep queued_row t)
unfolding by_id Store.all keep row_to_job
resumed_ids [] = refl
resumed_ids (r ∷ t) = ground (arith, resumed_ids t)

-- Pruning touches no queued row.
queued-prune :
    (n : ℕ) (t : Table) → keep queued_row (Store.prune_terminal n t).0 ≡ keep queued_row t
unfolding is_live
queued-prune n t =
    through (Store.prune_terminal n t).0
    ∙ ap (keep queued_row) (prune_terminal-live n t)
    ∙ sym (through t)
  where
    through : (s : Table) → keep queued_row s ≡ keep queued_row (keep live_row s)
    through s = keep_congr _ _ s (λ r. ground arith) ∙ sym (keep-keep queued_row live_row s)

ids-requeue :
    (now : ℕ) (t : Table)
    → ids_of (keep queued_row (Store.rehydrate now t)) ≡ ids_of (keep live_row t)
unfolding Store.rehydrate requeue keep is_live
ids-requeue now [] = refl
ids-requeue now (r ∷ t) = ground (arith, ids-requeue now t)

-- After a restart the tasks started are those of exactly the jobs whose rows were live, in the
-- order of the table.
pub resume_interrupted-rehydrate :
    (max_history_jobs now : ℕ) (m : Manager)
    → (resume_interrupted (rehydrate max_history_jobs now m)).1.tasks
      ≡ m.tasks ++ ids_of (keep live_row m.table)
unfolding resume_interrupted rehydrate
resume_interrupted-rehydrate n now m =
    ap (λ l. m.tasks ++ l)
      (resumed_ids (Store.prune_terminal n (Store.rehydrate now m.table)).0
        ∙ ap ids_of (queued-prune n (Store.rehydrate now m.table))
        ∙ ids-requeue now m.table)

terminal-requeue :
    (now : ℕ) (t : Table) → keep is_terminal (Store.rehydrate now t) ≡ keep is_terminal t
unfolding Store.rehydrate requeue keep is_live
terminal-requeue now [] = refl
terminal-requeue now (r ∷ t) = ground (arith, terminal-requeue now t)

-- A restart leaves a valid table, whose terminal rows are the latest max(1, max_history_jobs) of
-- those before, unchanged.
pub rehydrate_history :
    (max_history_jobs now : ℕ) (m : Manager)
    → IsValid m.table
    → IsValid (rehydrate max_history_jobs now m).table
      × (latest_first (keep is_terminal (rehydrate max_history_jobs now m).table)
          ≡ take (max 1 max_history_jobs) (latest_first (keep is_terminal m.table)))
unfolding rehydrate
rehydrate_history n now m v =
    let v' = rehydrate-IsValid now m.table v in
    (
      prune_terminal-IsValid n (Store.rehydrate now m.table) v',
      prune_terminal-latest n (Store.rehydrate now m.table) v'
          ∙ ap (λ x. take (max 1 n) (latest_first x)) (terminal-requeue now m.table),
    )
