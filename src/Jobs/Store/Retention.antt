-- ===== src/Jobs/Store/Retention.antt =====
-- `prune_terminal` keeps the latest terminal rows and every live one.
use mangarr_gateway.Prelude.{
  List, String, ap, arith, keep, keep-keep, keep_congr, map, max, not, string_eq, sym, take, ℕ,
  ◌&&◌, ◌∙◌, ◌≡◌,
}
use mangarr_gateway.Jobs.Model.{is_live}
use mangarr_gateway.Jobs.Row.{Row}
use mangarr_gateway.Jobs.Store.{Table, is_terminal, among, survivors, latest_first, prune_terminal}
use mangarr_gateway.Jobs.Store.Valid.{IsValid, keep-IsValid}
use mangarr_gateway.Prelude.Latest.{latest_first-take}

left_test :
    (ids : List String) (r : Row)
    → (is_terminal r && not (is_terminal r && not (among ids r))) ≡ (among ids r && is_terminal r)
left_test ids r = ground arith

-- From a valid table, the terminal rows that are left, latest first, are exactly the first
-- max(1, keep_last) of the terminal rows that were there, latest first.
pub prune_terminal-latest :
    (keep_last : ℕ) (t : Table)
    → IsValid t
    → latest_first (keep is_terminal (prune_terminal keep_last t).0)
      ≡ take (max 1 keep_last) (latest_first (keep is_terminal t))
unfolding prune_terminal survivors
prune_terminal-latest n t v =
    let k = max 1 n in
    let ids = map (λ r. r.job_id) (take k (latest_first (keep is_terminal t))) in
    ap latest_first (
      keep-keep is_terminal _ t
      ∙ keep_congr _ _ t (left_test ids)
      ∙ sym (keep-keep (among ids) is_terminal t))
    ∙ latest_first-take ⦃e = string_eq⦄ (λ r. r.updated_at) (λ r. r.job_id) k (keep is_terminal t)
        (keep-IsValid is_terminal t v).ids

-- Pruning leaves every live row in its place.
pub prune_terminal-live :
    (keep_last : ℕ) (t : Table)
    → keep (λ r. is_live r.status) (prune_terminal keep_last t).0 ≡ keep (λ r. is_live r.status) t
unfolding prune_terminal
prune_terminal-live n t = keep-keep _ _ t ∙ keep_congr _ _ t (λ r. ground arith)
