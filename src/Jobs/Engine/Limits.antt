-- ===== src/Jobs/Engine/Limits.antt =====
-- The re-resolve budget, and a job whose row is deleted.
use mangarr_gateway.Prelude.{
  Bool, List, Option, String, [], any, ap, arith, false, none, refl, some, subst, suc, sym, zero, ℕ,
  ◌+◌, ◌∙◌, ◌∷◌, ◌≡◌, ◌≤◌,
}
use mangarr_gateway.Jobs.Store
use mangarr_gateway.Jobs.Engine.{
  Page, source_error, stale_manifest, other, Outcome, ok, raise, World, Run, Exec, continue, ◌>>=◌,
  throw,
}
use mangarr_gateway.Jobs.Engine.Pages.{
  page_tasks, settle, require_pages, on_stale, fetch_manifest, next_round, fetch_pages_once,
  fetch_all_pages,
}
use mangarr_gateway.Jobs.Row.{job_values}
use mangarr_gateway.Jobs.Store.{ok, Table, has_id}
use mangarr_gateway.Jobs.Engine.Progress.{SameJob-progress}
use mangarr_gateway.Jobs.Engine.Drive.{
  write_through, transition, fail, with_source, run_inner, handle, run,
}
use mangarr_gateway.Jobs.Model.{resolving, failed}

-- At most `n` more passes and `k` more manifests than `s`.
abbrev pub Within : ℕ → ℕ → Run → Run → Type 0
Within n k s t = (t.passes ≤ s.passes + n) × (t.manifests ≤ s.manifests + k)

-- What holds after a pass and after the next round holds after both.
pub on_stale-after :
    (P : Run → Type 0) (again : Exec (List Page)) (r : Outcome (List Page)) (t : Run)
    → P t
    → P (again t).1
    → P (on_stale again (r, t)).1
unfolding on_stale
on_stale-after P again (ok p) t h a = h
on_stale-after P again (raise (source_error c m st)) t h a = h
on_stale-after P again (raise stale_manifest) t h a = a
on_stale-after P again (raise (other x)) t h a = h

pub continue-after :
    (P : Run → Type 0) (t : Run) (again : List String → Exec (List Page))
    (r : Outcome (List String))
    → P t
    → ((urls : List String) → P (again urls t).1)
    → P (continue r (λ urls. require_pages urls >>= again) t).1
unfolding ◌>>=◌ require_pages
continue-after P t again (raise e) h a = h
continue-after P t again (ok []) h a = h
continue-after P t again (ok (u ∷ urls)) h a = a (u ∷ urls)

Within-trans :
    (n k : ℕ) (s t u : Run)
    → t.passes ≡ s.passes + 1
    → t.manifests ≡ s.manifests + 1
    → Within n k t u
    → Within (n + 1) (k + 1) s u
Within-trans n k s t u p m h = (omega arith, omega arith)

-- The next round takes one manifest, and then what its rest takes.
next_round-Within :
    (w : World) (chapter : String) (n k : ℕ) (rest : List String → Exec (List Page)) (s t : Run)
    → t.passes ≡ s.passes + 1
    → t.manifests ≡ s.manifests
    → ((urls : List String) (u : Run) → Within n k u (rest urls u).1)
    → Within (n + 1) (k + 1) s (next_round w chapter rest t).1
unfolding next_round fetch_manifest ◌>>=◌
next_round-Within w chapter n k rest s t p m h =
    let t1 = record t {
      job = record t.job { downloaded_pages = some 0; downloaded_bytes = 0 };
      manifests = t.manifests + 1;
    } in
    continue-after (Within (n + 1) (k + 1) s) t1 rest (w.manifest t.manifests chapter)
      (omega arith, omega arith)
      (λ urls. Within-trans n k s t1 (rest urls t1).1 (omega arith) (omega arith) (h urls t1))

-- The download loop ends after at most `budget` + 1 passes over the pages, with at most `budget`
-- fresh manifests, whatever the source answers.
pub fetch_all_pages-Within :
    (w : World) (reresolve : Bool) (budget : ℕ) (chapter : String) (urls : List String) (s : Run)
    → Within (budget + 1) budget s (fetch_all_pages w reresolve budget chapter urls s).1
unfolding fetch_all_pages fetch_pages_once
fetch_all_pages-Within w b zero chapter urls s =
    let (r, t) = fetch_pages_once w b urls s in
    on_stale-after (Within 1 0 s)
      (throw (source_error "source_unavailable" "stale manifest re-resolve budget exceeded" none)) r
      t (omega arith) (omega arith)
fetch_all_pages-Within w b (suc n) chapter urls s =
    let (r, t) = fetch_pages_once w b urls s in
    let rest = fetch_all_pages w b n chapter in
    on_stale-after (Within (suc n + 1) (suc n) s) (next_round w chapter rest) r t (omega arith) (
      let h =
        next_round-Within w chapter (n + 1) n rest s t refl refl
          (λ us u. fetch_all_pages-Within w b n chapter us u) in
      omega arith)

-- Whatever the passes and fresh manifests were, the page count on the job stays that of the first
-- manifest: a fresh manifest does not change it.
pub total_pages-fetch_all_pages :
    (w : World) (reresolve : Bool) (budget : ℕ) (chapter : String) (urls : List String) (s : Run)
    → (fetch_all_pages w reresolve budget chapter urls s).1.job.total_pages ≡ s.job.total_pages
unfolding fetch_all_pages fetch_pages_once next_round fetch_manifest ◌>>=◌
total_pages-fetch_all_pages w b zero chapter urls s =
    let (r, t) = fetch_pages_once w b urls s in
    let same =
      (SameJob-progress s.job
        ((settle (w.finished s.passes) (page_tasks w s.passes 0 urls)).0)).total in
    on_stale-after (λ u. u.job.total_pages ≡ s.job.total_pages)
      (throw (source_error "source_unavailable" "stale manifest re-resolve budget exceeded" none)) r
      t same same
total_pages-fetch_all_pages w b (suc n) chapter urls s =
    let (r, t) = fetch_pages_once w b urls s in
    let same =
      (SameJob-progress s.job
        ((settle (w.finished s.passes) (page_tasks w s.passes 0 urls)).0)).total in
    let rest = fetch_all_pages w b n chapter in
    let t1 = record t {
      job = record t.job { downloaded_pages = some 0; downloaded_bytes = 0 };
      manifests = t.manifests + 1;
    } in
    on_stale-after (λ u. u.job.total_pages ≡ s.job.total_pages) (next_round w chapter rest) r t same
      (continue-after (λ u. u.job.total_pages ≡ s.job.total_pages) t1 rest
        (w.manifest t.manifests chapter) same
        (λ us. total_pages-fetch_all_pages w b n chapter us t1 ∙ same))

-- No row of the table has the id.
abbrev pub Absent : String → Table → Type 0
Absent i t = any (has_id i) t ≡ false

abbrev pub KeepsAbsent : String → World → Type 0
KeepsAbsent i w = (n : ℕ) (t : Table) → Absent i t → Absent i (w.others n t)

module _ (w : World) (i : String) (keeps : KeepsAbsent i w) where
  -- A write-through of a deleted job raises and writes nothing.
  write_through-Absent :
      (s : Run)
      → s.job.job_id ≡ i
      → Absent i s.table
      → (t : Run) × (write_through w s ≡ (raise (other "KeyError"), t))
        × (t.job.job_id ≡ i)
        × Absent i t.table
  unfolding write_through Store.update Store.stamp job_values
  write_through-Absent s e a =
      let o : any (has_id s.job.job_id) (w.others s.updates s.table) ≡ false =
        subst (λ k. any (has_id k) (w.others s.updates s.table) ≡ false) (sym e)
          (keeps s.updates s.table a) in
      (
        record s {
          job = Store.stamp (w.now s.readings) s.job;
          table = w.others s.updates s.table;
          updates = s.updates + 1;
          readings = s.readings + 1;
        },
        ground (arith, o),
        e,
        keeps s.updates s.table a,
      )

  -- The action raises, writes nothing, and keeps the id of the job.
  abbrev Refused : Exec (Unit {0}) → Run → Type 0
  Refused m s =
      (t : Run) × (m s ≡ (raise (other "KeyError"), t)) × (t.job.job_id ≡ i) × Absent i t.table

  fail-Absent :
      (message : String) (s : Run)
      → s.job.job_id ≡ i
      → Absent i s.table
      → Refused (fail w message) s
  unfolding fail ◌>>=◌
  fail-Absent message s e a =
      write_through-Absent
        (record s { job = record s.job { status = failed; message = some message } }) e a

  with_source-Absent :
      (o : Option Bool) (s : Run)
      → s.job.job_id ≡ i
      → Absent i s.table
      → Refused (with_source w o) s
  unfolding transition ◌>>=◌
  with_source-Absent none s e a = fail-Absent _ s e a
  with_source-Absent (some b) s e a =
      let (t, q, f, g) =
        write_through-Absent (record s { job = record s.job { status = resolving } }) e a in
      (t, rw q, f, g)

  -- A run whose row is absent when it starts, and stays absent, raises the KeyError out of the
  -- run, and does not bring the row back.
  pub run_deleted :
      (s : Run)
      → s.job.job_id ≡ i
      → Absent i s.table
      → (t : Run) × (run w s ≡ (raise (other "KeyError"), t)) × Absent i t.table
  unfolding run run_inner handle
  run_deleted s e a =
      let (t, q, f, g) = with_source-Absent (w.reresolve_on_403 s.job.source_key) s e a in
      let (u, r, _, h) = fail-Absent _ t f g in (u, ap (handle w) q ∙ r, h)
