-- ===== src/Jobs/Engine/Drive.antt =====
-- `run` and `_run_inner` of engine.py: the state machine of a job.
use mangarr_gateway.Prelude.{
  Bool, List, Option, String, [], if◌then◌else◌, length, none, some, string_eq, ℕ, ◌++◌, ◌+◌, ◌==◌,
  ◌∷◌,
}
use Prim.Native.String.{◌++◌ as append_text}
use mangarr_gateway.Jobs.Model.{JobStatus, resolving, downloading, archiving, completed, failed}
use mangarr_gateway.Jobs.Store.{StoreError, integrity_error, key_error, ok, stamp}
use mangarr_gateway.Jobs.Store
use mangarr_gateway.Jobs.Engine.{
  Page, Exception, source_error, other, Outcome, ok, raise, World, Run, Exec, ◌>>=◌, ◌>>◌,
  modify_job,
}
use mangarr_gateway.Jobs.Engine.Pages.{type_name, fetch_manifest, fetch_all_pages}

-- `_MAX_MANIFEST_RERESOLVES`
abbrev pub max_manifest_reresolves : ℕ
max_manifest_reresolves = 2

abbrev pub store_exception : StoreError → Exception
store_exception integrity_error = other "IntegrityError"
store_exception (key_error _) = other "KeyError"

module _ (w : World) where
  -- `store.update(job)` and the event that follows it
  unfoldable pub write_through : Exec (Unit {0})
  write_through s =
      let j = stamp (w.now s.readings) s.job in
      let t = w.others s.updates s.table in
      let s' = record s {
        job = j;
        table = t;
        updates = s.updates + 1;
        readings = s.readings + 1;
      } in
      elim (Store.update t j) [
        | Store.ok t' ↦ (ok tt, record s' { table = t'; events = s.events ++ j.status ∷ [] })
        | Store.err e ↦ (raise (store_exception e), s')
      ]

  -- `_transition`
  unfoldable pub transition : JobStatus → Exec (Unit {0})
  transition status = do modify_job (λ j. record j { status = status }); write_through

  -- `_fail`
  unfoldable pub fail : String → Exec (Unit {0})
  fail message = do
    modify_job (λ j. record j { status = failed; message = some message })
    write_through

  -- The start of the download: the page count, zeroed progress and the start marker.
  unfoldable pub begin_download : List String → Exec (Unit {0})
  begin_download urls s = (
    ok tt,
    record s {
      job = record s.job {
        total_pages = some (length urls);
        downloaded_pages = some 0;
        downloaded_bytes = 0;
        download_started_at = some (w.now s.readings);
      };
      readings = s.readings + 1;
    },
  )

  abbrev pub written : Option Exception → String → List Page → Exec String
  written none path pages s = (ok path, record s { published = some pages })
  written (some e) path pages s = (raise e, s)

  -- The writer: it publishes the archive whole, or raises.
  unfoldable pub write_archive : List Page → Exec String
  write_archive pages s =
      let path = w.output_path s.job in
      written (w.write s.job.output_format pages path) path pages s

  -- The path, the time and the exact byte totals of a finished job.
  unfoldable pub pin_totals : String → Exec (Unit {0})
  pin_totals path s = (
    ok tt,
    record s {
      job = record s.job {
        output_path = some path;
        completed_at = some (w.now s.readings);
        total_bytes = s.job.downloaded_bytes;
        remaining_bytes = 0;
      };
      readings = s.readings + 1;
    },
  )

  -- `_run_inner` once the manifest is there
  unfoldable pub download : Bool → String → List String → Exec (Unit {0})
  download reresolve chapter [] = fail "manifest resolved to zero pages"
  download reresolve chapter (url ∷ urls) = do
    begin_download (url ∷ urls)
    transition downloading
    pages ← fetch_all_pages w reresolve max_manifest_reresolves chapter (url ∷ urls)
    transition archiving
    path ← write_archive pages
    pin_totals path
    transition completed

  abbrev pub with_chapter : Bool → Option String → Exec (Unit {0})
  with_chapter reresolve none = fail "missing chapter id"
  with_chapter reresolve (some chapter) = do
    urls ← fetch_manifest w chapter
    download reresolve chapter urls

  abbrev pub with_source : Option Bool → Exec (Unit {0})
  with_source none s = fail (append_text "unknown source " s.job.source_key) s
  with_source (some reresolve) s =
      (do transition resolving; with_chapter reresolve s.job.chapter_id) s

  -- `_run_inner`
  unfoldable pub run_inner : Exec (Unit {0})
  unfolding transition fail download
  run_inner s = with_source (w.reresolve_on_403 s.job.source_key) s

  -- The handlers of `run`. A `SourceError` has its code for an empty message.
  unfoldable pub handle : Outcome (Unit {0}) × Run → Outcome (Unit {0}) × Run
  unfolding type_name
  handle (ok _, s) = (ok tt, s)
  handle (raise (source_error code message status), s) =
      fail (if message == "" then code else message) s
  handle (raise e, s) = fail (append_text "job failed: " (type_name e)) s

  -- `run`
  unfoldable pub run : Exec (Unit {0})
  unfolding run_inner handle
  run s = handle (run_inner s)
