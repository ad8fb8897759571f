-- ===== src/Lib.antt =====
-- mangarr_gateway: a model of the MangarrGateway download service, and the properties that make it
-- correct. The gateway searches manga sources, hands out opaque release handles, and downloads a
-- chosen release as a job whose state is written through to sqlite.
--
-- Parts, under src/manga_gateway of the repository:
-- - Prelude: Boolean tests on the native numbers, keys with a decidable equality, lists, association
--   lists, Prelude.Bits the exclusive or, and Prelude.Latest the order of rows by a column and the
--   choice of the latest ones.
-- - Jobs.Model, Jobs.Row: jobs/model.py and the row conversions of jobs/store.py (`Job`,
--   `_job_values`, `_row_to_job`).
-- - Jobs.Store: `JobStore` of jobs/store.py. The table is its rows in rowid order, a statement is a
--   function on it, and `insert` and `update` answer the errors of the primary key and of the
--   partial unique index on live handles. Jobs.Store.Contract is what the store promises, as a map
--   from ids to jobs.
-- - Jobs.Manager: `JobManager` of jobs/manager.py: `submit`, `get`, `remove`, `rehydrate`,
--   `resume_interrupted` on the table, the in-memory projection and the tasks started.
--   Jobs.Manager.Telemetry is `telemetry_items`; Jobs.Manager.Slots is the two semaphores of
--   `_run_guarded` as a step relation, so that its theorems hold of every interleaving.
-- - Jobs.Engine: `JobEngine.run` of jobs/engine.py, in a monad of state and exceptions. The job
--   object, the table and the published archive are the state (`Run`); what the source, the network,
--   the disk, the clock and the other tasks answer is a parameter (`World`). The manager starts one
--   run for each job, and the run writes each transition through `JobStore.update`.
-- - Handles.Store: `HandleStore` of handles/store.py, which `submit` gets its record from: `mint`,
--   `_persist`, `resolve`, `rehydrate` and `open_handle_store` on the in-memory tier and the table.
--   `TTLCache` of cachetools is the parameter `TtlCache`, with its documented laws.
-- - Framework.Cooldown: `SourceFailureCooldown` of framework/cooldown.py.
-- - Framework.FanOut: `fan_out` of framework/fanout.py, which asks the cooldown. A task is its phase,
--   and a schedule names the task that moves next. A run may also end cancelled, on which the
--   collection of the results raises.
-- - Framework.Health: `SourceHealth` of framework/health.py.
-- - Framework.Lanes: `resolve_lane_plans` of framework/lanes.py.
-- - Framework.ProxyPool: the selection of framework/proxy_pool.py and the pins of
--   framework/source_pin.py, with the random choice as a number.
-- - Framework.Relevance: `prune_candidates` of framework/relevance.py, with the normalized titles and
--   the score as parameters.
-- - Framework.SingleFlight: `SingleFlightCache` of framework/enum_cache.py, with the cache enabled,
--   as a step relation of its callers: `get_or_fetch` between its waits, `_ttu`, `replace`, and the
--   cancellation of a caller. `TLRUCache` of cachetools is the parameter `TlruCache`.
-- - Framework.SolverRouter: `_backend_for`, `get_clearance`, `_all_backends` and `warm` of
--   framework/solver_router.py.
-- - Framework.BrowserLifecycle: `BrowserLifecycle` of framework/solver_lifecycle.py as a step
--   relation: `solve`, `_run_solve`, with the launch of a context that raises, and `_close_context`.
--   A clearance is the context that it was captured in.
-- - Framework.Request: one request of `SourceContext` in framework/context.py:
--   `_reconcile_request`, `_rotate_and_retry_origin_block`, `_request_response` and `_retrying`, on
--   what the sends answer. It rotates the pins of Framework.ProxyPool. Framework.Request.Responses is
--   the recognition of challenges and blocks.
-- - Framework.ImageFetch: `fetch_image_via_pool` of framework/context.py, where the pool is active.
-- - Framework.ExternalLinks: `normalize` of framework/external_links.py and the maps of the sources.
--   The search of `re` for a pattern is a parameter.
-- - Framework.AndroidSolver: `AndroidSolver` of framework/android_solver.py: `get_clearance` before
--   and after its wait, so that the parts of several calls can be put in any order, `_record_expiry`
--   and the block windows. Framework.AndroidSolver.Sidecar is `_post_sidecar` and
--   `_solve_with_retry`, and Framework.AndroidSolver.Refresh is `_refresh_tick`, where what a wait
--   comes to is a parameter. SolverRouter calls one such client for each lane.
-- - Sources.Comix: sources/comix.py. Sources.Comix.Cipher, Sources.Comix.Scramble,
--   Sources.Comix.Jigsaw and Sources.Comix.Unscramble are the byte cipher, the permutation of the
--   tiles, the search by edges and `_unscramble_image`; Sources.Comix.Pages is `fetch_image` from the
--   response on; Sources.Comix.Deferred is the composite chapter ids and `_resolve_deferred`. Pillow
--   and the measures of numpy are the parameters `Pillow` and `Measures`; opening and saving an image may raise.
-- - Package: jobs/package.py. Package.Path is `compute_output_path`, which calls Sanitize,
--   Package.Entry the names of the entries, and Package.Files the writers and
--   `_unlink_job_files` of jobs/manager.py, on the directory of the output. An operation on a file
--   takes place or raises.
-- - Api: api/sorting.py, and the window of `search` and the limit and the feed of `get_recent` in
--   api/routes, on the releases of Framework.FanOut.
-- - Metrics: Metrics.Event, Metrics.Rollups, Metrics.Ring and Metrics.Collector are metrics/event.py,
--   store.py (`classify`, `summary`), snapshot.py (the disk ring: `enqueue`, `flush`, the reads,
--   `prune`) and `_ingest` of collector.py. A duration is in microseconds, and the histogram of hdrh
--   is the parameter `Histogram`.
-- - Sanitize: `sanitize_filename` of util/sanitize.py, by which titles become path components.
--
-- Bounds: the attempts on a page and the re-resolves of a manifest are the code's own budgets, and
-- the model recurses on them. The loop of `_request_response` has image_proxy_max_attempts + 1 as its
-- fuel, which is enough, since each round tries another proxy. The loop of `_post_sidecar` has one
-- more than its budget. A time is a
-- natural number, the instant that the code's ISO text stands for, and a float is its text or an
-- answer of a parameter.
--
-- Not modelled: sqlite, asyncio and httpx themselves, the zip and tar formats, the scrapers of the
-- single sites but for the page protection and the chapter ids of comix, the anti-bot transports but
-- for the states of the Android client, the HTTP routes and the configuration, which are
-- input and output or glue over their libraries; the check of an image by Pillow, the cancelling of
-- tasks at shutdown, the kill-switch and the keys of the enumeration cache, the limiter and the
-- building and parsing of requests, the redaction of the metrics, the snapshot of their rollups and
-- a statement of their store that raises.
pub mod Prelude
pub mod Jobs
pub mod Handles
pub mod Framework
pub mod Api
pub mod Metrics
pub mod Sources
pub mod Sanitize
pub mod Package
