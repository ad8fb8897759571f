-- ===== src/Metrics/Tests.antt =====
-- The metrics on two requests before a restart and one after it.
use mangarr_gateway.Prelude.{
  List, String, [], count, keep, length, map, max, refl, some, string_eq, ℕ, ◌&&◌, ◌/◌, ◌∷◌, ◌≡◌,
}
use mangarr_gateway.Prelude.Dict
use mangarr_gateway.Prelude.Latest
use mangarr_gateway.Metrics.Event.{MetricEvent, is_failure}
use mangarr_gateway.Metrics.Rollups.{Histogram, Ring, recent, failures, key_eq, rollup_key, summary}
use mangarr_gateway.Metrics.Rollups.Totals.{
  of_key, rollup_of_some, classify_all, classify_all-totals,
}
use mangarr_gateway.Metrics.Ring.{
  Codec, RingRow, is_id, open_metric_store, max_request_id, minted, newest_ids, prune, flush,
  calls_for_request,
}
use mangarr_gateway.Metrics.Collector.{Action, ingests, flushes, run}
use mangarr_gateway.Metrics.Collector.Breakdown.{ingested, breakdown_restart}

abbrev greatest_value : List ℕ → ℕ
greatest_value [] = 0
greatest_value (n ∷ ns) = max n (greatest_value ns)

-- A histogram that has the greatest value at every percentile.
abbrev histogram : Histogram (List ℕ)
histogram = record {
  new_histogram = [];
  record_value = ◌∷◌;
  value_at_p95 = greatest_value;
  round_ms = λ d. d / 1000;
}

abbrev codec : Codec MetricEvent
codec = record { dumps = λ ev. ev; loads = λ ev. ev; loads-dumps = λ ev. refl }

abbrev event : ℕ → ℕ → String → ℕ → MetricEvent
event ts i outcome duration = record {
  ts = ts;
  kind = "http";
  request_id = some i;
  surface = some "api";
  endpoint = some "POST /search";
  source_key = some "comix";
  op = some "get_json";
  outcome = outcome;
  duration = duration;
  details = "";
}

-- A table of an earlier process: a failure of request 4 in two rings, a call of request 5.
abbrev failed : MetricEvent
failed = event 100 4 "timeout" 30000

abbrev called : MetricEvent
called = event 200000 5 "ok" 200

abbrev row : ℕ → Ring → MetricEvent → RingRow MetricEvent
row i ring ev = record { id = i; ring = ring; ts = ev.ts; request_id = ev.request_id; payload = ev }

abbrev old_rows : List (RingRow MetricEvent)
old_rows = row 1 recent failed ∷ row 2 failures failed ∷ row 3 recent called ∷ []

minted_six : minted old_rows 0 ≡ 6
unfolding minted max_request_id
minted_six = refl

-- After the restart: request 6 fails twice, with a flush between.
abbrev later : List Action
later =
    ingests (event 200001 6 "error" 100)
    ∷ flushes
    ∷ ingests (event 200002 6 "ok" 90000)
    ∷ ingests (event 200002 6 "timeout" 300)
    ∷ []

listed_twice : count is_failure (ingested later) ≡ 2
unfolding count is_failure
listed_twice = refl

breakdown_restart_example :
    count is_failure (
      calls_for_request codec (minted old_rows 0) (
        flush codec
          (run histogram codec 3000 later
            (record { rollups = []; ring_writer = open_metric_store old_rows })).ring_writer))
    ≡ count (λ ev. is_failure ev && is_id (minted old_rows 0) ev.request_id) (ingested later)
breakdown_restart_example = breakdown_restart histogram codec 3000 is_failure old_rows 0 [] later

prune_leaves :
    map (λ r. r.id) (prune 1 1 200010 (open_metric_store old_rows)).0.ring_events ≡ 3 ∷ []
unfolding prune newest_ids keep Latest.latest_first Latest.place
prune_leaves = refl

classify_all-totals_example :
    (Dict.get (classify_all histogram 3000 (failed ∷ called ∷ [])) (rollup_key failed)
      ≡ rollup_of_some histogram (keep (of_key (rollup_key failed)) (failed ∷ called ∷ [])))
    × ((summary (classify_all histogram 3000 (failed ∷ called ∷ []))).0
        ≡ length (failed ∷ called ∷ []))
    × ((summary (classify_all histogram 3000 (failed ∷ called ∷ []))).1
        ≡ count is_failure (failed ∷ called ∷ []))
classify_all-totals_example =
    classify_all-totals histogram 3000 (failed ∷ called ∷ []) (rollup_key failed)
