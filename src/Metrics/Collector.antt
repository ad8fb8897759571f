-- ===== src/Metrics/Collector.antt =====
-- `Collector._ingest` of src/manga_gateway/metrics/collector.py with a ring writer, on an event that
-- it has built, and what the process does with it.
pub mod Breakdown
use mangarr_gateway.Prelude.{List, [], ℕ, ◌∷◌}
use mangarr_gateway.Prelude.Dict
use mangarr_gateway.Prelude.Dict.{Dict}
use mangarr_gateway.Metrics.Event.{MetricEvent}
use mangarr_gateway.Metrics.Rollups.{Histogram, Rollup, RollupKey, key_eq, classify}
use mangarr_gateway.Metrics.Ring.{Codec, MetricSnapshotStore, enqueue, flush}

-- `InMemoryStore` and `ring_writer`
pub record Collector (H P : Type 0) : Type 0 where
  pub rollups : Dict RollupKey (Rollup H)
  pub ring_writer : MetricSnapshotStore P

-- What happens: an event is ingested, or the flusher runs.
pub data Action : Type 0 where
  ingests : MetricEvent → Action
  flushes : Action

module _ {H P : Type 0} (h : Histogram H) (codec : Codec P) (slow_factor : ℕ) where
  unfoldable pub ingest : MetricEvent → Collector H P → Collector H P
  unfolding classify enqueue
  ingest ev c =
      let (rollups, rings) = classify h slow_factor ev c.rollups in
      record { rollups = rollups; ring_writer = enqueue ev rings c.ring_writer }

  unfoldable pub act : Action → Collector H P → Collector H P
  unfolding ingest flush
  act (ingests ev) c = ingest ev c
  act flushes c = record c { ring_writer = flush codec c.ring_writer }

  unfoldable pub run : List Action → Collector H P → Collector H P
  unfolding act
  run [] c = c
  run (a ∷ actions) c = run actions (act a c)
