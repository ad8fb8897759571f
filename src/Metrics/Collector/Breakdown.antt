-- ===== src/Metrics/Collector/Breakdown.antt =====
-- The breakdown of a request, over a restart.
use mangarr_gateway.Prelude.{
  All, All-append, Bool, Bool-cases, List, [], arith, count, count-append, count-keep-and,
  count-map_comp, if◌then◌else◌, inl, inr, keep, refl, ℕ, ◌&&◌, ◌+◌, ◌<◌, ◌∙◌, ◌∷◌, ◌≡◌,
}
use mangarr_gateway.Prelude.Dict.{Dict}
use mangarr_gateway.Metrics.Event.{MetricEvent}
use mangarr_gateway.Metrics.Rollups.{Histogram, Rollup, RollupKey, Ring, recent, key_eq, classify}
use mangarr_gateway.Metrics.Ring.{
  Codec, RingRow, MetricSnapshotStore, ring_beq, is_id, open_metric_store, enqueue, insert_ring,
  max_request_id, minted, place_first, oldest_first, of_request, insert_rings, insert_all, flush,
  calls_for_request,
}
use mangarr_gateway.Metrics.Collector.{Collector, Action, ingests, flushes, ingest, act, run}

-- The events that are ingested.
abbrev pub ingested : List Action → List MetricEvent
ingested [] = []
ingested (ingests ev ∷ actions) = ev ∷ ingested actions
ingested (flushes ∷ actions) = ingested actions

abbrev RecentOnce : List Ring → Type 0
RecentOnce rings = count (λ r. ring_beq r recent) rings ≡ 1

module _ {P : Type 0} (codec : Codec P) (p : MetricEvent → Bool) (i : ℕ) where
  -- The rows that the breakdown of request i lists, of the events with p.
  abbrev listed : RingRow P → Bool
  listed r = p (codec.loads r.payload) && of_request i r

  abbrev wanted : MetricEvent → Bool
  wanted ev = p ev && is_id i ev.request_id

  count-place_first :
      (q : RingRow P → Bool) (r : RingRow P) (rows : List (RingRow P))
      → count q (place_first r rows) ≡ count q (r ∷ rows)
  unfolding place_first count
  count-place_first q r [] = refl
  count-place_first q r (x ∷ rows) = ground (arith, count-place_first q r rows)

  count-oldest_first :
      (q : RingRow P → Bool) (rows : List (RingRow P)) → count q (oldest_first rows) ≡ count q rows
  unfolding oldest_first count
  count-oldest_first q [] = refl
  count-oldest_first q (r ∷ rows) =
      ground (arith, count-place_first q r (oldest_first rows), count-oldest_first q rows)

  count-calls_for_request :
      (s : MetricSnapshotStore P)
      → count p (calls_for_request codec i s) ≡ count listed s.ring_events
  unfolding calls_for_request
  count-calls_for_request s =
      count-map_comp p (λ r. codec.loads r.payload)
        (oldest_first (keep (of_request i) s.ring_events))
      ∙ count-oldest_first (λ r. p (codec.loads r.payload)) (keep (of_request i) s.ring_events)
      ∙ count-keep-and (λ r. p (codec.loads r.payload)) (of_request i) s.ring_events

  count-insert_ring :
      (ev : MetricEvent) (ring : Ring) (rows : List (RingRow P))
      → count listed (insert_ring ring ev.ts ev.request_id (codec.dumps ev) rows)
        ≡ count listed rows + (if wanted ev && ring_beq ring recent then 1 else 0)
  unfolding insert_ring count
  count-insert_ring ev ring rows =
      count-append listed rows _
      ∙ rw (codec.loads-dumps ev)
          elim (Bool-cases (p ev)) [ inl e ↦ rw e ground arith | inr e ↦ rw e ground arith ]

  count-insert_rings :
      (ev : MetricEvent) (rings : List Ring) (rows : List (RingRow P))
      → count listed (insert_rings codec ev rings rows)
        ≡ count listed rows + (if wanted ev then count (λ r. ring_beq r recent) rings else 0)
  unfolding insert_rings count
  count-insert_rings ev [] rows = ground arith
  count-insert_rings ev (ring ∷ rings) rows =
      count-insert_rings ev rings (insert_ring ring ev.ts ev.request_id (codec.dumps ev) rows)
      ∙ rw (count-insert_ring ev ring rows) ground arith

  -- The events in the queue that the breakdown will list.
  count-insert_all :
      (pending : List (MetricEvent × List Ring)) (rows : List (RingRow P))
      → All (λ e. RecentOnce e.1) pending
      → count listed (insert_all codec pending rows)
        ≡ count listed rows + count (λ e. wanted e.0) pending
  unfolding insert_all count
  count-insert_all [] rows a = omega arith
  count-insert_all (e ∷ pending) rows a = ground (
    arith,
    a.0,
    count-insert_all pending (insert_rings codec e.0 e.1 rows) a.1,
    count-insert_rings e.0 e.1 rows,
  )

  count-calls_for_request-flush :
      (s : MetricSnapshotStore P)
      → All (λ e. RecentOnce e.1) s.queue
      → count p (calls_for_request codec i (flush codec s))
        ≡ count listed s.ring_events + count (λ e. wanted e.0) s.queue
  unfolding flush
  count-calls_for_request-flush s a =
      count-calls_for_request (flush codec s) ∙ count-insert_all s.queue s.ring_events a

  count-calls_for_request-enqueue :
      (ev : MetricEvent) (rings : List Ring) (s : MetricSnapshotStore P)
      → All (λ e. RecentOnce e.1) s.queue
      → RecentOnce rings
      → count p (calls_for_request codec i (flush codec (enqueue ev rings s)))
        ≡ count p (calls_for_request codec i (flush codec s)) + (if wanted ev then 1 else 0)
  unfolding enqueue count
  count-calls_for_request-enqueue ev rings s a once =
      count-calls_for_request-flush (enqueue ev rings s)
        (All-append (λ e. RecentOnce e.1) s.queue ((ev, rings) ∷ []) a (once, tt))
      ∙ ground (
        arith,
        count-calls_for_request-flush s a,
        count-append (λ e. wanted e.0) s.queue ((ev, rings) ∷ []),
      )

flush-flush :
    {P : Type 0} (codec : Codec P) (s : MetricSnapshotStore P)
    → flush codec (flush codec s) ≡ flush codec s
unfolding flush insert_all
flush-flush codec s = refl

-- What the breakdown will list: the rows of the table, and the events in the queue.
module _ {H P : Type 0} (h : Histogram H) (codec : Codec P) (slow_factor : ℕ) where
  abbrev AreRecentOnce : Collector H P → Type 0
  AreRecentOnce c = All (λ e. RecentOnce e.1) c.ring_writer.queue

  classify-RecentOnce :
      (ev : MetricEvent) (s : Dict RollupKey (Rollup H))
      → RecentOnce (classify h slow_factor ev s).1
  unfolding classify count
  classify-RecentOnce ev s = ground arith

  act-AreRecentOnce :
      (a : Action) (c : Collector H P)
      → AreRecentOnce c
      → AreRecentOnce (act h codec slow_factor a c)
  unfolding act ingest enqueue flush
  act-AreRecentOnce (ingests ev) c r =
      All-append (λ e. RecentOnce e.1) c.ring_writer.queue _ r
        (classify-RecentOnce ev c.rollups, tt)
  act-AreRecentOnce flushes c r = tt

  calls_for_request-ingest :
      (p : MetricEvent → Bool) (i : ℕ) (ev : MetricEvent) (c : Collector H P)
      → AreRecentOnce c
      → count p
          (calls_for_request codec i (flush codec (ingest h codec slow_factor ev c).ring_writer))
        ≡ count p (calls_for_request codec i (flush codec c.ring_writer))
          + (if p ev && is_id i ev.request_id then 1 else 0)
  unfolding ingest
  calls_for_request-ingest p i ev c r =
      count-calls_for_request-enqueue codec p i ev (classify h slow_factor ev c.rollups).1
        c.ring_writer r (classify-RecentOnce ev c.rollups)

  -- After the actions and a last flush, the breakdown of a request lists what it would have listed
  -- before them, and every event of the request ingested since once.
  breakdown_run :
      (p : MetricEvent → Bool) (i : ℕ) (actions : List Action) (c : Collector H P)
      → AreRecentOnce c
      → count p
          (calls_for_request codec i (flush codec (run h codec slow_factor actions c).ring_writer))
        ≡ count p (calls_for_request codec i (flush codec c.ring_writer))
          + count (λ ev. p ev && is_id i ev.request_id) (ingested actions)
  unfolding run act count
  breakdown_run p i [] c r = omega arith
  breakdown_run p i (ingests ev ∷ actions) c r =
      breakdown_run p i actions (ingest h codec slow_factor ev c)
        (act-AreRecentOnce (ingests ev) c r)
      ∙ ground (arith, calls_for_request-ingest p i ev c r)
  breakdown_run p i (flushes ∷ actions) c r =
      breakdown_run p i actions (act h codec slow_factor flushes c) (act-AreRecentOnce flushes c r)
      ∙ rw (flush-flush codec c.ring_writer) refl

module _ {P : Type 0} where
  max_request_id-above :
      (rows : List (RingRow P)) (i : ℕ) (q : RingRow P → Bool)
      → max_request_id rows < i
      → count (λ r. q r && of_request i r) rows ≡ 0
  unfolding max_request_id count
  max_request_id-above [] i q a = refl
  max_request_id-above (r ∷ rows) i q a = ground (arith, max_request_id-above rows i q)

-- After a start on any table, and whatever is ingested and flushed since, up to a last flush,
-- the breakdown of a request whose id this process has minted lists the events of the request
-- that were ingested since, each once, whichever rings it is in, and no event of an earlier
-- process.
pub breakdown_restart :
    {H P : Type 0} (h : Histogram H) (codec : Codec P) (slow_factor : ℕ) (p : MetricEvent → Bool)
    (rows : List (RingRow P)) (n : ℕ) (rollups : Dict RollupKey (Rollup H)) (actions : List Action)
    → count p (
        calls_for_request codec (minted rows n) (
          flush codec
            (run h codec slow_factor actions
              (record { rollups = rollups; ring_writer = open_metric_store rows })).ring_writer))
      ≡ count (λ ev. p ev && is_id (minted rows n) ev.request_id) (ingested actions)
unfolding minted count
breakdown_restart h codec f p rows n rollups actions =
    let i = minted rows n in
    breakdown_run h codec f p i actions
      (record { rollups = rollups; ring_writer = open_metric_store rows }) tt
    ∙ ground (
      arith,
      count-calls_for_request-flush codec p i (open_metric_store rows) tt,
      max_request_id-above rows i (λ r. p (codec.loads r.payload)),
    )
