-- ===== src/Metrics/Ring.antt =====
-- `MetricSnapshotStore` of src/manga_gateway/metrics/snapshot.py: the events on disk, the queue in
-- front of them, and the reads. A statement of sqlite takes place. `json.dumps(asdict(ev))` and its
-- inverse are a parameter.
pub mod Pruned
use mangarr_gateway.Prelude.{
  Bool, List, Option, [], any, false, if◌then◌else◌, keep, leb, length, ltb, map, max, nat_beq,
  nat_eq, none, not, some, suc, take, true, ℕ, ◌&&◌, ◌*◌, ◌++◌, ◌+◌, ◌-◌, ◌==◌, ◌||◌, ◌∷◌, ◌≡◌,
}
use mangarr_gateway.Prelude.Latest
use mangarr_gateway.Metrics.Event.{MetricEvent, is_none}
use mangarr_gateway.Metrics.Rollups.{Ring, recent, failures, slow, key_eq}

-- `_event_to_json` and `json.loads`
pub record Codec (P : Type 0) : Type 0 where
  pub dumps : MetricEvent → P
  pub loads : P → MetricEvent
  pub loads-dumps : (ev : MetricEvent) → loads (dumps ev) ≡ ev

-- A row of `ring_events`.
pub record RingRow (P : Type 0) : Type 0 where
  pub id : ℕ
  pub ring : Ring
  pub ts : ℕ
  pub request_id : Option ℕ
  pub payload : P

-- The table, in the order of its ids, and what the process holds.
pub record MetricSnapshotStore (P : Type 0) : Type 0 where
  pub ring_events : List (RingRow P)
  pub queue : List (MetricEvent × List Ring)
  pub flush_max_batch : ℕ
  pub flush_signal : Bool

abbrev pub ring_beq : Ring → Ring → Bool
ring_beq recent recent = true
ring_beq failures failures = true
ring_beq slow slow = true
ring_beq _ _ = false

abbrev pub is_id : ℕ → Option ℕ → Bool
is_id i none = false
is_id i (some j) = nat_beq j i

module _ {P : Type 0} where
  -- `open_metric_store` on a table of the present shape.
  abbrev pub open_metric_store : List (RingRow P) → MetricSnapshotStore P
  open_metric_store rows = record {
    ring_events = rows;
    queue = [];
    flush_max_batch = 1000;
    flush_signal = false;
  }

  unfoldable pub configure : ℕ → MetricSnapshotStore P → MetricSnapshotStore P
  configure n s = record s { flush_max_batch = max 1 n }

  unfoldable pub enqueue : MetricEvent → List Ring → MetricSnapshotStore P → MetricSnapshotStore P
  enqueue ev rings s =
      let queue = s.queue ++ (ev, rings) ∷ [] in
      record s {
        queue = queue;
        flush_signal = if leb s.flush_max_batch (length queue) then true else s.flush_signal;
      }

  -- The id that sqlite gives to a row: one more than the greatest.
  unfoldable pub max_id : List (RingRow P) → ℕ
  max_id [] = 0
  max_id (r ∷ rs) = max r.id (max_id rs)

  -- `_RING_INSERT`
  unfoldable pub insert_ring : Ring → ℕ → Option ℕ → P → List (RingRow P) → List (RingRow P)
  unfolding max_id
  insert_ring ring ts request_id payload rows =
      rows
      ++ (record {
        id = suc (max_id rows);
        ring = ring;
        ts = ts;
        request_id = request_id;
        payload = payload;
      })
        ∷ []

  -- The ids that a process mints after a start on this table: `max_request_id`, `seed_request_ids`
  -- of one more, and `next_request_id`.
  unfoldable pub max_request_id : List (RingRow P) → ℕ
  max_request_id [] = 0
  max_request_id (r ∷ rs) = elim r.request_id [
    | none ↦ max_request_id rs
    | some i ↦ max i (max_request_id rs)
  ]

  unfoldable pub minted : List (RingRow P) → ℕ → ℕ
  unfolding max_request_id
  minted rows n = max 1 (max_request_id rows + 1) + n

  -- ORDER BY ts ASC, id ASC, of rows in the order of their ids.
  unfoldable pub place_first : RingRow P → List (RingRow P) → List (RingRow P)
  place_first r [] = r ∷ []
  place_first r (x ∷ xs) = if ltb x.ts r.ts then x ∷ place_first r xs else r ∷ x ∷ xs

  unfoldable pub oldest_first : List (RingRow P) → List (RingRow P)
  unfolding place_first
  oldest_first [] = []
  oldest_first (r ∷ rs) = place_first r (oldest_first rs)

  -- ORDER BY ts DESC, id DESC
  abbrev pub newest_first : List (RingRow P) → List (RingRow P)
  newest_first = Latest.latest_first (λ r. r.ts)

  abbrev pub of_request : ℕ → RingRow P → Bool
  of_request i r = is_id i r.request_id && ring_beq r.ring recent

  -- The second statement of `prune`, and both. The first answer is the table, the second the count
  -- of the rows deleted.
  unfoldable pub newest_ids : ℕ → List (RingRow P) → List ℕ
  newest_ids limit rows = map (λ r. r.id) (take limit (newest_first rows))

  abbrev pub among : List ℕ → RingRow P → Bool
  among ids r = any (λ i. ◌==◌ ⦃k = nat_eq⦄ r.id i) ids

  unfoldable pub prune : ℕ → ℕ → ℕ → MetricSnapshotStore P → MetricSnapshotStore P × ℕ
  unfolding newest_ids
  prune max_rows max_age_days now s =
      let cutoff = now - max 1 max_age_days * 86400 in
      let young = keep (λ r. not (ltb r.ts cutoff)) s.ring_events in
      let left = keep (among (newest_ids (max 1 max_rows) young)) young in
      (record s { ring_events = left }, length s.ring_events - length left)

module _ {P : Type 0} (codec : Codec P) where
  -- One row for each ring of the event.
  unfoldable pub insert_rings : MetricEvent → List Ring → List (RingRow P) → List (RingRow P)
  unfolding insert_ring
  insert_rings ev [] rows = rows
  insert_rings ev (ring ∷ rings) rows =
      insert_rings ev rings (insert_ring ring ev.ts ev.request_id (codec.dumps ev) rows)

  unfoldable pub insert_all : List (MetricEvent × List Ring) → List (RingRow P) → List (RingRow P)
  unfolding insert_rings
  insert_all [] rows = rows
  insert_all (entry ∷ pending) rows = insert_all pending (insert_rings entry.0 entry.1 rows)

  unfoldable pub flush : MetricSnapshotStore P → MetricSnapshotStore P
  unfolding insert_all
  flush s = record s {
    ring_events = insert_all s.queue s.ring_events;
    queue = [];
    flush_signal = false;
  }

  unfoldable pub calls_for_request : ℕ → MetricSnapshotStore P → List MetricEvent
  unfolding oldest_first
  calls_for_request i s =
      map (λ r. codec.loads r.payload) (oldest_first (keep (of_request i) s.ring_events))

  -- `_latest_in_ring`, of which `recent_calls`, `latest_failures` and `latest_slow` are the cases.
  unfoldable pub latest_in_ring : Ring → ℕ → Bool → MetricSnapshotStore P → List MetricEvent
  latest_in_ring ring limit include_unrouted s =
      map (λ r. codec.loads r.payload)
        (take limit (
          newest_first (
            keep
              (λ r.
                ring_beq r.ring ring
                && (include_unrouted || not (is_none (codec.loads r.payload).endpoint)))
              s.ring_events)))
