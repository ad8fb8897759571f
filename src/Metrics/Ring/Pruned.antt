-- ===== src/Metrics/Ring/Pruned.antt =====
-- The retention of the events on disk.
use mangarr_gateway.Prelude.{
  Bool, List, Option, [], arith, count, count-append, count-keep-le, keep, ltb, max, nat_beq,
  nat_eq, not, refl, suc, take, ℕ, ◌*◌, ◌-◌, ◌<◌, ◌∷◌, ◌≡◌, ◌≤◌,
}
use mangarr_gateway.Prelude.Latest.{latest_first-take}
use mangarr_gateway.Metrics.Event.{MetricEvent}
use mangarr_gateway.Metrics.Rollups.{Ring, key_eq}
use mangarr_gateway.Metrics.Ring.{
  Codec, RingRow, MetricSnapshotStore, max_id, insert_ring, newest_first, newest_ids, prune,
  insert_rings, insert_all, flush,
}

module _ {P : Type 0} where
  abbrev pub has_row : ℕ → RingRow P → Bool
  has_row i r = nat_beq r.id i

  -- The primary key: one row for an id.
  abbrev pub IsKeyed : List (RingRow P) → Type 0
  IsKeyed rows = (i : ℕ) → count (has_row i) rows ≤ 1

  abbrev pub is_young : ℕ → ℕ → RingRow P → Bool
  is_young max_age_days now r = not (ltb r.ts (now - max 1 max_age_days * 86400))

  -- From a table with its primary key, the rows that `prune` leaves, newest first, are exactly the
  -- first max(1, max_rows) of those that are no older than max(1, max_age_days) days.
  pub prune-newest :
      (max_rows max_age_days now : ℕ) (s : MetricSnapshotStore P)
      → IsKeyed s.ring_events
      → newest_first (prune max_rows max_age_days now s).0.ring_events
        ≡ take (max 1 max_rows) (newest_first (keep (is_young max_age_days now) s.ring_events))
  unfolding prune newest_ids
  prune-newest n days now s v =
      latest_first-take ⦃e = nat_eq⦄ (λ r. r.ts) (λ r. r.id) (max 1 n)
        (keep (is_young days now) s.ring_events)
        (λ i. omega (arith, count-keep-le (has_row i) (is_young days now) s.ring_events, v i))

  -- `insert_ring` gives a new id.
  count-max_id : (rows : List (RingRow P)) (i : ℕ) → max_id rows < i → count (has_row i) rows ≡ 0
  unfolding max_id count
  count-max_id [] i a = refl
  count-max_id (r ∷ rows) i a = ground (arith, count-max_id rows i)

  pub insert_ring-IsKeyed :
      (ring : Ring) (ts : ℕ) (request_id : Option ℕ) (payload : P) (rows : List (RingRow P))
      → IsKeyed rows
      → IsKeyed (insert_ring ring ts request_id payload rows)
  unfolding insert_ring count
  insert_ring-IsKeyed ring ts request_id payload rows v i =
      let new : RingRow P = record {
        id = suc (max_id rows);
        ring = ring;
        ts = ts;
        request_id = request_id;
        payload = payload;
      } in
      rw (count-append (has_row i) rows (new ∷ [])) ground (arith, v i, count-max_id rows i)

module _ {P : Type 0} (codec : Codec P) where
  insert_rings-IsKeyed :
      (ev : MetricEvent) (rings : List Ring) (rows : List (RingRow P))
      → IsKeyed rows
      → IsKeyed (insert_rings codec ev rings rows)
  unfolding insert_rings
  insert_rings-IsKeyed ev [] rows v = v
  insert_rings-IsKeyed ev (ring ∷ rings) rows v =
      insert_rings-IsKeyed ev rings _
        (insert_ring-IsKeyed ring ev.ts ev.request_id (codec.dumps ev) rows v)

  insert_all-IsKeyed :
      (pending : List (MetricEvent × List Ring)) (rows : List (RingRow P))
      → IsKeyed rows
      → IsKeyed (insert_all codec pending rows)
  unfolding insert_all
  insert_all-IsKeyed [] rows v = v
  insert_all-IsKeyed (e ∷ pending) rows v =
      insert_all-IsKeyed pending _ (insert_rings-IsKeyed e.0 e.1 rows v)

  -- A flush keeps the primary key.
  pub flush-IsKeyed :
      (s : MetricSnapshotStore P) → IsKeyed s.ring_events → IsKeyed (flush codec s).ring_events
  unfolding flush
  flush-IsKeyed s v = insert_all-IsKeyed s.queue s.ring_events v
