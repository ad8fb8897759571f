-- ===== src/Jobs/Store/Valid.antt =====
-- The invariant of the `jobs` table: one row for an id, one live row for a release handle.
use mangarr_gateway.Prelude.{
  Bool, Bool-cases, String, [], any, any-const, arith, count, count-append, count-eq-zero,
  count-keep-le, count-map, count-map-le, false, if◌then◌else◌, inl, inr, keep, map, not, string_eq,
  subst, true, ℕ, ◌&&◌, ◌++◌, ◌∷◌, ◌≡◌, ◌≤◌, ◌⊎◌,
}
use mangarr_gateway.Jobs.Model.{Job, is_live}
use mangarr_gateway.Jobs.Row.{Row, job_values}
use mangarr_gateway.Jobs.Store.{
  update, Table, ok, has_id, live_for, insert, delete, requeue, rehydrate, prune_terminal,
}

pub record IsValid (t : Table) : Type 0 where
  pub ids : (i : String) → count (has_id i) t ≤ 1
  pub live : (h : String) → count (live_for h) t ≤ 1

abbrev pub empty : Table
empty = []

pub IsValid-empty : IsValid empty
unfolding count
IsValid-empty = record { ids = λ i. omega arith; live = λ h. omega arith }

-- The tests of `insert` leave room for the new row.
room_for :
    (p : Row → Bool) (t : Table) (r : Row)
    → (p r ≡ true → any p t ≡ false)
    → count p t ≤ 1
    → count p (t ++ r ∷ []) ≤ 1
unfolding count
room_for p t r h v = ground (arith, count-append p t (r ∷ []), count-eq-zero p t)

-- What a successful insert has tested.
pub insert_tests :
    (t t' : Table) (j : Job)
    → insert t j ≡ ok t'
    → (t' ≡ t ++ job_values j ∷ [])
      × (any (has_id j.job_id) t ≡ false)
      × (is_live j.status ≡ true → any (live_for j.release_handle) t ≡ false)
unfolding insert job_values
insert_tests t t' j h = ground arith

-- A successful insert into a valid table gives a valid table: ids are unique, and a handle has
-- at most one live row.
pub insert-IsValid : (t t' : Table) (j : Job) → IsValid t → insert t j ≡ ok t' → IsValid t'
unfolding job_values
insert-IsValid t t' j v h =
    let (e, fresh, alone) = insert_tests t t' j h in
    rw e (record {
      ids = λ i.
          room_for (has_id i) t (job_values j)
            (λ p. subst (λ k. any (has_id k) t ≡ false) ((string_eq.beq_iff _ _).0 p) fresh)
            (v.ids i);
      live = λ k.
          room_for (live_for k) t (job_values j)
            (λ p.
              subst (λ x. any (live_for x) t ≡ false) ((string_eq.beq_iff _ _).0 (ground arith))
                (alone (ground arith)))
            (v.live k);
    })

pub keep-IsValid : (p : Row → Bool) (t : Table) → IsValid t → IsValid (keep p t)
keep-IsValid p t v = record {
  ids = λ i. omega (arith, count-keep-le (has_id i) p t, v.ids i);
  live = λ h. omega (arith, count-keep-le (live_for h) p t, v.live h);
}

pub delete-IsValid : (t : Table) (i : String) → IsValid t → IsValid (delete t i)
unfolding delete
delete-IsValid t i v = keep-IsValid _ t v

pub prune_terminal-IsValid : (n : ℕ) (t : Table) → IsValid t → IsValid (prune_terminal n t).0
unfolding prune_terminal
prune_terminal-IsValid n t v = keep-IsValid _ t v

requeue_live : (now : ℕ) (h : String) (r : Row) → live_for h (requeue now r) ≡ live_for h r
unfolding requeue is_live
requeue_live now h r = ground arith

requeue_id : (now : ℕ) (i : String) (r : Row) → has_id i (requeue now r) ≡ has_id i r
unfolding requeue
requeue_id now i r = ground arith

pub rehydrate-IsValid : (now : ℕ) (t : Table) → IsValid t → IsValid (rehydrate now t)
unfolding rehydrate
rehydrate-IsValid now t v = record {
  ids = λ i. omega (arith, count-map (has_id i) (requeue now) t (requeue_id now i), v.ids i);
  live = λ h. omega (arith, count-map (live_for h) (requeue now) t (requeue_live now h), v.live h);
}

-- The row that the statement of `update` writes over `x`.
abbrev pub write_over : Row → Row → Row
write_over r x = if has_id r.job_id x then r else x

write_over_id : (r : Row) (i : String) (x : Row) → has_id i (write_over r x) ≡ has_id i x
write_over_id r i x = ground (arith, string_eq.beq_iff x.job_id r.job_id)

write_over_live :
    (r : Row) (h : String) (x : Row)
    → live_for h (write_over r x) ≡ true
    → (live_for h x ≡ true) ⊎ (has_id r.job_id x ≡ true)
write_over_live r h x e = ground arith

pub update_tests :
    (t t' : Table) (j : Job)
    → update t j ≡ ok t'
    → (t' ≡ map (write_over (job_values j)) t)
      × (any (has_id j.job_id) t ≡ true)
      × (is_live j.status ≡ true
          → any (λ x. live_for j.release_handle x && not (has_id j.job_id x)) t ≡ false)
unfolding update job_values
update_tests t t' j h = ground arith

-- Where the new row is not live under `h`, no row comes to be.
write_over_other :
    (r : Row) (h : String) (t : Table)
    → live_for h r ≡ false
    → count (live_for h) (map (write_over r) t) ≤ count (live_for h) t
write_over_other r h t e =
    count-map-le (live_for h) (live_for h) (λ _. false) (write_over r) t (λ x p. ground arith)
      (any-const t)

write_over_self :
    (r : Row) (h : String) (t : Table)
    → any (λ x. live_for h x && not (has_id r.job_id x)) t ≡ false
    → count (live_for h) (map (write_over r) t) ≤ count (has_id r.job_id) t
write_over_self r h t e =
    count-map-le (live_for h) (has_id r.job_id) (λ x. live_for h x && not (has_id r.job_id x))
      (write_over r) t (λ x p. ground arith) e

write_over-live-le :
    (t : Table) (r : Row) (h : String)
    → IsValid t
    → (is_live r.status ≡ true
        → any (λ x. live_for r.release_handle x && not (has_id r.job_id x)) t ≡ false)
    → count (live_for h) (map (write_over r) t) ≤ 1
write_over-live-le t r h v alone = elim (Bool-cases (live_for h r)) [
  | inl p ↦
      let a =
        subst (λ k. any (λ x. live_for k x && not (has_id r.job_id x)) t ≡ false)
          ((string_eq.beq_iff r.release_handle h).0 (ground arith)) (alone (ground arith)) in
      omega (arith, write_over_self r h t a, v.ids r.job_id)
  | inr p ↦ omega (arith, write_over_other r h t p, v.live h)
]

-- A successful update of a valid table gives a valid table: ids stay unique, and a handle keeps
-- at most one live row.
pub update-IsValid : (t t' : Table) (j : Job) → IsValid t → update t j ≡ ok t' → IsValid t'
unfolding job_values
update-IsValid t t' j v h =
    let (e, there, alone) = update_tests t t' j h in
    let r = job_values j in
    rw e (record {
      ids = λ i. omega (arith, count-map (has_id i) (write_over r) t (write_over_id r i), v.ids i);
      live = λ k. write_over-live-le t r k v alone;
    })
