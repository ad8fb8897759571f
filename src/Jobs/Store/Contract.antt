-- ===== src/Jobs/Store/Contract.antt =====
-- The contract of `JobStore` of jobs/store.py: a map from ids to jobs in which a release handle has at
-- most one live job. It knows no rows and no order.
pub mod Live
pub mod Refines
use mangarr_gateway.Prelude.{
  List, Option, String, [], false, if◌then◌else◌, none, some, string_eq, true, ◌==◌, ◌∷◌, ◌≡◌, ◌⊎◌,
}
use mangarr_gateway.Jobs.Model.{Job, is_live}
use mangarr_gateway.Jobs.Row.{forget_projection}
use mangarr_gateway.Jobs.Store.{Table, Result, ok, err}
use mangarr_gateway.Jobs.Store

pub data Request : Type 0 where
  insert update : Job → Request
  delete : String → Request
  get find_live_by_handle : String → Request

pub data Reply : Type 0 where
  done refused : Reply
  found : Option Job → Reply

abbrev pub answer : Table → Result Table → Reply × Table
answer t (ok t') = (done, t')
answer t (err e) = (refused, t)

-- The statement of `JobStore` that a request is.
unfoldable pub serve : Request → Table → Reply × Table
serve (insert j) t = answer t (Store.insert t j)
serve (update j) t = answer t (Store.update t j)
serve (delete i) t = (done, Store.delete t i)
serve (get i) t = (found (Store.get t i), t)
serve (find_live_by_handle h) t = (found (Store.find_live_by_handle t h), t)

abbrev pub View : Type 0
View = String → Option Job

-- A live job under the handle, and one with another id than `i`.
abbrev pub HasLive : String → View → Type 0
HasLive h v =
    (i : String) × (j : Job) × (v i ≡ some j) × (is_live j.status ≡ true) × (j.release_handle ≡ h)

abbrev pub HasOtherLive : String → String → View → Type 0
HasOtherLive k h v =
    (i : String) × (j : Job) × (v i ≡ some j)
    × (is_live j.status ≡ true)
    × (j.release_handle ≡ h)
    × ((i == k) ≡ false)

abbrev pub Unchanged : View → View → Type 0
Unchanged v v' = (i : String) → v' i ≡ v i

-- The job is under its id, less the fields that are not stored, and the rest is unchanged.
abbrev pub Written : Job → View → View → Type 0
Written j v v' = (i : String) → v' i ≡ (if j.job_id == i then some (forget_projection j) else v i)

-- What the contract allows a request to answer, and to make of the map.
abbrev pub Allows : Request → View → Reply → View → Type 0
Allows (insert j) v reply v' =
    ((reply ≡ done)
      × (v j.job_id ≡ none)
      × ((is_live j.status ≡ false) ⊎ (¬ HasLive j.release_handle v))
      × Written j v v')
    ⊎ ((reply ≡ refused)
        × (((k : Job) × (v j.job_id ≡ some k))
            ⊎ ((is_live j.status ≡ true) × HasLive j.release_handle v))
        × Unchanged v v')
Allows (update j) v reply v' =
    ((reply ≡ done)
      × ((k : Job) × (v j.job_id ≡ some k))
      × ((is_live j.status ≡ false) ⊎ (¬ HasOtherLive j.job_id j.release_handle v))
      × Written j v v')
    ⊎ ((reply ≡ refused)
        × ((v j.job_id ≡ none)
            ⊎ ((is_live j.status ≡ true) × HasOtherLive j.job_id j.release_handle v))
        × Unchanged v v')
Allows (delete i) v reply v' =
    (reply ≡ done) × ((k : String) → v' k ≡ (if i == k then none else v k))
Allows (get i) v reply v' = (reply ≡ found (v i)) × Unchanged v v'
Allows (find_live_by_handle h) v reply v' =
    (((j : Job) × (reply ≡ found (some j))
        × (v j.job_id ≡ some j)
        × (is_live j.status ≡ true)
        × (j.release_handle ≡ h))
      ⊎ ((reply ≡ found none) × (¬ HasLive h v)))
    × Unchanged v v'

-- Every answer to a list of requests is allowed, from one map to the next.
abbrev pub Conforms : List Request → View → Table → Type 0
Conforms [] v t = Unit
Conforms (q ∷ qs) v t = (v' : View) × Allows q v (serve q t).0 v' × Conforms qs v' (serve q t).1
