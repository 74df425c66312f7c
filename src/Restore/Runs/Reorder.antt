-- ===== src/Restore/Runs/Reorder.antt =====
-- `reorder_queue`: its loop of updates is one pass over the rows, and rows that have left the queue
-- are not touched.
use backup_sentinel.Prelude.{
  if◌then◌else◌, Bool-cases, ◌==◌, filter, count, ℕ, suc, ◌+◌, ◌≡◌, refl, ap, inl, inr, not, ◌&&◌,
  Option, some, List, [], ◌∷◌, map, arith, nat_eq, string_eq,
}
use backup_sentinel.Restore.Runs.{
  update_where, set_order, Db, queued_with_id, reorder_from, reorder_queue,
}
use backup_sentinel.Restore.Types.{Run, is_queued}

-- The position that a run gets: that of the last mention of its id, or the old one.
pub order_of : ℕ → List ℕ → ℕ → Option ℕ → Option ℕ
order_of position [] id old = old
order_of position (i ∷ ids) id old =
    order_of (suc position) ids id (if id == i then some position else old)

unfoldable pub reordered : ℕ → List ℕ → Run → Run
reordered position ids r =
    if is_queued r.status
    then record r { sort_order = order_of position ids r.id r.sort_order }
    else r

abbrev ordered : ℕ → ℕ → Run → Run
ordered position run_id r =
    if r.id == run_id && is_queued r.status then record r { sort_order = some position } else r

set_order-map :
    (position run_id : ℕ) (runs : List Run)
    → set_order position run_id runs ≡ map (ordered position run_id) runs
unfolding set_order update_where
set_order-map position run_id [] = refl
set_order-map position run_id (r ∷ runs) = ground (arith, set_order-map position run_id runs)

reordered-ordered :
    (position run_id : ℕ) (ids : List ℕ) (r : Run)
    → reordered (suc position) ids (ordered position run_id r) ≡ reordered position (run_id ∷ ids) r
unfolding reordered order_of
reordered-ordered position run_id ids r = elim (Bool-cases (is_queued r.status)) [
  | inl q ↦ elim (Bool-cases (r.id == run_id)) [ inl e ↦ rw (q, e, q) | inr e ↦ rw (q, e, q) ]
  | inr n ↦ elim (Bool-cases (r.id == run_id)) [ inl e ↦ rw (n, e, n) | inr e ↦ rw (n, e, n) ]
]

reordered-nil : (position : ℕ) (runs : List Run) → map (reordered position []) runs ≡ runs
unfolding reordered order_of
reordered-nil position [] = refl
reordered-nil position (r ∷ runs) = elim (Bool-cases (is_queued r.status)) [
  | inl q ↦ rw (q, reordered-nil position runs)
  | inr n ↦ rw (n, reordered-nil position runs)
]

map-reordered-ordered :
    (position run_id : ℕ) (ids : List ℕ) (runs : List Run)
    → map (reordered (suc position) ids) (map (ordered position run_id) runs)
      ≡ map (reordered position (run_id ∷ ids)) runs
map-reordered-ordered position run_id ids [] = refl
map-reordered-ordered position run_id ids (r ∷ runs) =
    rw (reordered-ordered position run_id ids r, map-reordered-ordered position run_id ids runs)

any-queued_map :
    (position run_id i : ℕ) (runs : List Run)
    → count (queued_with_id i) (map (ordered position run_id) runs) ≡ count (queued_with_id i) runs
unfolding queued_with_id
any-queued_map position run_id i [] = refl
any-queued_map position run_id i (r ∷ runs) = ground (arith, any-queued_map position run_id i runs)

-- The number of rows that a list of ids mentions in the queue.
pub mentioned : List ℕ → List Run → ℕ
mentioned [] runs = 0
mentioned (i ∷ ids) runs = count (queued_with_id i) runs + mentioned ids runs

mentioned-ordered :
    (position run_id : ℕ) (ids : List ℕ) (runs : List Run)
    → mentioned ids (map (ordered position run_id) runs) ≡ mentioned ids runs
unfolding mentioned
mentioned-ordered position run_id [] runs = refl
mentioned-ordered position run_id (i ∷ ids) runs =
    rw (any-queued_map position run_id i runs, mentioned-ordered position run_id ids runs)

reorder_from_lem :
    (position : ℕ) (ids : List ℕ) (runs : List Run) (updated : ℕ)
    → reorder_from position ids runs updated
      ≡ (map (reordered position ids) runs, updated + mentioned ids runs)
unfolding reorder_from mentioned
reorder_from_lem position [] runs updated =
    rw (reordered-nil position runs) (ap (λ (n : ℕ). (runs, n)) (omega arith))
reorder_from_lem position (i ∷ ids) runs updated =
    rw
      (
        set_order-map position i runs,
        reorder_from_lem (suc position) ids (map (ordered position i) runs)
            (updated + count (queued_with_id i) runs),
        map-reordered-ordered position i ids runs,
        mentioned-ordered position i ids runs,
      )
      (ap (λ (n : ℕ). (map (reordered position (i ∷ ids)) runs, n)) (omega arith))

-- The loop of updates gives each queued row the position of its id in the list and leaves every other
-- row and column alone; the number returned counts the queued rows named, for each naming.
pub reorder_queue_lem :
    (ids : List ℕ) (db : Db)
    → reorder_queue ids db
      ≡ (record db { runs = map (reordered 0 ids) db.runs }, mentioned ids db.runs)
unfolding reorder_queue
reorder_queue_lem ids db =
    rw (reorder_from_lem 0 ids db.runs 0)
      (ap (λ (n : ℕ). (record db { runs = map (reordered 0 ids) db.runs }, n)) (omega arith))

filter-reordered :
    (ids : List ℕ) (runs : List Run)
    → filter (λ r. not (is_queued r.status)) (map (reordered 0 ids) runs)
      ≡ filter (λ r. not (is_queued r.status)) runs
unfolding reordered
filter-reordered ids [] = refl
filter-reordered ids (r ∷ runs) = elim (Bool-cases (is_queued r.status)) [
  | inl q ↦ rw (q, q, filter-reordered ids runs)
  | inr n ↦ rw (n, n, filter-reordered ids runs)
]

-- A reordering, however stale, changes no run that has been started, is held or has finished.
reorder_queue-started :
    (ids : List ℕ) (db : Db)
    → filter (λ r. not (is_queued r.status)) (reorder_queue ids db).0.runs
      ≡ filter (λ r. not (is_queued r.status)) db.runs
reorder_queue-started ids db = rw (reorder_queue_lem ids db) (filter-reordered ids db.runs)
