-- ===== src/Restore/Runs/Rows.antt =====
-- What the statements of app/db_restore.py do to the row that an id names.
use backup_sentinel.Prelude.{
  if◌then◌else◌, Bool-cases, ◌==◌, filter, ℕ, suc, ◌≡◌, refl, ◌∙◌, inl, inr, Bool, true, false,
  ◌&&◌, Option, none, some, List, [], ◌∷◌, ◌++◌, arith, nat_eq, string_eq,
}
use backup_sentinel.Restore.Runs.{find_run, update_where, set_order, reorder_from}
use backup_sentinel.Restore.Types.{Run, is_queued}

abbrev pub rewritten : (Run → Bool) → (Run → Run) → Option Run → Option Run
rewritten p f none = none
rewritten p f (some r) = some (if p r then f r else r)

find_run-update_where :
    (run_id : ℕ) (p : Run → Bool) (f : Run → Run) (runs : List Run)
    → ((r : Run) → (f r).id ≡ r.id)
    → find_run run_id (update_where p f runs) ≡ rewritten p f (find_run run_id runs)
unfolding find_run update_where
find_run-update_where run_id p f [] keeps = refl
find_run-update_where run_id p f (r ∷ runs) keeps =
    ground (arith, keeps r, find_run-update_where run_id p f runs keeps)

-- The row of the id is there, and it does not wait in the queue.
abbrev pub IsStartedRow : ℕ → List Run → Type 0
IsStartedRow run_id runs =
    (r : Run) × (find_run run_id runs ≡ some r) × (is_queued r.status ≡ false)

pub update_where-IsStartedRow :
    (run_id : ℕ) (p : Run → Bool) (f : Run → Run) (runs : List Run)
    → ((r : Run) → (f r).id ≡ r.id)
    → ((r : Run) → p r ≡ true → is_queued r.status ≡ false → is_queued (f r).status ≡ false)
    → IsStartedRow run_id runs
    → IsStartedRow run_id (update_where p f runs)
update_where-IsStartedRow run_id p f runs keeps stays (r, found, started) =
    elim (Bool-cases (p r)) [
      | inl t ↦
          (f r, find_run-update_where run_id p f runs keeps ∙ rw (found, t) refl, stays r t started)
      | inr n ↦ (r, find_run-update_where run_id p f runs keeps ∙ rw (found, n) refl, started)
    ]

pub append-IsStartedRow :
    (run_id : ℕ) (runs more : List Run)
    → IsStartedRow run_id runs
    → IsStartedRow run_id (runs ++ more)
unfolding find_run
append-IsStartedRow run_id [] more (r, found, started) = absurd (cc found)
append-IsStartedRow run_id (s ∷ runs) more (r, found, started) =
    elim (Bool-cases (s.id == run_id)) [
      | inl e ↦ (r, rw e (rw e at found), started)
      | inr e ↦
          let (r', found', h) = append-IsStartedRow run_id runs more (r, rw e at found, started) in
          (r', rw e found', h)
    ]

find_run-filter :
    (run_id : ℕ) (p : Run → Bool) (runs : List Run) (r : Run)
    → find_run run_id runs ≡ some r
    → p r ≡ true
    → find_run run_id (filter p runs) ≡ some r
unfolding find_run
find_run-filter run_id p [] r found keep = absurd (cc found)
find_run-filter run_id p (s ∷ runs) r found keep = ground (arith, find_run-filter run_id p runs r)

pub filter-IsStartedRow :
    (run_id : ℕ) (p : Run → Bool) (runs : List Run)
    → ((r : Run) → is_queued r.status ≡ false → p r ≡ true)
    → IsStartedRow run_id runs
    → IsStartedRow run_id (filter p runs)
filter-IsStartedRow run_id p runs keeps (r, found, started) =
    (r, find_run-filter run_id p runs r found (keeps r started), started)

pub reorder_from-IsStartedRow :
    (run_id position : ℕ) (ids : List ℕ) (runs : List Run) (n : ℕ)
    → IsStartedRow run_id runs
    → IsStartedRow run_id (reorder_from position ids runs n).0
unfolding reorder_from set_order
reorder_from-IsStartedRow run_id position [] runs n h = h
reorder_from-IsStartedRow run_id position (i ∷ ids) runs n h =
    reorder_from-IsStartedRow run_id (suc position) ids _ _ (
      update_where-IsStartedRow run_id (λ r. r.id == i && is_queued r.status)
        (λ r. record r { sort_order = some position }) runs (λ r. refl) (λ r t e. e) h)

find_run-id :
    (run_id : ℕ) (runs : List Run) (r : Run)
    → find_run run_id runs ≡ some r
    → (r.id == run_id) ≡ true
unfolding find_run
find_run-id run_id [] r found = absurd (cc found)
find_run-id run_id (s ∷ runs) r found = ground (arith, found, find_run-id run_id runs r)

-- `UPDATE … WHERE id = %s` rewrites the row that the id finds.
pub find_run-update :
    (run_id : ℕ) (f : Run → Run) (runs : List Run) (r : Run)
    → ((r : Run) → (f r).id ≡ r.id)
    → find_run run_id runs ≡ some r
    → find_run run_id (update_where (λ r. r.id == run_id) f runs) ≡ some (f r)
find_run-update run_id f runs r keeps found =
    find_run-update_where run_id (λ r. r.id == run_id) f runs keeps
    ∙ rw (found, find_run-id run_id runs r found) refl
