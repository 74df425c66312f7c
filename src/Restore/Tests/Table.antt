-- ===== src/Restore/Tests/Table.antt =====
-- The runs table: a small queue, reordered and worked off.
use backup_sentinel.Prelude.{ℕ, ◌≡◌, refl, [], ◌∷◌, map, arith}
use backup_sentinel.Restore.Runs.{Db, new_run, list_queued_runs, reorder_queue}
use backup_sentinel.Restore.Types.{Status, queued, running, scheduled, Run}
use backup_sentinel.Restore.Runs.Reorder.{reordered, mentioned, reorder_queue_lem}
use backup_sentinel.Restore.Runs.Invariant.{IsSound}
use backup_sentinel.Restore.Runs.Results.{round_minutes}

abbrev empty_db : Db
empty_db = record {
  runs = [];
  tests = [];
  vms = [];
  next_run_id = 1;
  next_test_id = 1;
  clock = 1000;
}

abbrev row : ℕ → ℕ → Status → Run
row id vm_id status = record (new_run empty_db vm_id scheduled) { id = id; status = status }

-- Run 1 is running, runs 2 and 3 wait.
abbrev queue_db : Db
queue_db = record empty_db {
  runs = row 1 7 running ∷ row 2 8 queued ∷ row 3 9 queued ∷ [];
  next_run_id = 4;
}

queue_db-IsSound : IsSound queue_db
unfolding new_run
queue_db-IsSound = record {
  below = (omega arith, (omega arith, (omega arith, tt)));
  distinct = ((omega arith, (omega arith, tt)), ((omega arith, tt), (tt, tt)));
  one_live = λ vm_id. ground arith;
}

-- A drag that names the running run too moves only the two that wait.
reorders :
    map (λ r. r.id) (list_queued_runs (reorder_queue (1 ∷ 3 ∷ 2 ∷ []) queue_db).0) ≡ 3 ∷ 2 ∷ []
unfolding list_queued_runs reorder_queue new_run
reorders = refl

-- A minute and a half is rounded to two, two and a half too.
rounds_half_to_even : map round_minutes (90 ∷ 150 ∷ 29 ∷ 31 ∷ []) ≡ 2 ∷ 2 ∷ 0 ∷ 1 ∷ []
unfolding round_minutes
rounds_half_to_even = refl

reorder_queue_lem_example : reorder_queue (3 ∷ 2 ∷ []) queue_db ≡ (
  record queue_db { runs = map (reordered 0 (3 ∷ 2 ∷ [])) queue_db.runs },
  mentioned (3 ∷ 2 ∷ []) queue_db.runs,
)
reorder_queue_lem_example = reorder_queue_lem (3 ∷ 2 ∷ []) queue_db
