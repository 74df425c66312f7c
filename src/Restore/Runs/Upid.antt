-- ===== src/Restore/Runs/Upid.antt =====
-- The column `task_upid` is not in `_UPDATABLE` of app/db_restore.py.
use backup_sentinel.Prelude.{
  Bool-cases, ◌==◌, filter, ℕ, ◌≡◌, refl, ◌∙◌, inl, inr, Bool, true, List, [], ◌∷◌, map, arith,
  nat_eq, string_eq,
}
use backup_sentinel.Restore.Runs.{Db, update_where}
use backup_sentinel.Restore.Types.{Run}
use backup_sentinel.Restore.Runs.Fields.{Field, is_updatable, write, write_all, update_run}

write-task_upid :
    (f : Field) (r : Run) → is_updatable f ≡ true → (write f r).task_upid ≡ r.task_upid
unfolding write is_updatable
write-task_upid f r h = ground (arith, h)

write_all-task_upid :
    (fields : List Field) (r : Run)
    → (write_all (filter is_updatable fields) r).task_upid ≡ r.task_upid
unfolding write_all
write_all-task_upid [] r = refl
write_all-task_upid (f ∷ fields) r = elim (Bool-cases (is_updatable f)) [
  | inl u ↦ rw u (write_all-task_upid fields (write f r) ∙ write-task_upid f r u)
  | inr n ↦ rw n (write_all-task_upid fields r)
]

upids-update_where :
    (p : Run → Bool) (f : Run → Run) (runs : List Run)
    → ((r : Run) → (f r).task_upid ≡ r.task_upid)
    → map (λ r. r.task_upid) (update_where p f runs) ≡ map (λ r. r.task_upid) runs
unfolding update_where
upids-update_where p f [] h = refl
upids-update_where p f (r ∷ runs) h = ground (arith, h r, upids-update_where p f runs h)

-- No update of a run writes the id of its restore task, though the worker asks for it.
pub update_run-task_upid :
    (run_id : ℕ) (fields : List Field) (db : Db)
    → map (λ r. r.task_upid) (update_run run_id fields db).runs ≡ map (λ r. r.task_upid) db.runs
unfolding update_run
update_run-task_upid run_id fields db =
    upids-update_where (λ r. r.id == run_id) (write_all (filter is_updatable fields)) db.runs
      (write_all-task_upid fields)
