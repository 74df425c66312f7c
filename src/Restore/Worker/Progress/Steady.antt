-- ===== src/Restore/Worker/Progress/Steady.antt =====
-- The progress callback and the end of a run come to an end and leave steady predicates alone.
use backup_sentinel.Prelude.{any, ℕ, ◌≡◌, false, arith}
use backup_sentinel.Restore.Effect.{Tracker, World}
use backup_sentinel.Restore.Worker.{ProgressLine, Server}
use backup_sentinel.Restore.Effect.Runs.{
  Runs, pure-Runs, tracked-Runs, if-Runs, attempt-Runs, bind-Runs,
}
use backup_sentinel.Restore.Runs.Invariant.{sets_status}
use backup_sentinel.Restore.Worker.Progress.{
  overall_restore_fields, progress_fields, is_new_drive, fields_to_write, read_total, on_drive,
  on_progress,
}
use backup_sentinel.Restore.Worker.Laws.{IsSteady, IsServer, IsLocal-Runs, update-Runs, track-Runs}

fields_to_write-quiet :
    (p : ProgressLine) (st : Tracker) → any sets_status (fields_to_write p st) ≡ false
unfolding fields_to_write overall_restore_fields progress_fields
fields_to_write-quiet p st = ground arith

module _ {H : Type 0} {s : Server H} {run_id : ℕ} {P : World H → Type 0} (laws : IsServer s)
    (p : IsSteady s run_id P) where
  read_total-Runs : (vmid : ℕ) → Runs P (read_total s run_id vmid)
  unfolding read_total
  read_total-Runs vmid = attempt-Runs _ _ (
      bind-Runs _ _ (IsLocal-Runs _ p (laws.restore_total_bytes vmid))
        λ total. bind-Runs _ _ tracked-Runs λ st. track-Runs _ p)

  on_drive-Runs : (vmid : ℕ) (line : ProgressLine) → Runs P (on_drive s run_id vmid line)
  unfolding on_drive
  on_drive-Runs vmid line = bind-Runs _ _ tracked-Runs λ st.
      if-Runs (is_new_drive line.drive st.cur_drive) _ _
        (bind-Runs _ _ (track-Runs _ p) λ _. read_total-Runs vmid) (pure-Runs tt)

  pub on_progress-Runs : (vmid : ℕ) (line : ProgressLine) → Runs P (on_progress s run_id vmid line)
  unfolding on_progress
  on_progress-Runs vmid line = bind-Runs _ _ (on_drive-Runs vmid line) λ _.
      bind-Runs _ _ tracked-Runs λ st.
        bind-Runs _ _ (track-Runs _ p)
          λ _. bind-Runs _ _ tracked-Runs λ st'. update-Runs _ p (fields_to_write-quiet line st')
