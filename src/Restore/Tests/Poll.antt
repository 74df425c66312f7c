-- ===== src/Restore/Tests/Poll.antt =====
-- A task that stops after twelve seconds.
use backup_sentinel.Prelude.{
  leb, if◌then◌else◌, le→leb, ◌==◌, ℕ, String, ◌≡◌, refl, true, false, none, some, [], ◌∷◌, arith,
  nat_eq, string_eq,
}
use backup_sentinel.Restore.Runs.{new_run, find_run}
use backup_sentinel.Restore.Poll.{
  TaskStatus, going_on, stopped, LogLine, TaskApi, stall_exceeded, poll_task,
}
use backup_sentinel.Restore.Effect.{returned, Act, pure}
use backup_sentinel.Restore.TaskError.{backup_error_hint}
use backup_sentinel.Restore.Worker.{ProgressLine}
use backup_sentinel.Restore.Tests.Worker.{
  quick, test_server, quick-IsLocal, test_server-IsServer, started_run, world_with,
}
use backup_sentinel.Restore.Poll.Stall.{stall_exceeded-early}
use backup_sentinel.Restore.Poll.Ends.{StopsBy}
use backup_sentinel.Restore.Poll.Keeps.{IsTaskApi, AreCallbacks}
use backup_sentinel.Restore.Poll.Followed.{poll_task-RunsAt}
use backup_sentinel.Restore.Effect.Runs.{RunsAt, pure-Runs}
use backup_sentinel.Restore.Worker.Laws.{here}
use backup_sentinel.Restore.Worker.Pipeline.Ends.{Underway, Underway-IsSteady}

abbrev status_at : ℕ → TaskStatus
status_at t = if leb 12 t then stopped (some "OK") else going_on

abbrev half_line : LogLine
half_line = record {
  text = "progress 50%";
  drive = some "drive-scsi0";
  progress =
      some
        (record { percent_read = some 50; bytes_read = none; bytes_in_all = none; drive = none });
}

abbrev test_tasks : TaskApi ℕ
test_tasks = record {
  node = quick "pve";
  delete_task = λ _ _. quick tt;
  get_task = λ _ _ w. (w, returned (status_at w.host));
  get_log = λ _ _ seen. quick (if seen == 0 then half_line ∷ [] else []);
}

test_tasks-IsTaskApi : IsTaskApi test_server test_tasks
test_tasks-IsTaskApi = record {
  node = quick-IsLocal "pve";
  delete_task = λ _ _. quick-IsLocal tt;
  get_task = λ _ _. record {
    later = λ w. here w.db;
    clock = λ w. omega arith;
    tracker = λ w. refl;
    over = λ w. tt;
  };
  get_log = λ _ _ seen. quick-IsLocal _;
}

test_tasks-StopsBy : (node : String) → StopsBy test_server test_tasks node "UPID:1" 12
test_tasks-StopsBy node = record {
  has_stopped = λ w late. (some "OK", rw (le→leb 12 w.host late) refl);
  has_log = λ seen w late. ((if seen == 0 then half_line ∷ [] else []), refl);
}

abbrev no_progress : ProgressLine → Act ℕ Unit
no_progress _ = pure tt

silent-AreCallbacks : AreCallbacks test_server 1 no_progress (pure false)
silent-AreCallbacks = record {
  on_progress = λ P line p. pure-Runs tt;
  should_cancel = λ P p. pure-Runs false;
}

poll_task-RunsAt_example :
    RunsAt
      (Underway 1)
      (poll_task test_server test_tasks 13 60 5 "UPID:1" no_progress (pure false))
      (world_with started_run)
unfolding new_run find_run
poll_task-RunsAt_example =
    poll_task-RunsAt test_server-IsServer test_tasks-IsTaskApi silent-AreCallbacks "UPID:1" 60 5 12
      (Underway-IsSteady test_server 1) test_tasks-StopsBy 12 (world_with started_run) (omega arith)
      (started_run, refl, refl) (omega arith)

-- the time at which the loop ends
abbrev polled : ℕ
polled =
    (poll_task test_server test_tasks 13 60 5 "UPID:1" no_progress (pure false)
      (world_with started_run)).0.host

-- After an hour at one percent a quarter of an hour of silence is no stall, at fifty percent it is.
early_silence : stall_exceeded 1000 1 3600 60 ≡ false
unfolding stall_exceeded
early_silence = refl

late_silence : stall_exceeded 1000 50 3600 60 ≡ true
unfolding stall_exceeded
late_silence = refl

stall_exceeded-early_example : stall_exceeded 3600 6 3600 60 ≡ false
stall_exceeded-early_example =
    stall_exceeded-early 3600 6 3600 60 (omega arith) (omega arith) (omega arith)

hints :
    backup_error_hint "Error: Permission check failed"
    ≡ "permission denied reading the backup — check the PBS user's rights on this datastore/namespace"
unfolding backup_error_hint
hints = refl
