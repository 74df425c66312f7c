-- ===== src/Restore/Recover.antt =====
-- `recover_stuck_runs` and `run_restore_queue` of app/services/restore_orchestrator.py.
pub mod Spares
use backup_sentinel.Prelude.{
  ltb, if◌then◌else◌, ◌==◌, is_empty, contains, ℕ, ◌+◌, String, Bool, true, false, not, ◌&&◌,
  Option, none, some, List, [], ◌∷◌, nat_eq, string_eq,
}
use backup_sentinel.Restore.Runs.{request_cancel}
use backup_sentinel.Restore.Drain.{dequeue, drain, enqueue_due}
use backup_sentinel.Restore.Effect.{Act, pure, query, transact, ◌>>◌, attempt, ◌>>=◌}
use backup_sentinel.Restore.Planner.{Config}
use backup_sentinel.Restore.Types.{Checks, error_text, Run}
use backup_sentinel.Restore.Worker.{now}
use backup_sentinel.Restore.Worker.Held.{listed_running}
use backup_sentinel.Restore.Worker.Ending.{teardown}
use backup_sentinel.Restore.Planner.Again.{plan_from_run}
use backup_sentinel.Restore.Planner.Build.{Orchestra}

-- `STUCK_RUN_GRACE_SECONDS`
abbrev pub stuck_run_grace_seconds : ℕ
stuck_run_grace_seconds = 180

-- too fresh: the run may still be provisioning
abbrev pub is_fresh : ℕ → Run → Bool
is_fresh now run = elim run.started_at [
  | none ↦ false
  | some started ↦ ltb now (started + stuck_run_grace_seconds)
]

-- its restore VM is on the host
abbrev pub is_present : List ℕ → Run → Bool
is_present present run = elim run.restore_vmid [
  | none ↦ false
  | some vmid ↦ not (vmid == 0) && contains present vmid
]

abbrev stuck_checks : Checks
stuck_checks = error_text "recovered: run was stuck 'running' with no environment on the host"

module _ {H : Type 0} (o : Orchestra H) (config : Config) where
  abbrev pub task_of : Option String → Act H Bool
  task_of none = pure false
  task_of (some upid) = if upid == "" then pure false else o.task_running upid

  unfoldable pub is_alive : List ℕ → Run → Act H Bool
  is_alive present run = if is_present present run then pure true else task_of run.task_upid

  unfoldable pub teardown_run : Run → Act H Unit
  teardown_run run = attempt tt (do plan ← plan_from_run o config run; teardown o.server plan)

  unfoldable pub recover_run : Run → Act H Unit
  recover_run run = do
    attempt tt (transact (λ db. (request_cancel run.id db).0))
    teardown_run run
    dequeue run (some stuck_checks)

  -- the body of the loop; whether the run was recovered
  unfoldable pub check_run : ℕ → List ℕ → Run → Act H Bool
  check_run now present run = if is_fresh now run then pure false else (do
    alive ← is_alive present run
    if alive then pure false else recover_run run >> pure true)

  -- the `for` loop, with the count so far
  unfoldable pub recover_each : ℕ → List ℕ → List Run → ℕ → Act H ℕ
  recover_each now present [] n = pure n
  recover_each now present (run ∷ runs) n = do
    done ← check_run now present run
    recover_each now present runs (if done then n + 1 else n)

  -- from where the host was asked; `none` where it is unreachable
  unfoldable pub recover_with : List Run → Option (List ℕ) → Act H ℕ
  recover_with runs none = pure 0
  recover_with runs (some present) = do
    now ← query (λ db. db.clock)
    recover_each now present runs 0

  unfoldable pub recover_stuck_runs : Act H ℕ
  recover_stuck_runs = do
    runs ← query listed_running
    if is_empty runs then pure 0 else (do
      found ← attempt none (do present ← o.present_vmids; pure (some present))
      recover_with runs found)

-- `run_restore_queue`, given the configuration that `load` found, with the fuel of `drain`
unfoldable pub run_restore_queue : {H : Type 0} → Orchestra H → ℕ → Option Config → Act H Unit
run_restore_queue o fuel none = pure tt
run_restore_queue o fuel (some config) =
    attempt tt do recover_stuck_runs o config; enqueue_due o; drain o fuel config
