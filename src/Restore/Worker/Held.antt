-- ===== src/Restore/Worker/Held.antt =====
-- Held environments in app/services/restore_worker.py: a new test, the promotion of a run, its
-- discarding; and `reconcile_on_startup`.

use backup_sentinel.Prelude.{
  ltb, leb, if◌then◌else◌, ◌==◌, filter, ℕ, zero, suc, Bool, false, Option, none, some, List, [],
  ◌∷◌, nat_eq, string_eq,
}
use backup_sentinel.Prelude.Sort.{sort_by}
use backup_sentinel.Restore.Runs.{Db, get_run}
use backup_sentinel.Restore.Effect.{Fault, failure, Act, pure, raise, query, transact, ◌>>=◌, ◌>>◌}
use backup_sentinel.Restore.Types.{Result, passed, failed, finished, Run, is_running}
use backup_sentinel.Restore.Worker.{RunPlan, Server, update}
use backup_sentinel.Restore.Runs.Fields.{
  status_to, result_to, checks_to, finished_at_to, update_run,
}
use backup_sentinel.Restore.Runs.Results.{no_extras, set_vm_next_run, schedule_retry}
use backup_sentinel.Restore.Worker.Probing.{probe_loop}
use backup_sentinel.Restore.Worker.Progress.{or_zero}
use backup_sentinel.Restore.Worker.Ending.{teardown, record_result}

module _ {H : Type 0} (s : Server H) (plan : RunPlan) (run_id : ℕ) where
  -- without a check for a cancellation
  unfoldable pub retest_held : Act H Result
  retest_held = do
    (result, checks) ← probe_loop s plan run_id (query (λ _. false))
    update run_id (checks_to checks ∷ [])
    pure result

  unfoldable pub promote_held : ℕ → Act H Unit
  promote_held duration = do
    teardown s plan
    record_result s plan run_id passed duration
        (record no_extras { evidence_note = "promoted after manual fix + green re-test" })
    transact (set_vm_next_run plan.vm_id none)

  -- `run.get("duration_seconds")` of a run that is not there
  abbrev none_has_no_get : Fault
  none_has_no_get = failure "'NoneType' object has no attribute 'get'"

  abbrev failure_of : Option Result → Result
  failure_of (some failed) = failed
  failure_of (some Result.error) = Result.error
  failure_of _ = failed

  unfoldable pub discard : Option Run → Act H Unit
  discard none = raise none_has_no_get
  discard (some run) = do
    record_result s plan run_id (failure_of run.result) (or_zero run.duration_seconds)
        (record no_extras { status = some (finished (failure_of run.result)) })
    transact (schedule_retry plan.vm_id plan.retry_days)

  unfoldable pub reap_held : Act H Unit
  reap_held = do teardown s plan; run ← query (get_run run_id); discard run

abbrev started_or_queued : Run → ℕ
started_or_queued r = elim r.started_at [ none ↦ r.queued_at | some t ↦ t ]

-- `COALESCE(r.started_at, r.queued_at) DESC, r.id DESC`
unfoldable pub newest_first : Run → Run → Bool
newest_first a b =
    if started_or_queued a == started_or_queued b
    then leb b.id a.id
    else ltb (started_or_queued b) (started_or_queued a)

abbrev first_of : ℕ → List Run → List Run
first_of zero runs = []
first_of (suc n) [] = []
first_of (suc n) (r ∷ runs) = r ∷ first_of n runs

-- `list_runs(limit=500, status="running")`
unfoldable pub listed_running : Db → List Run
listed_running db = first_of 500 (sort_by newest_first (filter (λ r. is_running r.status) db.runs))

unfoldable pub fail_runs : List Run → Db → Db
fail_runs [] db = db
fail_runs (r ∷ runs) db = fail_runs runs (
    update_run r.id
      (status_to (finished Result.error) ∷ result_to Result.error ∷ finished_at_to db.clock ∷ [])
      db)

-- `is_configured`: whether `restore_config.load()` finds a configuration
unfoldable pub reconcile_on_startup : Bool → Db → Db
reconcile_on_startup is_configured db =
    if is_configured then db else fail_runs (listed_running db) db
