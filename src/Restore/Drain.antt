-- ===== src/Restore/Drain.antt =====
-- The queue in app/services/restore_orchestrator.py: `enqueue_due`, `_fits_disk`, `_fits_ram` and
-- `drain`. What starts a run is a parameter; `drain` takes `execute` of the worker for it.
pub mod Plans
pub mod Starts
pub mod Enqueue
use backup_sentinel.Prelude.{
  if◌then◌else◌, ◌==◌, is_empty, contains, ℕ, zero, suc, ◌+◌, String, Bool, true, false, not, ◌&&◌,
  ◌||◌, Option, none, some, List, [], ◌∷◌, map, nat_eq, string_eq,
}
use backup_sentinel.Restore.Runs.{Vm, create_run, list_queued_runs, has_active_run}
use backup_sentinel.Restore.Match.{HostEntry, is_auto_restorable}
use backup_sentinel.Restore.Target.{fits_target}
use backup_sentinel.Restore.Effect.{Act, pure, diverge, query, transact, ◌>>◌, attempt, ◌>>=◌}
use backup_sentinel.Restore.Planner.{
  Candidate, Tables, Config, Resources, vm_backup_locations, candidate_for_vm, vm_disk_rows,
}
use backup_sentinel.Restore.Types.{Result, Status, finished, scheduled, Checks, error_text, Run}
use backup_sentinel.Restore.Worker.{RunPlan, fits_ram}
use backup_sentinel.Restore.Runs.Results.{
  Extras, no_extras, record_run_result, due_auto_restore_candidates,
}
use backup_sentinel.Restore.Worker.Pipeline.{execute}
use backup_sentinel.Restore.Planner.Build.{
  Planned, ready, no_resources, not_runnable, Orchestra, is_container, avail_of, host_entries,
  build_plan,
}

-- How the body of the loop over the queue ends: at the next run, at the return of `drain`, or at the
-- `break` after a run.
pub data Verdict : Type 0 where
  next_run stop_here broke : Verdict

abbrev pub error_extras : Option Checks → Extras
error_extras checks = record no_extras { checks = checks; status = some (finished Result.error) }

unfoldable pub dequeue : {H : Type 0} → Run → Option Checks → Act H Unit
dequeue run checks =
    transact (λ db. (record_run_result run.id run.vm_id Result.error 0 (error_extras checks) db).0)

-- `set(plan.disk_targets.values()) if plan.disk_targets else {plan.target_storage}`
abbrev pub plan_storages : RunPlan → List String
plan_storages plan = elim plan.disk_targets [
  | none ↦ plan.target_storage ∷ []
  | some targets ↦ if is_empty targets then plan.target_storage ∷ [] else map (λ t. t.1) targets
]

abbrev pub is_busy : String → RunPlan → Bool
is_busy busy plan = not (busy == "") && contains (plan_storages plan) busy

module _ {H : Type 0} (o : Orchestra H) where
  -- `none` where the check of the free resources failed
  unfoldable pub resources_now : Act H (Option Resources)
  resources_now = attempt none (do r ← o.free_resources; pure (some r))

  abbrev disk_fits : RunPlan → Tables → Option Resources → Bool
  disk_fits plan tables none = true
  disk_fits plan tables (some r) =
      fits_target (avail_of r.stores) (vm_disk_rows tables plan.vm_id) plan

  unfoldable pub fits_disk_now : RunPlan → Act H Bool
  fits_disk_now plan = do r ← resources_now; tables ← o.tables; pure (disk_fits plan tables r)

  abbrev ram_fits : RunPlan → Option Resources → Bool
  ram_fits plan none = true
  ram_fits plan (some r) = fits_ram r.ram_free r.ram_total plan.needed_ram

  unfoldable pub fits_ram_now : RunPlan → Act H Bool
  fits_ram_now plan = do r ← resources_now; pure (ram_fits plan r)

  module _ (config : Config) (begin : RunPlan → ℕ → List String → Act H Status)
      (production_hosts : List String) where
    unfoldable pub start_planned : Run → RunPlan → Act H Verdict
    start_planned run plan = do
      result ← begin plan run.id production_hosts
      o.notify run.vm_id result
      pure broke

    unfoldable pub check_busy : Run → RunPlan → Act H Verdict
    check_busy run plan = do
      busy ← o.running_storage
      if is_busy busy plan then pure next_run else start_planned run plan

    unfoldable pub check_ram : Run → RunPlan → Act H Verdict
    check_ram run plan = do
      fits ← fits_ram_now plan
      if fits then check_busy run plan else pure next_run

    unfoldable pub try_planned : Run → Planned → Act H Verdict
    try_planned run (not_runnable reason) = dequeue run (some (error_text reason)) >> pure next_run
    try_planned run no_resources = pure stop_here
    try_planned run (ready plan) = do
      fits ← fits_disk_now plan
      if fits then check_ram run plan else pure next_run

    unfoldable pub try_candidate : Run → Option Candidate → Act H Verdict
    try_candidate run none = dequeue run none >> pure next_run
    try_candidate run (some c) = build_plan o config c >>= try_planned run

    -- the body of the `for` loop
    unfoldable pub try_run : Run → Act H Verdict
    try_run run = do tables ← o.tables; try_candidate run (candidate_for_vm tables run.vm_id)

    -- the `for` loop; whether a run was executed, so that the queue is looked at again
    unfoldable pub drain_runs : List Run → Act H Bool
    drain_runs [] = pure false
    drain_runs (run ∷ runs) = do
      verdict ← try_run run
      elim verdict [ next_run ↦ drain_runs runs | stop_here ↦ pure false | broke ↦ pure true ]

    -- the body of the `while` loop
    unfoldable pub drain_once : Act H Bool
    drain_once = do
      paused ← o.queue_paused
      active ← query has_active_run
      if paused || active then pure false else query list_queued_runs >>= drain_runs

    -- the `while` loop on fuel
    unfoldable pub drain_from : ℕ → Act H Unit
    drain_from zero = diverge
    drain_from (suc fuel) = do again ← drain_once; if again then drain_from fuel else pure tt

  unfoldable pub drain : ℕ → Config → Act H Unit
  drain fuel config = do
    hosts ← o.production_endpoints
    drain_from config (λ plan run_id production. execute o.server plan run_id production) hosts fuel

  -- the `for` loop of `enqueue_due`, with the count so far
  unfoldable pub enqueue_each : Tables → List HostEntry → List Vm → ℕ → Act H ℕ
  enqueue_each tables entries [] n = pure n
  enqueue_each tables entries (v ∷ vms) n =
      if not (is_container v.guest_type)
        && is_auto_restorable (vm_backup_locations tables v.id) entries
      then transact (λ db. (create_run v.id scheduled db).0)
        >> enqueue_each tables entries vms (n + 1)
      else enqueue_each tables entries vms n

  -- the backups of the VMs are read once
  unfoldable pub enqueue_due : Act H ℕ
  enqueue_due = do
    entries ← host_entries o
    tables ← o.tables
    due ← query due_auto_restore_candidates
    enqueue_each tables entries due 0
