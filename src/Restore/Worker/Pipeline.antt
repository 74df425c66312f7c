-- ===== src/Restore/Worker/Pipeline.antt =====
-- `execute` of app/services/restore_worker.py: the pipeline of one run.
pub mod Steady
pub mod Ends
use backup_sentinel.Prelude.{if◌then◌else◌, ℕ, ◌-◌, String, Bool, Option, none, some, List, [], ◌∷◌}
use backup_sentinel.Restore.Runs.{has_passed, cancel_requested}
use backup_sentinel.Restore.Effect.{
  Fault, restore_cancelled, failure, Act, pure, raise, query, try_except, transact, track, ◌>>◌,
  ◌>>=◌,
}
use backup_sentinel.Restore.Pack.{start}
use backup_sentinel.Restore.Types.{
  Result, cancelled, Status, running, Phase, preflight, helper, restoring, network, booting,
  probing, Checks, note, error_text,
}
use backup_sentinel.Restore.Worker.{RunPlan, Server, now, update}
use backup_sentinel.Restore.Runs.Fields.{
  status_to, restore_vmid_to, helper_vmid_to, vlan_tag_to, mgmt_ip_to, source_pbs_to,
  source_datastore_to, source_namespace_to, snapshot_id_to, target_storages_to, phase_to,
  detected_ip_to, started_at_to, task_upid_to, update_run,
}
use backup_sentinel.Restore.Worker.Probing.{probe_loop}
use backup_sentinel.Restore.Worker.Progress.{on_progress, fresh_tracker}
use backup_sentinel.Restore.Worker.Ending.{sweep, failure_diag, error_log, finalize}

-- `result`, `checks` and `log_text` when the pipeline is over
pub record Ran : Type 0 where
  pub result : Result
  pub checks : Checks
  pub log_text : String

module _ {H : Type 0} (s : Server H) (plan : RunPlan) (run_id : ℕ) where
  unfoldable pub cancel_asked : Act H Bool
  cancel_asked = query (cancel_requested run_id)

  unfoldable pub checkpoint : Act H Unit
  checkpoint = do
    stop ← cancel_asked
    if stop then raise (restore_cancelled "restore cancelled by operator") else pure tt

  unfoldable pub start_run : Act H Unit
  start_run = transact (λ db.
      update_run run_id
        (status_to running
          ∷ started_at_to db.clock
          ∷ restore_vmid_to (some plan.restore_vmid)
          ∷ helper_vmid_to (some plan.helper_vmid)
          ∷ vlan_tag_to (some plan.vlan_tag)
          ∷ mgmt_ip_to plan.mgmt_ip
          ∷ source_pbs_to plan.source.pbs
          ∷ source_datastore_to plan.source.datastore
          ∷ source_namespace_to plan.source.namespace
          ∷ snapshot_id_to (some plan.snapshot_id)
          ∷ target_storages_to (plan.target_storage ∷ [])
          ∷ [])
        db)

  unfoldable pub set_phase : Phase → Act H Unit
  set_phase phase = update run_id (phase_to phase ∷ [])

  unfoldable pub provision : Act H Unit
  provision =
      s.provision_helper plan.helper_vmid plan.vlan_tag plan.mgmt_ip plan.sandbox_ip plan.primary_ip
        plan.sandbox_prefix plan.guest_vlan plan.label

  unfoldable pub restore_guest : Act H Unit
  restore_guest = do
    track fresh_tracker
    s.restore plan.restore_vmid plan.source plan.snapshot_id plan.target_storage
        (on_progress s run_id plan.restore_vmid) (λ upid. update run_id (task_upid_to upid ∷ []))
        cancel_asked plan.disk_targets

  unfoldable pub prepare : List String → Act H Unit
  prepare production_hosts = do
    s.verify_host_identity production_hosts
    sweep s plan
    s.ensure_sandbox_bridge
    checkpoint
    set_phase preflight
    s.preflight_check plan.source plan.snapshot_id
    checkpoint
    set_phase helper
    provision

  unfoldable pub boot : Act H Unit
  boot = do
    checkpoint
    set_phase restoring
    restore_guest
    checkpoint
    set_phase network
    s.rewrite_nics plan.restore_vmid plan.vlan_tag plan.guest_vlan plan.label
    set_phase booting
    s.wait_unlocked plan.restore_vmid
    s.start plan.restore_vmid

  unfoldable pub note_primary : Option ℕ → Act H Unit
  note_primary none = pure tt
  note_primary (some ip) = update run_id (detected_ip_to (some ip) ∷ [])

  unfoldable pub test_guest : Act H Ran
  test_guest = do
    set_phase probing
    note_primary plan.primary_ip
    (result, checks) ← probe_loop s plan run_id cancel_asked
    if has_passed (some result)
        then pure (record { result = result; checks = checks; log_text = "" })
        else (do
          diag ← failure_diag s plan
          pure (record { result = result; checks = checks; log_text = diag }))

  -- the `except` branches
  unfoldable pub run_failed : Fault → Act H Ran
  run_failed (restore_cancelled _) =
      pure (record { result = cancelled; checks = note "cancelled by operator"; log_text = "" })
  run_failed (failure message) = do
    log ← error_log s plan message
    pure (record { result = Result.error; checks = error_text message; log_text = log })

  unfoldable pub pipeline : List String → Act H Ran
  pipeline production_hosts = try_except (prepare production_hosts >> boot >> test_guest) run_failed

  unfoldable pub execute : List String → Act H Status
  execute production_hosts = do
    start ← now s
    start_run
    ran ← pipeline production_hosts
    end ← now s
    finalize s plan run_id ran.result ran.checks (end - start) ran.log_text
