-- ===== src/Restore/Worker/Pipeline/Steady.antt =====
-- The pipeline of a run returns, and leaves steady predicates alone.
use backup_sentinel.Prelude.{ℕ, ◌≤◌, String, refl, Option, none, some, List}
use backup_sentinel.Restore.Runs.{has_passed, cancel_requested}
use backup_sentinel.Restore.Effect.{Fault, restore_cancelled, failure, World}
use backup_sentinel.Restore.Types.{Phase, preflight, restoring, network, booting, probing}
use backup_sentinel.Restore.Worker.{RunPlan, Server}
use backup_sentinel.Restore.Effect.Runs.{
  Runs, pure-Runs, raise-Runs, query-Runs, if-Runs, bind-Runs,
}
use backup_sentinel.Restore.Effect.Returns.{Returns, pure-Returns, try_except-Returns, bind-Returns}
use backup_sentinel.Restore.Worker.Laws.{IsSteady, IsServer, IsLocal-Runs, update-Runs, track-Runs}
use backup_sentinel.Restore.Worker.Pipeline.{
  cancel_asked, checkpoint, set_phase, provision, restore_guest, prepare, boot, note_primary,
  test_guest, run_failed, pipeline,
}
use backup_sentinel.Restore.Worker.Ending.Steady.{sweep-Runs, failure_diag-Runs, error_log-Returns}
use backup_sentinel.Restore.Worker.Probing.Ends.{probe_loop-Runs}
use backup_sentinel.Restore.Worker.Progress.Steady.{on_progress-Runs}

module _ {H : Type 0} {s : Server H} {run_id : ℕ} {P : World H → Type 0} (laws : IsServer s)
    (p : IsSteady s run_id P) (plan : RunPlan) where
  checkpoint-Runs : Runs P (checkpoint s plan run_id)
  unfolding checkpoint cancel_asked
  checkpoint-Runs =
      bind-Runs _ _ (query-Runs (cancel_requested run_id))
        λ stop. if-Runs stop _ _ (raise-Runs _) (pure-Runs tt)

  pub set_phase-Runs : (phase : Phase) → Runs P (set_phase s plan run_id phase)
  unfolding set_phase
  set_phase-Runs phase = update-Runs _ p refl

  pub provision-Runs : Runs P (provision s plan run_id)
  unfolding provision
  provision-Runs = IsLocal-Runs _ p (laws.provision_helper _ _ _ _ _ _ _ _)

  restore_guest-Runs : Runs P (restore_guest s plan run_id)
  unfolding restore_guest cancel_asked
  restore_guest-Runs = bind-Runs _ _ (track-Runs _ p) λ _.
      laws.restore P run_id _ _ _ _ _ _ _ _ p (on_progress-Runs laws p plan.restore_vmid)
        (λ upid. update-Runs _ p refl) (query-Runs (cancel_requested run_id))

  prepare-Runs : (hosts : List String) → Runs P (prepare s plan run_id hosts)
  unfolding prepare
  prepare-Runs hosts = bind-Runs _ _ (IsLocal-Runs _ p (laws.verify_host_identity hosts)) λ _.
      bind-Runs _ _ (sweep-Runs laws p plan) λ _.
        bind-Runs _ _ (IsLocal-Runs _ p laws.ensure_sandbox_bridge) λ _.
          bind-Runs _ _ checkpoint-Runs λ _. bind-Runs _ _ (set_phase-Runs preflight) λ _.
            bind-Runs _ _ (IsLocal-Runs _ p (laws.preflight_check plan.source plan.snapshot_id))
              λ _.
                bind-Runs _ _ checkpoint-Runs
                  λ _. bind-Runs _ _ (set_phase-Runs Phase.helper) λ _. provision-Runs

  boot-Runs : Runs P (boot s plan run_id)
  unfolding boot
  boot-Runs = bind-Runs _ _ checkpoint-Runs λ _. bind-Runs _ _ (set_phase-Runs restoring) λ _.
      bind-Runs _ _ restore_guest-Runs λ _. bind-Runs _ _ checkpoint-Runs λ _.
        bind-Runs _ _ (set_phase-Runs network) λ _.
          bind-Runs _ _ (IsLocal-Runs _ p (laws.rewrite_nics _ _ _ _)) λ _.
            bind-Runs _ _ (set_phase-Runs booting) λ _.
              bind-Runs _ _ (IsLocal-Runs _ p (laws.wait_unlocked plan.restore_vmid))
                λ _. IsLocal-Runs _ p (laws.start plan.restore_vmid)

  note_primary-Runs : (ip : Option ℕ) → Runs P (note_primary s plan run_id ip)
  unfolding note_primary
  note_primary-Runs none = pure-Runs tt
  note_primary-Runs (some ip) = update-Runs _ p refl

  test_guest-Runs : 1 ≤ plan.interval → Runs P (test_guest s plan run_id)
  unfolding test_guest cancel_asked
  test_guest-Runs positive = bind-Runs _ _ (set_phase-Runs probing) λ _.
      bind-Runs _ _ (note_primary-Runs plan.primary_ip) λ _.
        bind-Runs _ _ (probe_loop-Runs laws plan (cancel_requested run_id) positive p) λ r.
          if-Runs (has_passed (some r.0)) _ _ (pure-Runs _)
            (bind-Runs _ _ (failure_diag-Runs laws p plan) λ diag. pure-Runs _)

  run_failed-Returns : (f : Fault) → Returns P (run_failed s plan run_id f)
  unfolding run_failed
  run_failed-Returns (restore_cancelled _) = pure-Returns _
  run_failed-Returns (failure message) =
      bind-Returns _ _ (error_log-Returns laws p plan message) λ log. pure-Returns _

  pub pipeline-Returns :
      (hosts : List String) → 1 ≤ plan.interval → Returns P (pipeline s plan run_id hosts)
  unfolding pipeline
  pipeline-Returns hosts positive =
      try_except-Returns _ _
        (bind-Runs _ _ (bind-Runs _ _ (prepare-Runs hosts) λ _. boot-Runs)
          λ _. test_guest-Runs positive)
        run_failed-Returns
