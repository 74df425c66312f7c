-- ===== src/Restore/Worker/Ending/Steady.antt =====
-- What ends a run comes to an end itself and leaves steady predicates alone.
use backup_sentinel.Prelude.{◌==◌, ℕ, String, Bool, false, [], nat_eq, string_eq}
use backup_sentinel.Restore.Effect.Returns.{
  Returns, pure-Returns, if-Returns, attempt-Returns, bind-Returns,
}
use backup_sentinel.Restore.Worker.Ending.{
  teardown_steps, sweep, teardown, failure_diag, restored_vm, error_log, discard_helper,
  teardown_step,
}
use backup_sentinel.Restore.Effect.{World, Act}
use backup_sentinel.Restore.Worker.{RunPlan, qemu, lxc, Server, owned_vmids}
use backup_sentinel.Restore.Effect.Runs.{
  Runs, pure-Runs, query-Runs, if-Runs, attempt-Runs, bind-Runs,
}
use backup_sentinel.Restore.Pack.Complete.{wanted}
use backup_sentinel.Restore.Worker.Laws.{IsSteady, IsServer, IsLocal-Runs}

module _ {H : Type 0} {s : Server H} {run_id : ℕ} {P : World H → Type 0} (laws : IsServer s)
    (p : IsSteady s run_id P) (plan : RunPlan) where
  teardown_steps-Returns : Returns P (teardown_steps s plan)
  unfolding teardown_steps
  teardown_steps-Returns = attempt-Returns _ _ (
      bind-Runs _ _ (IsLocal-Runs _ p (laws.exists plan.restore_vmid qemu)) λ vm.
        bind-Runs _ _ (attempt-Runs _ _ (IsLocal-Runs _ p (laws.exists plan.helper_vmid lxc)))
          λ container. pure-Runs (vm, container))

  teardown_step-Returns :
      (wanted : Bool) (m : Act H Unit) → Runs P m → Returns P (teardown_step s plan wanted m)
  unfolding teardown_step
  teardown_step-Returns wanted m r =
      if-Returns wanted _ _ (attempt-Returns tt m r) (pure-Returns tt)

  pub sweep-Runs : Runs P (sweep s plan)
  unfolding sweep
  sweep-Runs = bind-Runs _ _ (query-Runs owned_vmids) λ owned. IsLocal-Runs _ p (laws.reap owned)

  pub teardown-Returns : Returns P (teardown s plan)
  unfolding teardown
  teardown-Returns = bind-Returns _ _ teardown_steps-Returns λ found.
      bind-Returns _ _
        (teardown_step-Returns found.0 _ (IsLocal-Runs _ p (laws.destroy plan.restore_vmid qemu)))
        λ _.
          bind-Returns _ _
            (teardown_step-Returns found.1 _ (IsLocal-Runs _ p (laws.destroy plan.helper_vmid lxc)))
            λ _. bind-Returns _ _ (attempt-Returns [] _ sweep-Runs) λ _. pure-Returns tt

  pub failure_diag-Runs : Runs P (failure_diag s plan)
  unfolding failure_diag
  failure_diag-Runs =
      bind-Runs _ _
        (attempt-Runs _ _ (
          bind-Runs _ _ (IsLocal-Runs _ p (laws.guest_agent_nics plan.restore_vmid)) λ nics.
            IsLocal-Runs _ p
              (laws.probe_netdiag plan.helper_vmid _ plan.restore_vmid plan.tcp_ports)))
        λ sandbox.
          bind-Runs _ _
            (attempt-Runs _ _ (IsLocal-Runs _ p (laws.mgmt_netdiag plan.helper_vmid plan.mgmt_ip)))
            λ management. pure-Runs _

  failure_diag-Returns : Returns P (failure_diag s plan)
  unfolding failure_diag
  failure_diag-Returns =
      bind-Returns _ _
        (attempt-Returns _ _ (
          bind-Runs _ _ (IsLocal-Runs _ p (laws.guest_agent_nics plan.restore_vmid)) λ nics.
            IsLocal-Runs _ p
              (laws.probe_netdiag plan.helper_vmid _ plan.restore_vmid plan.tcp_ports)))
        λ sandbox.
          bind-Returns _ _
            (attempt-Returns _ _
              (IsLocal-Runs _ p (laws.mgmt_netdiag plan.helper_vmid plan.mgmt_ip)))
            λ management. pure-Returns _

  restored_vm-Returns : Returns P (restored_vm s plan)
  unfolding restored_vm
  restored_vm-Returns =
      if-Returns (plan.restore_vmid == 0) _ _ (pure-Returns false)
        (attempt-Returns _ _ (IsLocal-Runs _ p (laws.exists plan.restore_vmid qemu)))

  pub error_log-Returns : (message : String) → Returns P (error_log s plan message)
  unfolding error_log
  error_log-Returns message = bind-Returns _ _ restored_vm-Returns λ there.
      if-Returns there _ _ (bind-Returns _ _ failure_diag-Returns λ diag. pure-Returns _)
        (pure-Returns _)

  pub discard_helper-Returns : Returns P (discard_helper s plan)
  unfolding discard_helper
  discard_helper-Returns = if-Returns (plan.helper_vmid == 0) _ _ (pure-Returns tt) (
      attempt-Returns _ _ (
        bind-Runs _ _ (IsLocal-Runs _ p (laws.exists plan.helper_vmid lxc)) λ there.
          if-Runs there _ _ (IsLocal-Runs _ p (laws.destroy plan.helper_vmid lxc)) (pure-Runs tt)))
