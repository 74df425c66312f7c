-- ===== src/Restore/Worker/Ending.antt =====
-- The end of a run in app/services/restore_worker.py: `_teardown`, `_failure_diag`, `_error_log`
-- and `_finalize`.
pub mod Steady
use backup_sentinel.Prelude.{
  if◌then◌else◌, ◌==◌, ℕ, String, string_append, Bool, true, false, ◌&&◌, Option, none, some, List,
  [], ◌∷◌, map, nat_eq, string_eq,
}
use backup_sentinel.Prelude.Text.{strip, join_parts}
use backup_sentinel.Restore.Types.{Result, failed, Status, held, finished, Checks, error}
use backup_sentinel.Restore.Runs.Results.{
  Extras, record_run_result, set_vm_next_run, schedule_retry, no_extras,
}
use backup_sentinel.Restore.Effect.{Act, pure, query, transact, attempt, ◌>>=◌, ◌>>◌}
use backup_sentinel.Restore.Worker.{RunPlan, qemu, lxc, Server, update, owned_vmids}
use backup_sentinel.Restore.Runs.Fields.{helper_vmid_to, mgmt_ip_to}
use backup_sentinel.Restore.Pack.Complete.{wanted}

abbrev pub is_failure : Result → Bool
is_failure failed = true
is_failure Result.error = true
is_failure _ = false

abbrev pub text_log : String → Option String
text_log log = if log == "" then none else some log

-- the keyword arguments `checks`, `log` and `status` of `record_run_result`
abbrev pub outcome_extras : Checks → String → Option Status → Extras
outcome_extras checks log status = record no_extras {
  checks = some checks;
  log = text_log log;
  status = status;
}

module _ {H : Type 0} (s : Server H) (plan : RunPlan) where
  -- the guests to destroy; what was found before a check failed stays
  unfoldable pub teardown_steps : Act H (Bool × Bool)
  teardown_steps =
      attempt (false, false)
        do
          vm ← s.exists plan.restore_vmid qemu
          container ← attempt false (s.exists plan.helper_vmid lxc)
          pure (vm, container)

  unfoldable pub teardown_step : Bool → Act H Unit → Act H Unit
  teardown_step wanted action = if wanted then attempt tt action else pure tt

  -- `server.reap(owned_vmids())`
  unfoldable pub sweep : Act H (List ℕ)
  sweep = query owned_vmids >>= s.reap

  unfoldable pub teardown : Act H Unit
  teardown = do
    (vm, container) ← teardown_steps
    teardown_step vm (s.destroy plan.restore_vmid qemu)
    teardown_step container (s.destroy plan.helper_vmid lxc)
    attempt [] sweep
    pure tt

  abbrev or_primary : List ℕ → Option ℕ → List ℕ
  or_primary [] (some ip) = ip ∷ []
  or_primary ips primary = ips

  abbrev nic_ips : List (ℕ × ℕ) → List ℕ
  nic_ips nics = map (λ n. n.0) nics

  -- "" for `None`
  unfoldable pub failure_diag : Act H String
  failure_diag = do
    sandbox ← attempt "" (do
      nics ← s.guest_agent_nics plan.restore_vmid
      s.probe_netdiag plan.helper_vmid (or_primary (nic_ips nics) plan.primary_ip) plan.restore_vmid
          plan.tcp_ports)
    management ← attempt "" (s.mgmt_netdiag plan.helper_vmid plan.mgmt_ip)
    pure (join_parts sandbox management)

  abbrev reason_of : String → String
  reason_of message = let reason = strip message in if reason == "" then "unknown error" else reason

  abbrev failed_line : String → String
  failed_line message = string_append "Restore failed\n  " (reason_of message)

  unfoldable pub restored_vm : Act H Bool
  restored_vm =
      if plan.restore_vmid == 0 then pure false else attempt false (s.exists plan.restore_vmid qemu)

  unfoldable pub error_log : String → Act H String
  error_log message = do
    there ← restored_vm
    if there
        then (do diag ← failure_diag; pure (join_parts (failed_line message) diag))
        else pure (failed_line message)

  unfoldable pub record_result : ℕ → Result → ℕ → Extras → Act H Unit
  record_result run_id result duration extras =
      transact (λ db. (record_run_result run_id plan.vm_id result duration extras db).0)

  unfoldable pub discard_helper : Act H Unit
  discard_helper =
      if plan.helper_vmid == 0
      then pure tt
      else attempt tt do
        there ← s.exists plan.helper_vmid lxc
        if there then s.destroy plan.helper_vmid lxc else pure tt

  unfoldable pub hold : ℕ → Result → Checks → ℕ → String → Act H Status
  hold run_id result checks duration log = do
    discard_helper
    record_result run_id result duration (outcome_extras checks log (some held))
    update run_id (helper_vmid_to none ∷ mgmt_ip_to none ∷ [])
    pure held

  unfoldable pub schedule_next : Result → Act H Unit
  schedule_next result =
      if is_failure result
      then transact (schedule_retry plan.vm_id plan.retry_days)
      else transact (set_vm_next_run plan.vm_id none)

  unfoldable pub close : ℕ → Result → Checks → ℕ → String → Act H Status
  close run_id result checks duration log = do
    teardown
    record_result run_id result duration (outcome_extras checks log none)
    schedule_next result
    pure (finished result)

  unfoldable pub finalize : ℕ → Result → Checks → ℕ → String → Act H Status
  finalize run_id result checks duration log =
      if plan.hold_on_failure && is_failure result
      then hold run_id result checks duration log
      else close run_id result checks duration log
