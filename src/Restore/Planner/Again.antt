-- ===== src/Restore/Planner/Again.antt =====
-- `plan_from_run` and `reprovision_and_retest`: the plan of a held or running run, and a new test of a
-- held run with a new helper.
use backup_sentinel.Prelude.{
  if◌then◌else◌, ◌==◌, ℕ, String, Bool, true, false, Option, none, some, List, [], ◌∷◌, nat_eq,
  string_eq,
}
use backup_sentinel.Restore.Runs.{has_passed, active_and_held_runs}
use backup_sentinel.Restore.Names.{sandbox_name}
use backup_sentinel.Restore.Effect.{failure, Act, pure, raise, query, attempt, ◌>>=◌, ◌>>◌}
use backup_sentinel.Restore.Planner.{
  Candidate, Tables, Config, candidate_for_vm, Sandbox, sandbox_alloc,
}
use backup_sentinel.Restore.Alloc.{Allocation, allocate}
use backup_sentinel.Restore.Types.{Result, Run}
use backup_sentinel.Restore.Worker.{RunPlan, lxc, update}
use backup_sentinel.Restore.Runs.Fields.{helper_vmid_to, mgmt_ip_to}
use backup_sentinel.Restore.Worker.Held.{retest_held}
use backup_sentinel.Restore.Worker.Pipeline.{provision}
use backup_sentinel.Restore.Planner.Build.{Orchestra, no_host}

abbrev text_or_empty : Option String → String
text_or_empty none = ""
text_or_empty (some s) = s

abbrev number_or_zero : Option ℕ → ℕ
number_or_zero none = 0
number_or_zero (some n) = n

abbrev first_storage : List String → String
first_storage [] = ""
first_storage (s ∷ _) = s

abbrev or_config : Option ℕ → ℕ → ℕ
or_config none d = d
or_config (some n) d = if n == 0 then d else n

-- What a plan takes of the candidate, with the defaults for a VM that is gone.
pub record Policy : Type 0 where
  pub src_vmid : Option ℕ
  pub ports : List ℕ
  pub guest_vlan : Option ℕ
  pub override : Option String
  pub label : String
  pub require_icmp : Bool
  pub hold_on_failure : Bool
  pub retry_days : ℕ
  pub first_delay : ℕ
  pub interval : ℕ
  pub window : ℕ

unfoldable pub policy_of : Config → Option Candidate → Policy
policy_of config none = record {
  src_vmid = none;
  ports = [];
  guest_vlan = none;
  override = none;
  label = sandbox_name "" "" "";
  require_icmp = true;
  hold_on_failure = false;
  retry_days = 7;
  first_delay = config.probe_first_delay_seconds;
  interval = config.probe_interval_seconds;
  window = config.probe_window_seconds;
}
policy_of config (some c) = record {
  src_vmid = some c.vmid;
  ports = c.probe_tcp_ports;
  guest_vlan = c.probe_vlan;
  override = c.probe_primary_ip;
  label = sandbox_name (text_or_empty c.cluster_name) (text_or_empty c.vm_name) "";
  require_icmp = c.probe_require_icmp;
  hold_on_failure = c.hold_on_failure;
  retry_days = c.restore_retry_days;
  first_delay = or_config c.probe_first_delay_seconds config.probe_first_delay_seconds;
  interval = or_config c.probe_interval_seconds config.probe_interval_seconds;
  window = or_config c.probe_window_seconds config.probe_window_seconds;
}

abbrev some_text : Option String → Option String
some_text none = none
some_text (some s) = if s == "" then none else some s

unfoldable pub run_plan : Run → Policy → Sandbox → RunPlan
run_plan run p box = record {
  vm_id = run.vm_id;
  restore_vmid = number_or_zero run.restore_vmid;
  helper_vmid = number_or_zero run.helper_vmid;
  vlan_tag = number_or_zero run.vlan_tag;
  mgmt_ip = run.mgmt_ip;
  source = record {
    storage = "";
    src_vmid = p.src_vmid;
    pbs = run.source_pbs;
    datastore = run.source_datastore;
    namespace = run.source_namespace;
  };
  snapshot_id = text_or_empty run.snapshot_id;
  target_storage = first_storage run.target_storages;
  primary_ip = box.guest_ip;
  sandbox_ip = box.helper_ip;
  sandbox_prefix = box.prefix;
  guest_vlan = p.guest_vlan;
  probe_override = some_text p.override;
  label = p.label;
  require_icmp = p.require_icmp;
  tcp_ports = p.ports;
  hold_on_failure = p.hold_on_failure;
  retry_days = p.retry_days;
  first_delay = p.first_delay;
  interval = p.interval;
  window = p.window;
  needed_bytes = none;
  needed_ram = none;
  disk_targets = none;
}

module _ {H : Type 0} (o : Orchestra H) (config : Config) where
  abbrev policy_in : Tables → Run → Policy
  policy_in tables run = policy_of config (candidate_for_vm tables run.vm_id)

  unfoldable pub plan_or_raise : Run → Policy → Option Sandbox → Act H RunPlan
  plan_or_raise run p none = raise no_host
  plan_or_raise run p (some box) = pure (run_plan run p box)

  unfoldable pub plan_from_run : Run → Act H RunPlan
  plan_from_run run = do
    tables ← o.tables
    plan_or_raise run (policy_in tables run)
        (sandbox_alloc (policy_in tables run).override run.mgmt_ip config)

  unfoldable pub with_helper : RunPlan → Allocation → Option Sandbox → Act H RunPlan
  with_helper base a none = raise no_host
  with_helper base a (some box) = pure (record base {
    helper_vmid = a.helper_vmid;
    mgmt_ip = some a.mgmt_ip;
    primary_ip = box.guest_ip;
    sandbox_ip = box.helper_ip;
    sandbox_prefix = box.prefix;
  })

  unfoldable pub free_helper : ℕ → RunPlan → Act H Unit
  free_helper run_id plan = do
    attempt tt (o.server.destroy plan.helper_vmid lxc)
    update run_id (helper_vmid_to none ∷ mgmt_ip_to none ∷ [])

  unfoldable pub unless_passed : ℕ → RunPlan → Result → Act H Unit
  unless_passed run_id plan result =
      if has_passed (some result) then pure tt else free_helper run_id plan

  unfoldable pub retest_with : ℕ → Run → RunPlan → Option Allocation → Act H (Result × RunPlan)
  retest_with run_id run base none =
      raise (failure "no free management IP to re-provision the re-test helper")
  retest_with run_id run base (some a) = do
    tables ← o.tables
    plan ←
        with_helper base a (sandbox_alloc (policy_in tables run).override (some a.mgmt_ip) config)
    update run_id (helper_vmid_to (some a.helper_vmid) ∷ mgmt_ip_to (some a.mgmt_ip) ∷ [])
    provision o.server plan run_id
    result ← retest_held o.server plan run_id
    unless_passed run_id plan result
    pure (result, plan)

  unfoldable pub reprovision_and_retest : ℕ → Run → Act H (Result × RunPlan)
  reprovision_and_retest run_id run = do
    base ← plan_from_run run
    a ← query (λ db. allocate config.ranges (active_and_held_runs db))
    retest_with run_id run base a
