-- ===== src/Restore/Tests/Worker.antt =====
-- A restore server that answers at once, and runs on it.
use backup_sentinel.Prelude.{
  nat_eq, string_eq, ℕ, ◌+◌, ◌≡◌, refl, ◌⊎◌, true, false, none, some, [], ◌∷◌, map, arith,
}
use backup_sentinel.Prelude.Dict.{Dict}
use backup_sentinel.Restore.Types.{Status, running, scheduled, IpCheck, Run}
use backup_sentinel.Restore.Effect.{Outcome, returned, World, Act, query, ◌>>◌}
use backup_sentinel.Restore.Runs.{Db, new_run, find_run, get_run}
use backup_sentinel.Restore.Worker.{RunPlan, ProgressLine, Server}
use backup_sentinel.Restore.Effect.Runs.{Runs, bind-Runs}
use backup_sentinel.Restore.Runs.Upid.{update_run-task_upid}
use backup_sentinel.Restore.Runs.Fields.{task_upid_to, update_run}
use backup_sentinel.Restore.Worker.Probing.{probe_loop}
use backup_sentinel.Restore.Worker.Resume.{resume_run}
use backup_sentinel.Restore.Worker.Progress.{fresh_tracker}
use backup_sentinel.Restore.Worker.Laws.{here, IsLocal, IsServer}
use backup_sentinel.Restore.Worker.Pipeline.{execute}
use backup_sentinel.Restore.Worker.Pipeline.Ends.{
  Underway, Underway-IsSteady, IsEnded, execute-IsEnded,
}
use backup_sentinel.Restore.Worker.Probing.Ends.{probe_loop-Runs}
use backup_sentinel.Restore.Worker.Resume.Ends.{IsLeft, resume_run-Ends}

-- the host is its clock
abbrev pub quick : {A : Type 0} → A → Act ℕ A
quick a w = (w, returned a)

abbrev pub rest_for : ℕ → Act ℕ Unit
rest_for n w = (record w { host = w.host + n }, returned tt)

abbrev half_way : ProgressLine
half_way = record { percent_read = some 50; bytes_read = none; bytes_in_all = none; drive = none }

abbrev guest_found : Dict ℕ IpCheck
guest_found = (10, record { icmp = true; arp = true; ports = [] }) ∷ []

abbrev pub test_server : Server ℕ
test_server = record {
  monotonic = λ t. t;
  sleep = rest_for;
  verify_host_identity = λ _. quick tt;
  reap = λ _. quick [];
  ensure_sandbox_bridge = quick tt;
  preflight_check = λ _ _. quick tt;
  provision_helper = λ _ _ _ _ _ _ _ _. quick tt;
  restore = λ _ _ _ _ on on_task _ _. on_task "UPID:1" >> on half_way;
  rewrite_nics = λ _ _ _ _. quick tt;
  wait_unlocked = λ _. quick tt;
  start = λ _. quick tt;
  exists = λ _ _. quick true;
  destroy = λ _ _. quick tt;
  is_running = λ _. quick false;
  vm_locked = λ _. quick false;
  guest_agent_nics = λ _. quick ((10, 24) ∷ []);
  probe = λ _ _ _. quick guest_found;
  probe_netdiag = λ _ _ _ _. quick "";
  mgmt_netdiag = λ _ _. quick "";
  restore_total_bytes = λ _. quick 0;
  find_running_restore_upid = λ _. quick none;
  poll_task = λ _ on _. on half_way;
}

pub quick-IsLocal : {A : Type 0} (a : A) → IsLocal test_server (quick a)
quick-IsLocal a = record {
  later = λ w. here w.db;
  clock = λ w. omega arith;
  tracker = λ w. refl;
  over = λ w. tt;
}

pub test_server-IsServer : IsServer test_server
test_server-IsServer = record {
  sleep = λ n. record {
    later = λ w. here w.db;
    clock = λ w. omega arith;
    tracker = λ w. refl;
    over = λ w. tt;
  };
  sleeps = λ n w. omega arith;
  verify_host_identity = λ _. quick-IsLocal tt;
  reap = λ _. quick-IsLocal [];
  ensure_sandbox_bridge = quick-IsLocal tt;
  preflight_check = λ _ _. quick-IsLocal tt;
  provision_helper = λ _ _ _ _ _ _ _ _. quick-IsLocal tt;
  restore = λ P _ _ _ _ _ on on_task _ _ p keeps starts _.
      bind-Runs (on_task "UPID:1") (λ _. on half_way) (starts "UPID:1") (λ _. keeps half_way);
  rewrite_nics = λ _ _ _ _. quick-IsLocal tt;
  wait_unlocked = λ _. quick-IsLocal tt;
  start = λ _. quick-IsLocal tt;
  exists = λ _ _. quick-IsLocal true;
  destroy = λ _ _. quick-IsLocal tt;
  is_running = λ _. quick-IsLocal false;
  vm_locked = λ _. quick-IsLocal false;
  guest_agent_nics = λ _. quick-IsLocal _;
  probe = λ _ _ _. quick-IsLocal guest_found;
  probe_netdiag = λ _ _ _ _. quick-IsLocal "";
  mgmt_netdiag = λ _ _. quick-IsLocal "";
  restore_total_bytes = λ _. quick-IsLocal 0;
  find_running_restore_upid = λ _. quick-IsLocal none;
  poll_task = λ P _ _ on _ p keeps _. keeps half_way;
}

abbrev test_plan : RunPlan
test_plan = record {
  vm_id = 7;
  restore_vmid = 9000;
  helper_vmid = 9001;
  vlan_tag = 100;
  mgmt_ip = some 5;
  source = record {
    storage = "pbs";
    src_vmid = some 101;
    pbs = none;
    datastore = none;
    namespace = none;
  };
  snapshot_id = "vm/101/2026-01-01T00:00:00Z";
  target_storage = "local-lvm";
  primary_ip = some 10;
  sandbox_ip = some 11;
  sandbox_prefix = 24;
  guest_vlan = none;
  probe_override = none;
  label = "a-vm";
  require_icmp = true;
  tcp_ports = [];
  hold_on_failure = true;
  retry_days = 7;
  first_delay = 30;
  interval = 30;
  window = 300;
  needed_bytes = none;
  needed_ram = none;
  disk_targets = none;
}

abbrev pub empty_db : Db
empty_db = record {
  runs = [];
  tests = [];
  vms = [];
  next_run_id = 1;
  next_test_id = 1;
  clock = 1000;
}

abbrev queued_run : Run
queued_run = new_run empty_db 7 scheduled

abbrev pub started_run : Run
started_run = record queued_run { status = running }

abbrev pub world_with : Run → World ℕ
world_with r = record {
  db = record empty_db { runs = r ∷ []; next_run_id = 2 };
  tracker = fresh_tracker;
  host = 0;
}

execute-IsEnded_example :
    IsEnded test_plan 1 (execute test_server test_plan 1 [] (world_with queued_run))
unfolding get_run find_run new_run
execute-IsEnded_example =
    execute-IsEnded test_server-IsServer test_plan [] (world_with queued_run) queued_run
      (omega arith) refl

resume_run-Ends_example :
    IsLeft 1 (resume_run test_server test_plan 1 none (world_with started_run))
    ⊎ IsEnded test_plan 1 (resume_run test_server test_plan 1 none (world_with started_run))
unfolding get_run find_run new_run
resume_run-Ends_example =
    resume_run-Ends test_server-IsServer test_plan none (world_with started_run) started_run
      (omega arith) refl refl

probe_loop-Runs_example :
    Runs (Underway 1) (probe_loop test_server test_plan 1 (query (λ _. false)))
probe_loop-Runs_example =
    probe_loop-Runs test_server-IsServer test_plan (λ _. false) (omega arith)
      (Underway-IsSteady test_server 1)

update_run-task_upid_example :
    map
      (λ r. r.task_upid)
      (update_run 1 (task_upid_to "UPID:1" ∷ []) (world_with started_run).db).runs
    ≡ map (λ r. r.task_upid) (world_with started_run).db.runs
update_run-task_upid_example =
    update_run-task_upid 1 (task_upid_to "UPID:1" ∷ []) (world_with started_run).db

abbrev executed : Outcome Status
executed = (execute test_server test_plan 1 [] (world_with queued_run)).1
