-- ===== src/Restore/Tests/Queue.antt =====
-- An orchestrator whose calls answer at once: plans, the queue and the recovery on it.
use backup_sentinel.Restore.Recover.Spares.{
  on_host, nothing_left, kept_run, left_out, recover_each-spares,
}
use backup_sentinel.Prelude.{
  if◌then◌else◌, length, ℕ, String, ◌≡◌, refl, true, false, none, some, List, [], ◌∷◌, map, arith,
}
use backup_sentinel.Restore.Recover.{recover_each, recover_stuck_runs}
use backup_sentinel.Restore.Runs.{month, Vm, Db, new_run, create_run, has_active_run}
use backup_sentinel.Restore.Match.{HostEntry}
use backup_sentinel.Restore.Drain.{drain_once, drain, enqueue_each, enqueue_due}
use backup_sentinel.Restore.Effect.{
  Outcome, returned, World, Act, pure, diverge, query, continue, ◌>>=◌,
}
use backup_sentinel.Restore.Watchdog.{Slot, restore_queue_watchdog, reconcile_and_resume_restores}
use backup_sentinel.Restore.Planner.{BackupEvent, Candidate, Tables, Config}
use backup_sentinel.Restore.Types.{Status, running, held, scheduled, Run}
use backup_sentinel.Restore.Worker.{RunPlan}
use backup_sentinel.Restore.Tests.Worker.{quick, rest_for, test_server, empty_db}
use backup_sentinel.Restore.Effect.Runs.{IsOver}
use backup_sentinel.Restore.Drain.Plans.{IsQuiet, IsOrchestra, IsReady}
use backup_sentinel.Restore.Drain.Enqueue.{enqueue_each-IsSound}
use backup_sentinel.Restore.Drain.Starts.{drain_once-IsOver}
use backup_sentinel.Restore.Runs.Invariant.{IsSound}
use backup_sentinel.Restore.Runs.Results.{due_auto_restore_candidates}
use backup_sentinel.Restore.Worker.Progress.{fresh_tracker}
use backup_sentinel.Restore.Worker.Laws.{here}
use backup_sentinel.Restore.Planner.Build.{Planned, ready, Orchestra, build_plan}

abbrev test_candidate : Candidate
test_candidate = record {
  vm_id = 7;
  vmid = 101;
  guest_type = some "qemu";
  vm_name = some "Web";
  cluster_name = some "Muc";
  hold_on_failure = true;
  probe_primary_ip = none;
  probe_vlan = none;
  probe_tcp_ports = 22 ∷ [];
  probe_require_icmp = true;
  restore_retry_days = 7;
  probe_window_seconds = some 90;
  probe_first_delay_seconds = none;
  probe_interval_seconds = none;
  memory_bytes = some 4;
}

abbrev good_backup : BackupEvent
good_backup = record {
  vm_id = 7;
  is_ok = true;
  removed = false;
  size_bytes = some 30;
  locations = "pbs:main/store" ∷ "pve:nfs" ∷ [];
}

abbrev test_tables : Tables
test_tables = record {
  events = good_backup ∷ [];
  candidates = test_candidate ∷ [];
  disks = record { vm_id = 7; dev = "scsi0"; size_bytes = some 30 } ∷ [];
}

abbrev test_config : Config
test_config = record {
  ranges = record {
    vmid_from = 9000;
    vmid_to = 9003;
    vlan_from = 100;
    vlan_to = 101;
    ip_from = 50;
    ip_to = 51;
  };
  mgmt_netmask = none;
  target_storages =
      record { storage = "slow"; use_it = true; order = 2 }
      ∷ record { storage = "unused"; use_it = false; order = 0 }
      ∷ record { storage = "fast"; use_it = true; order = 1 }
      ∷ [];
  probe_first_delay_seconds = 30;
  probe_interval_seconds = 30;
  probe_window_seconds = 300;
}

abbrev test_orchestra : Orchestra ℕ
test_orchestra = record {
  server = test_server;
  tables = quick test_tables;
  production_endpoints = quick [];
  queue_paused = quick false;
  running_storage = quick "";
  connections = quick (record { name = "main"; host = "pbs1"; aliases = [] } ∷ []);
  list_pbs_storages =
      quick (record { storage = "pbs"; server = "PBS1"; datastore = "store"; namespace = "" } ∷ []);
  is_ip = λ _. false;
  resolve = λ _. [];
  list_snapshots = λ _ _. quick (
      record {
        snapshot_id = "vm/101/2026-01-01T00:00:00Z";
        complete = true;
        backup_time = some 1;
        size = some 30;
      }
      ∷ []);
  free_resources = quick (record {
    stores = ("fast", (some 20, some 25)) ∷ ("slow", (some 40, some 50)) ∷ [];
    ram_free = some 100000000000;
    ram_total = some 200000000000;
  });
  present_vmids = quick (9000 ∷ []);
  task_running = λ _. quick false;
  notify = λ _ _. quick tt;
}

quick-IsQuiet : {A : Type 0} (a : A) → IsQuiet (quick a)
quick-IsQuiet a = record { later = λ w. here w.db; over = λ w. tt }

test_orchestra-IsOrchestra : IsOrchestra test_orchestra
test_orchestra-IsOrchestra = record {
  tables = quick-IsQuiet _;
  queue_paused = quick-IsQuiet _;
  running_storage = quick-IsQuiet _;
  connections = quick-IsQuiet _;
  list_pbs_storages = quick-IsQuiet _;
  list_snapshots = λ _ _. quick-IsQuiet _;
  free_resources = quick-IsQuiet _;
  notify = λ _ _ _. tt;
}

abbrev test_vm : Vm
test_vm = record {
  id = 7;
  guest_type = some "qemu";
  has_policy = true;
  auto_restore_enabled = true;
  restore_cadence = month;
  next_run_at = none;
}

abbrev idle_db : Db
idle_db = record empty_db { vms = test_vm ∷ [] }

abbrev world_of : Db → World ℕ
world_of db = record { db = db; tracker = fresh_tracker; host = 0 }

-- The guest is larger than the first storage and goes to the second.
abbrev planned : Outcome Planned
planned = (build_plan test_orchestra test_config test_candidate (world_of idle_db)).1

abbrev target_of : Outcome Planned → String × (ℕ × String)
target_of (returned (ready plan)) = (plan.target_storage, (plan.vlan_tag, plan.label))
target_of _ = ("", (0, ""))

abbrev queued_db : Db
queued_db = (create_run 7 scheduled idle_db).0

-- begins a run only where none is running, as `begin_run` does by its index
abbrev cautious : RunPlan → ℕ → List String → Act ℕ Status
cautious plan run_id hosts = do active ← query has_active_run; if active then diverge else pure held

cautious-IsOver :
    (plan : RunPlan) (run_id : ℕ) (w : World ℕ)
    → IsReady test_config plan w
    → IsOver (cautious plan run_id [] w).1
unfolding query pure ◌>>=◌ continue
cautious-IsOver plan run_id w h = rw h.idle tt

drain_once-IsOver_example :
    IsOver (drain_once test_orchestra test_config cautious [] (world_of queued_db)).1
drain_once-IsOver_example =
    drain_once-IsOver test_orchestra test_orchestra-IsOrchestra test_config cautious []
      cautious-IsOver (world_of queued_db)

empty-IsSound : IsSound idle_db
empty-IsSound = record { below = tt; distinct = tt; one_live = λ vm_id. omega arith }

abbrev due_entries : List HostEntry
due_entries =
    record {
      location = "pbs:main/store";
      storage = "pbs";
      pbs = "pbs1";
      datastore = "store";
      namespace = "";
    }
    ∷ []

enqueue_each-IsSound_example :
    IsSound
      (enqueue_each test_orchestra test_tables due_entries
        (due_auto_restore_candidates idle_db)
        0
        (world_of idle_db)).0.db
enqueue_each-IsSound_example =
    enqueue_each-IsSound test_orchestra test_tables due_entries (world_of idle_db) (tt, tt)
      empty-IsSound

abbrev running_row : Run
running_row = record (new_run idle_db 7 scheduled) {
  status = running;
  restore_vmid = some 9000;
  started_at = some 0;
}

abbrev lost_row : Run
lost_row = record (new_run idle_db 8 scheduled) {
  id = 2;
  status = running;
  restore_vmid = some 9002;
  started_at = some 0;
}

abbrev stuck_db : Db
stuck_db = record idle_db { runs = running_row ∷ lost_row ∷ []; next_run_id = 3 }

-- Run 1 has its VM on the host, run 2 lost its own.
recover_each-spares_example :
    recover_each test_orchestra test_config 1000
      (9000 ∷ [])
      (running_row ∷ lost_row ∷ [])
      0
      (world_of stuck_db)
    ≡ recover_each test_orchestra test_config 1000 (9000 ∷ []) (lost_row ∷ []) 0 (world_of stuck_db)
recover_each-spares_example =
    recover_each-spares test_orchestra test_config 1000 (9000 ∷ []) (running_row ∷ lost_row ∷ [])
      (lost_row ∷ []) 0 (world_of stuck_db)
      (left_out running_row (lost_row ∷ []) (lost_row ∷ [])
        (on_host 9000 refl (λ e. absurd (omega (arith, e))) refl)
        (kept_run lost_row [] [] nothing_left))

abbrev statuses : Db → List Status
statuses db = map (λ r. r.status) db.runs

abbrev recovered : List Status
recovered = statuses (recover_stuck_runs test_orchestra test_config (world_of stuck_db)).0.db

abbrev enqueued : List Status
enqueued = statuses (enqueue_due test_orchestra (world_of idle_db)).0.db

abbrev drained : List Status
drained = statuses (drain test_orchestra 3 test_config (world_of queued_db)).0.db

abbrev aimed : String × (ℕ × String)
aimed = target_of planned

-- The slot notes in the host how often the queue was submitted.
abbrev test_slot : Slot ℕ
test_slot = record {
  is_done = quick (some false);
  submit_queue = rest_for 1;
  submit_resume = λ config runs. rest_for (length runs);
  configuration = quick (some test_config);
  pin_host_key = quick;
}

abbrev submissions : Db → ℕ
submissions db = (restore_queue_watchdog test_orchestra test_slot (world_of db)).0.host

-- Once for a queue that waits, and not while it is empty or a run is still running.
abbrev submitted : List ℕ
submitted = submissions queued_db ∷ submissions idle_db ∷ submissions stuck_db ∷ []

abbrev resumed : ℕ
resumed = (reconcile_and_resume_restores test_orchestra test_slot (world_of stuck_db)).0.host
