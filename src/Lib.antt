-- ===== src/Lib.antt =====
-- Backup Sentinel monitors the backups of Proxmox clusters and tests them by restoring guests on a
-- host of its own. This library models its core: the automated restore tests (app/services/restore_*
-- and app/db_restore.py) and judgements of the monitoring (app/services/backup_status.py,
-- app/services/proxmox.py, app/web/sync.py), with the settings kept in the database and the queue of
-- notifications.
--
-- A restore test is a row of the table `restore_runs`. A run is queued by the scheduler or by hand,
-- is given free resources and a target storage, is executed by the one worker (restore, boot, probe,
-- teardown), and ends with a result, or is held for inspection. Other processes act on the same
-- table meanwhile.
--
-- Prelude       tests, lists, dictionaries (Prelude/Dict: Python's `dict` in insertion order), stable
--               sorting, integers and texts
-- Restore/Types         a row of `restore_runs` (app/types.py) and the outcome of a probe
-- Restore/Pack          app/services/restore_pack.py: `pack_disks`, `plan_distribution`
-- Restore/Alloc         app/services/restore_alloc.py: `allocate`
-- Restore/Match         app/services/restore_match.py
-- Restore/Probe         app/services/restore_probe.py: `classify`, `classify_multi`, the labels
-- Restore/Runs          app/db_restore.py: the table as a value, each function one transaction. Its
--                       children: Fields is `update_run`, Results the recording of results and the
--                       scheduling, the others what the operations keep
-- Restore/Effect        actions: they transact on the database, act on the host, and return, raise or
--                       run out of fuel; what was done before a raise stays done
-- Restore/Worker        app/services/restore_worker.py: the plan and the restore server as an interface;
--                       Progress is `_progress_updater`, Probing `_probe_loop`, Ending `_teardown` and
--                       `_finalize`, Pipeline `execute`, Held the held runs, Resume `resume_run`; Laws
--                       has what the worker relies on
-- Restore/Target        app/services/restore_orchestrator.py: `choose_target_storage`, `_fits_disk`
-- Restore/Addresses     app/services/restore_server.py: `parse_cidr`, `sandbox_host_ip`, masks
-- Restore/Names         app/services/restore_server.py: `sandbox_name`
-- Restore/Locations     app/services/backup_location.py, and `restore_host_pbs_entries` of the
--                       orchestrator
-- Restore/Planner       app/services/restore_orchestrator.py: what plans are made from and
--                       `_sandbox_alloc`; Build is `build_plan` with the interface `Orchestra`, Again
--                       `plan_from_run` and `reprovision_and_retest`
-- Restore/Drain         app/services/restore_orchestrator.py: `enqueue_due` and `drain`
-- Restore/Recover       app/services/restore_orchestrator.py: `recover_stuck_runs` and
--                       `run_restore_queue`
-- Restore/Watchdog      app/web/sync.py: `_restore_queue_watchdog`, what it calls, and
--                       `reconcile_and_resume_restores`
-- Restore/Reaper        app/services/restore_server.py: `select_reaper_targets`, `reap`
-- Restore/Destroy       app/services/restore_server.py: `destroy`, `unlock` and `_is_running`, over the
--                       requests that they send
-- Restore/Guests        app/services/restore_server.py: `exists`, `present_vmids`, `task_running`,
--                       `find_running_restore_upid`, `vm_locked` and `wait_unlocked`
-- Restore/Poll          app/services/restore_server.py: `_poll_task`, `stop_task`, `stall_exceeded`;
--                       Restore/TaskError is `classify_task_error`
-- Restore/IoRates       app/services/restore_server.py: `compute_io_rates`
-- Monitor/Status        app/services/backup_status.py
-- Monitor/Dedup         `_dedup_pbs_events` of app/web/sync.py
-- Monitor/Jobs          app/services/proxmox.py: `infer_backup_kind_by_vmid` and the VMIDs of a job
-- Monitor/Storages      app/services/proxmox.py: `job_storages_by_vmid`
-- Settings              the table `app_settings`: Table is app/db_settings.py, Crypto
--                       app/services/crypto.py, Restore app/services/restore_config.py, Perf
--                       app/services/restore_perf.py
-- Notify        app/services/notifications.py: the queue of Gotify messages and the quiet hours
-- The Tests modules hold small inputs and the theorems at inputs where their hypotheses hold.
--
-- The worker and the server. `Server` lists the methods that the worker calls, and `IsServer` their
-- laws: a method ends (`restore` and `poll_task` too, which a task that hangs can delay for ever), its
-- clock does not go back, a sleep is as long as asked, and between its start and its end the database
-- changes only as in `Meanwhile`: time, new runs, requests to cancel, deletions and reorderings of
-- queued runs, other next runs, tests documented by hand, updates of any columns of any run but its
-- status, and results recorded for any run, as the recovery of
-- stuck runs does. Two things are assumed not to happen meanwhile: another worker starts a run, and the
-- row of a run that has started is deleted, as the deletion of its VM or cluster would. `restore` and
-- `poll_task` act on the database through their callbacks only. A test server shows that the laws can
-- hold.
--
-- The orchestrator. `Orchestra` lists what it calls beside the worker's server: queries of other
-- tables, and methods that the worker does not use. `IsOrchestra` has their laws: a call ends, and
-- the database changes meanwhile only as in `Meanwhile`. `drain` of the model is a pass over the queue
-- (`drain_once`), repeated while a pass started a run; what starts a run is a parameter of the pass,
-- for which `drain` takes `execute` of the worker.
--
-- Fuel. `probe_passes` has as fuel one more than the seconds of the window, which is enough as soon as
-- the interval is a second or more, since every pass starts an interval after the last. The loop of
-- `drain` has any fuel, since others may queue runs for ever; a single pass has none. `poll_task` has
-- as fuel the seconds until the task stops, and one more.
--
-- Simplifications. Times are whole seconds (microseconds in Monitor/Status, hundredths in
-- Restore/IoRates); addresses are numbers; a quotient or product of floats (a percentage, the factors
-- 1.2, 1.5 and 0.1) is taken exactly; a span of time that would be negative counts as 0 where no test
-- tells it apart from 0; logging is left out. The set of owned vmids is a list. A backup job comes
-- with its schedule classified and its lists of VMIDs parsed.
-- A line of a task's log comes with what the regular expressions find in it. The candidate of a plan
-- has a row of policies. Lower case and blanks are those of ASCII. A prefix is read as decimal digits
-- without a sign, and a subnet has a prefix of at most 32. `enqueue_due` reads the backups of the VMs
-- once. The loading of the configuration is left out of `run_restore_queue`. The parser and printer of
-- JSON and the cipher of secrets are parameters, and what is given to `save` is validated already. A
-- call of the database returns; the source's may raise where the server is gone, also the reading of the
-- settings in `_flush_gotify_queue`. The `ORDER BY` of a query is a stable sort of the model.
--
-- Not modelled: the settings pages and the setup of the server in the orchestrator, the bodies of the
-- other methods of the server (SSH, HTTP, shell commands), the SQL of pages and reports, the
-- fetching and parsing of API answers, the texts of notifications and their transport, mails, PDF,
-- templates and routes.
pub mod Prelude
pub mod Restore
pub mod Monitor
pub mod Settings
pub mod Notify
