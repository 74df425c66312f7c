-- ===== src/Restore/Worker/Laws.antt =====
-- What the worker relies on: what other processes do to the database meanwhile, and the methods of
-- the restore server.
use backup_sentinel.Prelude.{
  any, ℕ, suc, ◌+◌, ◌≤◌, String, ◌≡◌, Bool, false, Option, List, [], ◌∷◌, ◌++◌, nat_eq, string_eq,
}
use backup_sentinel.Prelude.Dict.{Dict}
use backup_sentinel.Restore.Runs.{
  TestRow, Db, create_run, reorder_queue, delete_run, request_cancel,
}
use backup_sentinel.Restore.Effect.{Tracker, World, Act, transact, track}
use backup_sentinel.Restore.Types.{Trigger, Result, finished, is_queued, is_running}
use backup_sentinel.Restore.Worker.{Source, ProgressLine, Target, Guest, Server, now, update}
use backup_sentinel.Restore.Effect.Runs.{IsOver, Runs}
use backup_sentinel.Restore.Runs.Invariant.{sets_status}
use backup_sentinel.Restore.Runs.Fields.{Field, update_run}
use backup_sentinel.Restore.Runs.Results.{Extras, or_else, record_run_result, set_vm_next_run}

-- A step of the web application, of the scheduler, of another thread or of time. Columns of any run
-- are updated without its status, as a new test of a held run does; a run is ended with a result, as
-- the recovery of stuck runs does; a test is documented by hand. No step starts a run, since one worker
-- starts them, and none deletes a run that has started.
pub data Meanwhile : Db → Db → Type 0 where
  ticked : (db : Db) (seconds : ℕ) → Meanwhile db (record db { clock = db.clock + seconds })
  created : (db : Db) (vm_id : ℕ) (trigger : Trigger) → Meanwhile db (create_run vm_id trigger db).0
  asked_to_cancel : (db : Db) (run_id : ℕ) → Meanwhile db (request_cancel run_id db).0
  deleted : (db : Db) (run_id : ℕ) → Meanwhile db (delete_run run_id db).0
  queue_reordered : (db : Db) (ids : List ℕ) → Meanwhile db (reorder_queue ids db).0
  next_run_set :
      (db : Db) (vm_id : ℕ) (due : Option ℕ) → Meanwhile db (set_vm_next_run vm_id due db)
  documented :
      (db : Db) (row : TestRow)
      → Meanwhile db
          (record db { tests = db.tests ++ row ∷ []; next_test_id = suc db.next_test_id })
  updated :
      (db : Db) (run_id : ℕ) (fields : List Field)
      → any sets_status fields ≡ false
      → Meanwhile db (update_run run_id fields db)
  ended :
      (db : Db) (run_id vm_id : ℕ) (result : Result) (duration : ℕ) (extras : Extras)
      → is_queued (or_else extras.status (finished result)) ≡ false
      → is_running (or_else extras.status (finished result)) ≡ false
      → Meanwhile db (record_run_result run_id vm_id result duration extras db).0

-- Some steps in turn.
pub data Later : Db → Db → Type 0 where
  here : (db : Db) → Later db db
  after : {a b c : Db} → Meanwhile a b → Later b c → Later a c

pub Later-trans : {a b c : Db} → Later a b → Later b c → Later a c
Later-trans (here _) k = k
Later-trans (after m l) k = after m (Later-trans l k)

module _ {H : Type 0} (s : Server H) where
  -- what other processes, the clock and the worker's own updates of a run leave true
  pub record IsSteady (run_id : ℕ) (P : World H → Type 0) : Type 0 where
    pub later :
        (w w' : World H)
        → Later w.db w'.db
        → s.monotonic w.host ≤ s.monotonic w'.host
        → w'.tracker ≡ w.tracker
        → P w
        → P w'
    pub tracks : (w : World H) (t : Tracker) → P w → P (record w { tracker = t })
    pub updates :
        (w : World H) (fields : List Field)
        → any sets_status fields ≡ false
        → P w
        → P (record w { db = update_run run_id fields w.db })

  -- a method that acts on the host only and comes to an end
  pub record IsLocal {A : Type 0} (m : Act H A) : Type 0 where
    pub later : (w : World H) → Later w.db (m w).0.db
    pub clock : (w : World H) → s.monotonic w.host ≤ s.monotonic (m w).0.host
    pub tracker : (w : World H) → (m w).0.tracker ≡ w.tracker
    pub over : (w : World H) → IsOver (m w).1

  -- Every method is local; a restore and a poll act on the database by their callbacks only; a sleep
  -- returns no earlier than asked.
  pub record IsServer : Type 1 where
    pub sleep : (n : ℕ) → IsLocal (s.sleep n)
    pub sleeps : (n : ℕ) (w : World H) → s.monotonic w.host + n ≤ s.monotonic (s.sleep n w).0.host
    pub verify_host_identity : (hosts : List String) → IsLocal (s.verify_host_identity hosts)
    pub reap : (owned : List ℕ) → IsLocal (s.reap owned)
    pub ensure_sandbox_bridge : IsLocal s.ensure_sandbox_bridge
    pub preflight_check :
        (source : Source) (snapshot : String) → IsLocal (s.preflight_check source snapshot)
    pub provision_helper :
        (vmid tag : ℕ) (mgmt_ip sandbox_ip guest_ip : Option ℕ) (prefix : ℕ) (vlan : Option ℕ)
        (label : String)
        → IsLocal (s.provision_helper vmid tag mgmt_ip sandbox_ip guest_ip prefix vlan label)
    pub restore :
        (P : World H → Type 0) (run_id vmid : ℕ) (source : Source) (snapshot storage : String)
        (on : ProgressLine → Act H Unit) (on_task : String → Act H Unit) (cancel : Act H Bool)
        (disks : Option (Dict String String))
        → IsSteady run_id P
        → ((p : ProgressLine) → Runs P (on p))
        → ((upid : String) → Runs P (on_task upid))
        → Runs P cancel
        → Runs P (s.restore vmid source snapshot storage on on_task cancel disks)
    pub rewrite_nics :
        (vmid tag : ℕ) (vlan : Option ℕ) (label : String)
        → IsLocal (s.rewrite_nics vmid tag vlan label)
    pub wait_unlocked : (vmid : ℕ) → IsLocal (s.wait_unlocked vmid)
    pub start : (vmid : ℕ) → IsLocal (s.start vmid)
    pub exists : (vmid : ℕ) (guest : Guest) → IsLocal (s.exists vmid guest)
    pub destroy : (vmid : ℕ) (guest : Guest) → IsLocal (s.destroy vmid guest)
    pub is_running : (vmid : ℕ) → IsLocal (s.is_running vmid)
    pub vm_locked : (vmid : ℕ) → IsLocal (s.vm_locked vmid)
    pub guest_agent_nics : (vmid : ℕ) → IsLocal (s.guest_agent_nics vmid)
    pub probe :
        (ip : Option ℕ) (targets : List Target) (icmp : Bool) → IsLocal (s.probe ip targets icmp)
    pub probe_netdiag :
        (container : ℕ) (ips : List ℕ) (vmid : ℕ) (ports : List ℕ)
        → IsLocal (s.probe_netdiag container ips vmid ports)
    pub mgmt_netdiag : (container : ℕ) (ip : Option ℕ) → IsLocal (s.mgmt_netdiag container ip)
    pub restore_total_bytes : (vmid : ℕ) → IsLocal (s.restore_total_bytes vmid)
    pub find_running_restore_upid : (vmid : ℕ) → IsLocal (s.find_running_restore_upid vmid)
    pub poll_task :
        (P : World H → Type 0) (run_id : ℕ) (upid : String) (on : ProgressLine → Act H Unit)
        (cancel : Act H Bool)
        → IsSteady run_id P
        → ((p : ProgressLine) → Runs P (on p))
        → Runs P cancel
        → Runs P (s.poll_task upid on cancel)

module _ {H : Type 0} {s : Server H} {run_id : ℕ} {P : World H → Type 0} where
  pub IsLocal-Runs : {A : Type 0} (m : Act H A) → IsSteady s run_id P → IsLocal s m → Runs P m
  IsLocal-Runs m p q = record {
    at = λ w h. (p.later w (m w).0 (q.later w) (q.clock w) (q.tracker w) h, q.over w);
  }

  pub update-Runs :
      (fields : List Field)
      → IsSteady s run_id P
      → any sets_status fields ≡ false
      → Runs P (update run_id fields)
  unfolding update transact
  update-Runs fields p quiet = record { at = λ w h. (p.updates w fields quiet h, tt) }

  pub track-Runs : (t : Tracker) → IsSteady s run_id P → Runs P (track t)
  unfolding track
  track-Runs t p = record { at = λ w h. (p.tracks w t h, tt) }

module _ {H : Type 0} {P : World H → Type 0} where
  pub now-Runs : (s : Server H) → Runs P (now s)
  unfolding now
  now-Runs s = record { at = λ w h. (h, tt) }
