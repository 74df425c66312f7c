-- ===== src/Restore/Runs.antt =====
-- app/db_restore.py: the table `restore_runs`, its queue, and the scheduling of the next runs.
-- The database is a value; each function is one transaction on it. `NOW()` is the clock.
pub mod Fields
pub mod Results
pub mod Queue
pub mod Reorder
pub mod Invariant
pub mod Rows
pub mod Upid
pub mod Recorded
pub mod Owned
use backup_sentinel.Prelude.{
  ltb, leb, if◌then◌else◌, ◌==◌, any, filter, count, ℕ, suc, ◌+◌, String, Bool, true, false, not,
  ◌&&◌, ◌||◌, Option, none, some, List, [], ◌∷◌, ◌++◌, map, nat_eq, string_eq,
}
use backup_sentinel.Prelude.Sort.{insert_by, sort_by}
use backup_sentinel.Restore.Types.{
  Result, passed, queued, Trigger, Run, owns_environment, is_queued, is_running, is_live,
}

-- A row of `restore_tests`; `tested_at` is a day.
pub record TestRow : Type 0 where
  pub id : ℕ
  pub vm_id : ℕ
  pub tested_at : ℕ
  pub result : Result
  pub duration_minutes : ℕ
  pub evidence_note : String

pub data Cadence : Type 0 where
  month quarter half_year year : Cadence

-- A row of `vms` with what the scheduler reads of its row of `vm_policies`.
pub record Vm : Type 0 where
  pub id : ℕ
  pub guest_type : Option String
  pub has_policy : Bool
  pub auto_restore_enabled : Bool
  pub restore_cadence : Cadence
  pub next_run_at : Option ℕ

pub record Db : Type 0 where
  pub runs : List Run
  pub tests : List TestRow
  pub vms : List Vm
  pub next_run_id : ℕ  -- the sequence of `restore_runs.id`
  pub next_test_id : ℕ
  pub clock : ℕ

-- the defaults of the table
unfoldable pub new_run : Db → ℕ → Trigger → Run
new_run db vm_id trigger = record {
  id = db.next_run_id;
  vm_id = vm_id;
  trigger = trigger;
  status = queued;
  restore_vmid = none;
  helper_vmid = none;
  vlan_tag = none;
  mgmt_ip = none;
  source_pbs = none;
  source_datastore = none;
  source_namespace = none;
  snapshot_id = none;
  target_storages = [];
  bytes_total = none;
  bytes_done = none;
  percent = none;
  result = none;
  restore_test_id = none;
  log = none;
  checks = none;
  queued_at = db.clock;
  started_at = none;
  finished_at = none;
  duration_seconds = none;
  task_upid = none;
  phase = none;
  detected_ip = none;
  cancel_requested = false;
  sort_order = none;
}

unfoldable pub create_run : ℕ → Trigger → Db → Db × ℕ
unfolding new_run
create_run vm_id trigger db = (
  record db { runs = db.runs ++ new_run db vm_id trigger ∷ []; next_run_id = suc db.next_run_id },
  db.next_run_id,
)

abbrev pub has_passed : Option Result → Bool
has_passed (some passed) = true
has_passed _ = false

abbrev pub live_run_of : ℕ → Run → Bool
live_run_of vm_id r = r.vm_id == vm_id && is_live r.status

abbrev pub passed_run_of : ℕ → Run → Bool
passed_run_of vm_id r = r.vm_id == vm_id && has_passed r.result

unfoldable pub enqueue_if_never_passed : ℕ → Trigger → Db → Db × Option ℕ
enqueue_if_never_passed vm_id trigger db =
    if any (live_run_of vm_id) db.runs || any (passed_run_of vm_id) db.runs
    then (db, none)
    else (let (db', id) = create_run vm_id trigger db in (db', some id))

-- `SELECT * FROM restore_runs WHERE id = %s`
unfoldable pub find_run : ℕ → List Run → Option Run
find_run run_id [] = none
find_run run_id (r ∷ runs) =
    let rest = find_run run_id runs in if r.id == run_id then some r else rest

unfoldable pub get_run : ℕ → Db → Option Run
unfolding find_run
get_run run_id db = find_run run_id db.runs

-- `UPDATE restore_runs SET … WHERE id = %s AND …`
unfoldable pub update_where : (Run → Bool) → (Run → Run) → List Run → List Run
update_where p f [] = []
update_where p f (r ∷ runs) =
    let rest = update_where p f runs in if p r then f r ∷ rest else r ∷ rest

unfoldable pub active_and_held_runs : Db → List Run
active_and_held_runs db = filter (λ r. owns_environment r.status) db.runs

unfoldable pub queued_vm_ids : Db → List ℕ
queued_vm_ids db = map (λ r. r.vm_id) (filter (λ r. is_live r.status) db.runs)

-- `ORDER BY sort_order ASC NULLS LAST, queued_at, id`, where `sort_order` is equal or unset in both
unfoldable pub earlier_queued : Run → Run → Bool
earlier_queued a b =
    if a.queued_at == b.queued_at then leb a.id b.id else ltb a.queued_at b.queued_at

unfoldable pub compare_orders : Option ℕ → Option ℕ → Bool → Bool
compare_orders none none tie = tie
compare_orders none (some _) tie = false
compare_orders (some _) none tie = true
compare_orders (some m) (some n) tie = if m == n then tie else ltb m n

unfoldable pub earlier : Run → Run → Bool
unfolding compare_orders earlier_queued
earlier a b = compare_orders a.sort_order b.sort_order (earlier_queued a b)

unfoldable pub list_queued_runs : Db → List Run
unfolding sort_by insert_by earlier
list_queued_runs db = sort_by earlier (filter (λ r. is_queued r.status) db.runs)

abbrev pub head_of : List Run → Option Run
head_of [] = none
head_of (r ∷ _) = some r

unfoldable pub next_queued_run : Db → Option Run
unfolding list_queued_runs
next_queued_run db = head_of (list_queued_runs db)

-- one `UPDATE` of `reorder_queue`
unfoldable pub set_order : ℕ → ℕ → List Run → List Run
unfolding update_where
set_order position run_id =
    update_where (λ r. r.id == run_id && is_queued r.status)
      (λ r. record r { sort_order = some position })

unfoldable pub queued_with_id : ℕ → Run → Bool
queued_with_id run_id r = r.id == run_id && is_queued r.status

-- the loop `for position, run_id in enumerate(ordered_ids)`, with the rows updated so far
unfoldable pub reorder_from : ℕ → List ℕ → List Run → ℕ → List Run × ℕ
unfolding set_order queued_with_id
reorder_from position [] runs updated = (runs, updated)
reorder_from position (run_id ∷ ids) runs updated =
    reorder_from (suc position) ids (set_order position run_id runs)
      (updated + count (queued_with_id run_id) runs)

-- for no ids the loop does nothing, as the early return
unfoldable pub reorder_queue : List ℕ → Db → Db × ℕ
unfolding reorder_from
reorder_queue ordered_ids db =
    let (runs, updated) = reorder_from 0 ordered_ids db.runs 0 in
    (record db { runs = runs }, updated)

unfoldable pub has_active_run : Db → Bool
has_active_run db = any (λ r. is_running r.status) db.runs

unfoldable pub has_queued_runs : Db → Bool
has_queued_runs db = any (λ r. is_queued r.status) db.runs

unfoldable pub delete_run : ℕ → Db → Db × Bool
delete_run run_id db = (
  record db { runs = filter (λ r. not (r.id == run_id && is_queued r.status)) db.runs },
  any (λ r. r.id == run_id && is_queued r.status) db.runs,
)

unfoldable pub request_cancel : ℕ → Db → Db × Bool
unfolding update_where
request_cancel run_id db = (
  record db {
    runs =
        update_where (λ r. r.id == run_id && is_running r.status)
          (λ r. record r { cancel_requested = true }) db.runs;
  },
  any (λ r. r.id == run_id && is_running r.status) db.runs,
)

abbrev flag_of : Option Run → Bool
flag_of none = false
flag_of (some r) = r.cancel_requested

unfoldable pub cancel_requested : ℕ → Db → Bool
unfolding get_run
cancel_requested run_id db = flag_of (get_run run_id db)

pub data QueueState : Type 0 where
  running_state queued_state idle_state : QueueState

unfoldable pub queue_state : Db → QueueState
unfolding has_active_run has_queued_runs
queue_state db =
    if has_active_run db
    then running_state
    else if has_queued_runs db
    then queued_state
    else idle_state
