-- ===== src/Restore/Guests.antt =====
-- The queries of the guests and tasks of the restore host in app/services/restore_server.py:
-- `exists`, `present_vmids`, `task_running`, `find_running_restore_upid`, `vm_locked` and
-- `wait_unlocked`, over the requests that they send. A vmid that is missing or no number is `none`.
pub mod Found
use backup_sentinel.Prelude.{
  ltb, if◌then◌else◌, ◌==◌, any, filter, ℕ, zero, suc, String, string_append, Bool, false, not,
  ◌&&◌, Option, none, some, List, [], ◌∷◌, ◌++◌, nat_eq, string_eq,
}
use backup_sentinel.Prelude.Text.{lower, show}
use backup_sentinel.Restore.Effect.{Fault, failure, Act, pure, raise, ◌>>◌, attempt, ◌>>=◌}
use backup_sentinel.Restore.Pack.{place}
use backup_sentinel.Restore.TaskError.{mentions}
use backup_sentinel.Restore.Worker.{Guest, qemu, lxc}
use backup_sentinel.Restore.Pack.Complete.{wanted}

-- What a list of tasks says of one; `kind` is its `type`, and a start that is missing counts as 0.
pub record TaskEntry : Type 0 where
  pub id : Option String
  pub kind : String
  pub is_ended : Bool
  pub upid : Option String
  pub starttime : ℕ

pub record GuestApi (H : Type 0) : Type 0 where
  -- `self.node()`
  pub node : Act H String
  -- the vmids of the guests of a node
  pub list_guests : String → Guest → Act H (List (Option ℕ))
  -- `status` of a task
  pub get_task_status : String → String → Act H (Option String)
  -- the active tasks of a vmid
  pub list_tasks : String → ℕ → Act H (List TaskEntry)
  -- `lock` of the config of a guest
  pub get_lock : String → Guest → ℕ → Act H (Option String)
  pub sleep : ℕ → Act H Unit

abbrev is_vmid : ℕ → Option ℕ → Bool
is_vmid vmid none = false
is_vmid vmid (some found) = found == vmid

-- `int(g.get("vmid"))`, or else the next guest
abbrev numbers : List (Option ℕ) → List ℕ
numbers [] = []
numbers (none ∷ found) = numbers found
numbers (some vmid ∷ found) = vmid ∷ numbers found

abbrev pub is_set : Option String → Bool
is_set none = false
is_set (some value) = not (value == "")

abbrev is_text : Option String → String → Bool
is_text none wanted = false
is_text (some found) wanted = found == wanted

unfoldable pub is_running_restore : ℕ → TaskEntry → Bool
is_running_restore vmid task =
    is_text task.id (show vmid)
    && mentions (lower task.kind) "restore"
    && not task.is_ended
    && is_set task.upid

-- `max` over the start: the first of the latest
unfoldable pub latest_from : TaskEntry → List TaskEntry → TaskEntry
latest_from best [] = best
latest_from best (task ∷ tasks) =
    latest_from (if ltb best.starttime task.starttime then task else best) tasks

unfoldable pub upid_of_latest : List TaskEntry → Option String
upid_of_latest [] = none
upid_of_latest (task ∷ tasks) = (latest_from task tasks).upid

abbrev named_or_none : Option String → String
named_or_none none = "None"
named_or_none (some lock) = lock

-- `node or self.node()`
abbrev node_or : {H : Type 0} → GuestApi H → Option String → Act H String
node_or api none = api.node
node_or api (some node) = if node == "" then api.node else pure node

module _ {H : Type 0} (api : GuestApi H) where
  unfoldable pub exists : ℕ → Guest → Act H Bool
  exists vmid kind = if vmid == 0 then pure false else do
    guests ← attempt [] (do node ← api.node; api.list_guests node kind)
    pure (any (is_vmid vmid) guests)

  unfoldable pub present_vmids : Act H (List ℕ)
  present_vmids = do
    node ← api.node
    machines ← api.list_guests node qemu
    containers ← api.list_guests node lxc
    pure (numbers machines ++ numbers containers)

  unfoldable pub task_running : String → Option String → Act H Bool
  task_running upid node = attempt false do
    place ← node_or api node
    status ← api.get_task_status place upid
    pure (is_text status "running")

  unfoldable pub find_running_restore_upid : ℕ → Option String → Act H (Option String)
  find_running_restore_upid vmid node = do
    place ← node_or api node
    tasks ← attempt [] (api.list_tasks place vmid)
    pure (upid_of_latest (filter (is_running_restore vmid) tasks))

  unfoldable pub vm_locked : ℕ → Guest → Act H Bool
  vm_locked vmid kind =
      attempt false do node ← api.node; lock ← api.get_lock node kind vmid; pure (is_set lock)

  abbrev lock_fault : ℕ → Option String → Fault
  lock_fault vmid lock =
      let named = named_or_none lock in
      failure (
        string_append "VM " (
          string_append (show vmid) (
            string_append " still locked ('"
              (string_append named "') — restore not finished, not starting"))))

  -- the `for` loop, with the attempts that are left
  unfoldable pub await_unlocked : String → ℕ → ℕ → Option String → Act H Unit
  await_unlocked node vmid zero last = raise (lock_fault vmid last)
  await_unlocked node vmid (suc attempts) last = do
    lock ← api.get_lock node qemu vmid
    if is_set lock then api.sleep 1 >> await_unlocked node vmid attempts lock else pure tt

  unfoldable pub wait_unlocked : ℕ → ℕ → Act H Unit
  wait_unlocked vmid attempts = do node ← api.node; await_unlocked node vmid attempts none
