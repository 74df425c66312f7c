-- ===== src/Restore/Runs/Fields.antt =====
-- `update_run` of app/db_restore.py: the columns that a run may have updated while it runs.
use backup_sentinel.Prelude.{
  ◌==◌, filter, ℕ, String, Bool, true, false, Option, some, List, [], ◌∷◌, nat_eq, string_eq,
}
use backup_sentinel.Restore.Runs.{Db, update_where}
use backup_sentinel.Restore.Types.{Result, Status, Phase, Checks, Run}

-- A keyword argument of `update_run`.
pub data Field : Type 0 where
  status_to : Status → Field
  restore_vmid_to helper_vmid_to vlan_tag_to mgmt_ip_to : Option ℕ → Field
  source_pbs_to source_datastore_to source_namespace_to snapshot_id_to : Option String → Field
  target_storages_to : List String → Field
  bytes_total_to bytes_done_to percent_to : ℕ → Field
  phase_to : Phase → Field
  detected_ip_to : Option ℕ → Field
  result_to : Result → Field
  checks_to : Checks → Field
  started_at_to finished_at_to duration_seconds_to : ℕ → Field
  task_upid_to : String → Field

-- `_UPDATABLE`: every column above but `task_upid`
unfoldable pub is_updatable : Field → Bool
is_updatable (task_upid_to _) = false
is_updatable _ = true

unfoldable pub write : Field → Run → Run
write (status_to v) r = record r { status = v }
write (restore_vmid_to v) r = record r { restore_vmid = v }
write (helper_vmid_to v) r = record r { helper_vmid = v }
write (vlan_tag_to v) r = record r { vlan_tag = v }
write (mgmt_ip_to v) r = record r { mgmt_ip = v }
write (source_pbs_to v) r = record r { source_pbs = v }
write (source_datastore_to v) r = record r { source_datastore = v }
write (source_namespace_to v) r = record r { source_namespace = v }
write (snapshot_id_to v) r = record r { snapshot_id = v }
write (target_storages_to v) r = record r { target_storages = v }
write (bytes_total_to v) r = record r { bytes_total = some v }
write (bytes_done_to v) r = record r { bytes_done = some v }
write (percent_to v) r = record r { percent = some v }
write (phase_to v) r = record r { phase = some v }
write (detected_ip_to v) r = record r { detected_ip = v }
write (result_to v) r = record r { result = some v }
write (checks_to v) r = record r { checks = some v }
write (started_at_to v) r = record r { started_at = some v }
write (finished_at_to v) r = record r { finished_at = some v }
write (duration_seconds_to v) r = record r { duration_seconds = some v }
write (task_upid_to v) r = record r { task_upid = some v }

unfoldable pub write_all : List Field → Run → Run
write_all [] r = r
write_all (f ∷ fields) r = write_all fields (write f r)

-- with no column left the early return and the empty `SET` agree
unfoldable pub update_run : ℕ → List Field → Db → Db
unfolding is_updatable write write_all
update_run run_id fields db =
    let cols = filter is_updatable fields in
    record db { runs = update_where (λ r. r.id == run_id) (write_all cols) db.runs }
