-- ===== src/Restore/Worker.antt =====
-- app/services/restore_worker.py: what a run does, and the restore server as it sees it.
pub mod Laws
pub mod Progress
pub mod Probing
pub mod Ending
pub mod Pipeline
pub mod Held
pub mod Resume
use backup_sentinel.Prelude.{
  leb, if◌then◌else◌, ◌==◌, ℕ, ◌*◌, ◌/◌, max, String, Bool, true, Option, none, some, List, [], ◌∷◌,
  nat_eq, string_eq,
}
use backup_sentinel.Prelude.Dict.{Dict}
use backup_sentinel.Prelude.Int.{pos, sub_ℕ, leb_ℤ}
use backup_sentinel.Restore.Runs.{Db, active_and_held_runs}
use backup_sentinel.Restore.Effect.{returned, Act, transact}
use backup_sentinel.Restore.Types.{IpCheck, Run}
use backup_sentinel.Restore.Runs.Fields.{Field, update_run}

pub record Source : Type 0 where
  pub storage : String
  pub src_vmid : Option ℕ
  pub pbs : Option String
  pub datastore : Option String
  pub namespace : Option String

-- `RunPlan`; `reservations` and `probe_targets` are not read by the worker.
pub record RunPlan : Type 0 where
  pub vm_id : ℕ
  pub restore_vmid : ℕ
  pub helper_vmid : ℕ
  pub vlan_tag : ℕ
  pub mgmt_ip : Option ℕ
  pub source : Source
  pub snapshot_id : String
  pub target_storage : String
  pub primary_ip : Option ℕ
  pub sandbox_ip : Option ℕ
  pub sandbox_prefix : ℕ
  pub guest_vlan : Option ℕ
  pub probe_override : Option String
  pub label : String
  pub require_icmp : Bool
  pub tcp_ports : List ℕ
  pub hold_on_failure : Bool
  pub retry_days : ℕ
  pub first_delay : ℕ
  pub interval : ℕ
  pub window : ℕ
  pub needed_bytes : Option ℕ
  pub needed_ram : Option ℕ
  pub disk_targets : Option (Dict String String)

-- What a line of a task's log says of the progress (`parse_task_progress`).
pub record ProgressLine : Type 0 where
  pub percent_read : Option ℕ
  pub bytes_read : Option ℕ
  pub bytes_in_all : Option ℕ
  pub drive : Option String

pub record Target : Type 0 where
  pub ip : Option ℕ
  pub ports : List ℕ
  pub prefix : ℕ

pub data Guest : Type 0 where
  qemu lxc : Guest

-- The methods of `RestoreServer` that the worker calls. `monotonic` is `time.monotonic`, in whole
-- seconds; a restore and a task's poll are given their callbacks.
pub record Server (H : Type 0) : Type 0 where
  pub monotonic : H → ℕ
  pub sleep : ℕ → Act H Unit
  pub verify_host_identity : List String → Act H Unit
  pub reap : List ℕ → Act H (List ℕ)
  pub ensure_sandbox_bridge : Act H Unit
  pub preflight_check : Source → String → Act H Unit
  pub provision_helper : ℕ → ℕ → Option ℕ → Option ℕ → Option ℕ → ℕ → Option ℕ → String → Act H Unit
  pub restore :
      ℕ
      → Source
      → String
      → String
      → (ProgressLine → Act H Unit)
      → (String → Act H Unit)
      → Act H Bool
      → Option (Dict String String)
      → Act H Unit
  pub rewrite_nics : ℕ → ℕ → Option ℕ → String → Act H Unit
  pub wait_unlocked : ℕ → Act H Unit
  pub start : ℕ → Act H Unit
  pub exists : ℕ → Guest → Act H Bool
  pub destroy : ℕ → Guest → Act H Unit
  pub is_running : ℕ → Act H Bool
  pub vm_locked : ℕ → Act H Bool
  pub guest_agent_nics : ℕ → Act H (List (ℕ × ℕ))
  pub probe : Option ℕ → List Target → Bool → Act H (Dict ℕ IpCheck)
  pub probe_netdiag : ℕ → List ℕ → ℕ → List ℕ → Act H String
  pub mgmt_netdiag : ℕ → Option ℕ → Act H String
  pub restore_total_bytes : ℕ → Act H ℕ
  pub find_running_restore_upid : ℕ → Act H (Option String)
  pub poll_task : String → (ProgressLine → Act H Unit) → Act H Bool → Act H Unit

unfoldable pub now : {H : Type 0} → Server H → Act H ℕ
now s w = (w, returned (s.monotonic w.host))

unfoldable pub update : {H : Type 0} → ℕ → List Field → Act H Unit
update run_id fields = transact (update_run run_id fields)

abbrev vmids_of : Option ℕ → List ℕ → List ℕ
vmids_of none out = out
vmids_of (some v) out = v ∷ out

-- the set as a list
unfoldable pub owned_vmids_of : List Run → List ℕ
owned_vmids_of [] = []
owned_vmids_of (r ∷ runs) = vmids_of r.restore_vmid (vmids_of r.helper_vmid (owned_vmids_of runs))

unfoldable pub owned_vmids : Db → List ℕ
unfolding owned_vmids_of active_and_held_runs
owned_vmids db = owned_vmids_of (active_and_held_runs db)

-- what `fits_disk` and `fits_ram` take as unknown: `None` and 0
abbrev pub known : Option ℕ → Option ℕ
known none = none
known (some n) = if n == 0 then none else some n

abbrev has_space : Option ℕ → Option ℕ → Bool
has_space (some free) (some needed) = leb (12 * needed) (10 * free)
has_space _ _ = true

-- with the default `safety` of 1.2
unfoldable pub fits_disk : Option ℕ → Option ℕ → Bool
fits_disk free needed = has_space (known free) (known needed)

abbrev pub ram_reserve_min_bytes : ℕ
ram_reserve_min_bytes = 10737418240

abbrev reserve_of : Option ℕ → ℕ
reserve_of none = ram_reserve_min_bytes
reserve_of (some total) = max (total / 10) ram_reserve_min_bytes

unfoldable pub ram_reserve_bytes : Option ℕ → ℕ
ram_reserve_bytes total = reserve_of (known total)

abbrev leaves_reserve : Option ℕ → ℕ → Option ℕ → Bool
leaves_reserve (some free) reserve (some needed) = leb_ℤ (pos needed) (sub_ℕ free reserve)
leaves_reserve _ reserve _ = true

unfoldable pub fits_ram : Option ℕ → Option ℕ → Option ℕ → Bool
unfolding ram_reserve_bytes
fits_ram free total needed = leaves_reserve free (ram_reserve_bytes total) (known needed)
