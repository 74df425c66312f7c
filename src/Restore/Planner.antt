-- ===== src/Restore/Planner.antt =====
-- `build_plan`, `plan_from_run` and what they read, of app/services/restore_orchestrator.py.
pub mod Build
pub mod Again
use backup_sentinel.Prelude.{
  ltb, if◌then◌else◌, ◌==◌, filter, ℕ, String, Bool, false, not, ◌&&◌, Option, none, some, List, [],
  ◌∷◌, ◌++◌, map, nat_eq, string_eq,
}
use text.Mathlib.Text.{starts_with}
use backup_sentinel.Restore.Addresses.{
  parse_cidr, sandbox_host_ip, sandbox_fallback, prefix_from_netmask,
}
use backup_sentinel.Restore.Alloc.{Ranges}

-- A row of `backup_events` of a VM: whether its status is 'ok', whether it was removed.
pub record BackupEvent : Type 0 where
  pub vm_id : ℕ
  pub is_ok : Bool
  pub removed : Bool
  pub size_bytes : Option ℕ
  pub locations : List String

-- The row that `_candidate_for_vm` selects: of `vms`, of its cluster and of its policy, for a VM that
-- has one.
pub record Candidate : Type 0 where
  pub vm_id : ℕ
  pub vmid : ℕ
  pub guest_type : Option String
  pub vm_name : Option String
  pub cluster_name : Option String
  pub hold_on_failure : Bool
  pub probe_primary_ip : Option String
  pub probe_vlan : Option ℕ
  pub probe_tcp_ports : List ℕ
  pub probe_require_icmp : Bool
  pub restore_retry_days : ℕ
  pub probe_window_seconds : Option ℕ
  pub probe_first_delay_seconds : Option ℕ
  pub probe_interval_seconds : Option ℕ
  pub memory_bytes : Option ℕ

-- A row of `vm_disks`: the VM, the device and the size.
pub record DiskRow : Type 0 where
  pub vm_id : ℕ
  pub dev : String
  pub size_bytes : Option ℕ

-- The tables that a plan is made from.
pub record Tables : Type 0 where
  pub events : List BackupEvent
  pub candidates : List Candidate
  pub disks : List DiskRow

pub record TargetStorage : Type 0 where
  pub storage : String
  pub use_it : Bool
  pub order : ℕ

-- What a plan takes of the configuration.
pub record Config : Type 0 where
  pub ranges : Ranges
  pub mgmt_netmask : Option ℕ
  pub target_storages : List TargetStorage
  pub probe_first_delay_seconds : ℕ
  pub probe_interval_seconds : ℕ
  pub probe_window_seconds : ℕ

-- What the host has free now: of each storage what is available and what it holds in all.
pub record Resources : Type 0 where
  pub stores : List (String × (Option ℕ × Option ℕ))
  pub ram_free : Option ℕ
  pub ram_total : Option ℕ

abbrev more_than_one : Option ℕ → Bool
more_than_one none = false
more_than_one (some size) = ltb 1 size

-- the `WHERE` of `vm_backup_locations`, but for the prefix of the location
abbrev pub is_backup_of : ℕ → BackupEvent → Bool
is_backup_of vm_id e = e.vm_id == vm_id && e.is_ok && not e.removed && more_than_one e.size_bytes

abbrev pub is_pbs : String → Bool
is_pbs location = starts_with location "pbs:"

unfoldable pub locations_of : ℕ → List BackupEvent → List String
locations_of vm_id [] = []
locations_of vm_id (e ∷ events) =
    let rest = locations_of vm_id events in
    if is_backup_of vm_id e then filter is_pbs e.locations ++ rest else rest

-- the set as a list
unfoldable pub vm_backup_locations : Tables → ℕ → List String
unfolding locations_of
vm_backup_locations tables vm_id = locations_of vm_id tables.events

unfoldable pub find_candidate : ℕ → List Candidate → Option Candidate
find_candidate vm_id [] = none
find_candidate vm_id (c ∷ candidates) =
    let rest = find_candidate vm_id candidates in if c.vm_id == vm_id then some c else rest

unfoldable pub candidate_for_vm : Tables → ℕ → Option Candidate
unfolding find_candidate
candidate_for_vm tables vm_id = find_candidate vm_id tables.candidates

unfoldable pub vm_disk_rows : Tables → ℕ → List (String × Option ℕ)
vm_disk_rows tables vm_id =
    map (λ (d : DiskRow). (d.dev, d.size_bytes)) (filter (λ d. d.vm_id == vm_id) tables.disks)

-- The addresses in a sandbox: the guest's, the helper's, and the prefix.
pub record Sandbox : Type 0 where
  pub guest_ip : Option ℕ
  pub helper_ip : Option ℕ
  pub prefix : ℕ

abbrev override_of : Option String → Option (ℕ × ℕ)
override_of none = none
override_of (some text) = parse_cidr text 24

abbrev pinned : ℕ → ℕ → Option ℕ → Option Sandbox
pinned guest_ip prefix none = none
pinned guest_ip prefix (some helper_ip) =
    some (record { guest_ip = some guest_ip; helper_ip = some helper_ip; prefix = prefix })

-- `none` where the address of the helper raises
unfoldable pub sandbox_alloc : Option String → Option ℕ → Config → Option Sandbox
sandbox_alloc override mgmt_ip config = elim (override_of override) [
  | some (guest_ip, prefix) ↦ pinned guest_ip prefix (sandbox_host_ip guest_ip prefix)
  | none ↦ elim mgmt_ip [
    | some _ ↦ some (record {
      guest_ip = some sandbox_fallback.1.0;
      helper_ip = some sandbox_fallback.0;
      prefix = sandbox_fallback.1.1;
    })
    | none ↦ some (record {
      guest_ip = none;
      helper_ip = none;
      prefix = prefix_from_netmask config.mgmt_netmask;
    })
  ]
]
