-- ===== src/Restore/Planner/Build.antt =====
-- `build_plan` and `plan_from_run`: a plan for a candidate, and the plan of a run again.
use backup_sentinel.Prelude.{
  leb, if◌then◌else◌, ◌==◌, is_empty, filter, ℕ, String, string_append, Bool, false, not, ◌||◌,
  Option, none, some, List, [], ◌∷◌, map, nat_eq, string_eq,
}
use backup_sentinel.Prelude.Dict.{Dict, from_items}
use backup_sentinel.Prelude.Sort.{insert_by, sort_by}
use backup_sentinel.Prelude.Text.{show}
use backup_sentinel.Restore.Runs.{active_and_held_runs}
use backup_sentinel.Restore.Match.{HostEntry, match_source, Snapshot, pick_latest_complete}
use backup_sentinel.Restore.Target.{Choice, chosen, wait, too_big, size_of, choose_target_storage}
use backup_sentinel.Restore.Names.{sandbox_name}
use backup_sentinel.Restore.Effect.{Fault, failure, Act, pure, raise, query, attempt, ◌>>=◌}
use backup_sentinel.Restore.Pack.{Decision, retry, impossible, plan_distribution}
use backup_sentinel.Restore.Planner.{
  Candidate, Tables, TargetStorage, Config, Resources, vm_backup_locations, vm_disk_rows, Sandbox,
  sandbox_alloc,
}
use backup_sentinel.Restore.Alloc.{Allocation, allocate}
use backup_sentinel.Restore.Types.{Status}
use backup_sentinel.Restore.IoRates.{round_quotient}
use backup_sentinel.Restore.Locations.{Connection, PbsStorage, restore_host_pbs_entries}
use backup_sentinel.Restore.Worker.{RunPlan, Server}

-- What `build_plan` answers: a plan, `None`, or the text of the `NotRunnable` that it raises.
pub data Planned : Type 0 where
  ready : RunPlan → Planned
  no_resources : Planned
  not_runnable : String → Planned

-- What the orchestrator calls beside the worker's server: queries of other tables, and the methods
-- of the server that the worker does not call.
pub record Orchestra (H : Type 0) : Type 0 where
  pub server : Server H
  pub tables : Act H Tables
  pub production_endpoints : Act H (List String)
  pub queue_paused : Act H Bool
  pub running_storage : Act H String
  pub connections : Act H (List Connection)
  pub list_pbs_storages : Act H (List PbsStorage)
  pub is_ip : String → Bool
  pub resolve : String → List String
  pub list_snapshots : String → ℕ → Act H (List Snapshot)
  pub free_resources : Act H Resources
  pub present_vmids : Act H (List ℕ)
  pub task_running : String → Act H Bool
  pub notify : ℕ → Status → Act H Unit

abbrev pub is_container : Option String → Bool
is_container none = false
is_container (some kind) = not (kind == "" || kind == "qemu")

abbrev pub avail_of : List (String × (Option ℕ × Option ℕ)) → Dict String (Option ℕ)
avail_of stores = from_items (map (λ (s : String × (Option ℕ × Option ℕ)). (s.0, s.1.0)) stores)

abbrev total_of : List (String × (Option ℕ × Option ℕ)) → Dict String (Option ℕ)
total_of stores = from_items (map (λ (s : String × (Option ℕ × Option ℕ)). (s.0, s.1.1)) stores)

abbrev by_order : TargetStorage → TargetStorage → Bool
by_order a b = leb a.order b.order

unfoldable pub ordered_storages : Config → List String
unfolding sort_by insert_by
ordered_storages config =
    map (λ s. s.storage) (sort_by by_order (filter (λ s. s.use_it) config.target_storages))

-- the storages of a known size, in order
unfoldable pub sized : List String → Dict String (Option ℕ) → List (String × ℕ)
sized [] by = []
sized (s ∷ storages) by =
    let rest = sized storages by in elim (size_of by s) [ none ↦ rest | some n ↦ (s, n) ∷ rest ]

abbrev gigabytes : Option ℕ → String
gigabytes none = "0"
gigabytes (some n) = show (round_quotient n 1073741824)

-- Where a guest goes: one storage, or its disks one by one.
pub data Place : Type 0 where
  on_one : String → Place
  spread : String → Dict String String → Place
  nowhere : String → Place

abbrev sizes_unknown : Option ℕ → String
sizes_unknown size = string_append "guest (" (
    string_append (gigabytes size) (
      string_append " GB) is larger than every target storage and its "
        "per-disk sizes are unknown — cannot plan a distribution"))

abbrev cannot_place : Option ℕ → String
cannot_place size = string_append "guest (" (
    string_append (gigabytes size) (
      string_append " GB) cannot be placed: a disk is larger than every "
        "target storage, or the disks together exceed the total capacity"))

-- the storage of the first disk in the mapping
abbrev first_value : String → Dict String String → String
first_value top [] = top
first_value top ((_, storage) ∷ _) = storage

abbrev place_of : String → Option ℕ → Decision → Place
place_of top size (Decision.ok mapping) = spread (first_value top mapping) mapping
place_of top size retry = on_one top
place_of top size impossible = nowhere (cannot_place size)

-- the branch for a guest that is larger than each storage
unfoldable pub distribute :
    String
    → List String
    → Dict String (Option ℕ)
    → Dict String (Option ℕ)
    → Option ℕ
    → List (String × Option ℕ)
    → Place
unfolding sized
distribute top storages avail_by total_by size disks =
    let total = sized (top ∷ storages) total_by in
    if is_empty disks || is_empty total
    then nowhere (sizes_unknown size)
    else place_of top size (plan_distribution disks (sized (top ∷ storages) avail_by) total)

abbrev place_from :
    Choice
    → String
    → List String
    → Dict String (Option ℕ)
    → Dict String (Option ℕ)
    → Option ℕ
    → List (String × Option ℕ)
    → Place
place_from (chosen s) top storages avail_by total_by size disks = on_one s
place_from (wait s) top storages avail_by total_by size disks = on_one s
place_from too_big top storages avail_by total_by size disks =
    distribute top storages avail_by total_by size disks

unfoldable pub place_guest :
    String
    → List String
    → List (String × (Option ℕ × Option ℕ))
    → Option ℕ
    → List (String × Option ℕ)
    → Place
unfolding distribute
place_guest top storages stores size disks =
    place_from (choose_target_storage top storages (avail_of stores) (total_of stores) size) top
      storages (avail_of stores) (total_of stores) size disks

-- the parts of a plan that the candidate and the configuration give: `x or y`
abbrev or_value : Option ℕ → ℕ → ℕ
or_value none d = d
or_value (some n) d = if n == 0 then d else n

abbrev or_text : Option String → String
or_text none = ""
or_text (some s) = s

abbrev not_empty : Option String → Option String
not_empty none = none
not_empty (some s) = if s == "" then none else some s

abbrev label_of : Candidate → String
label_of c = sandbox_name (or_text c.cluster_name) (or_text c.vm_name) ""

-- `target_storage` and `disk_targets`
abbrev targets_of : Place → String × Option (Dict String String)
targets_of (on_one s) = (s, none)
targets_of (spread s mapping) = (s, some mapping)
targets_of (nowhere _) = ("", none)

unfoldable pub plan_with :
    Candidate → Config → HostEntry → Snapshot → Allocation → Sandbox → Place → RunPlan
plan_with c config entry snap alloc box at = record {
  vm_id = c.vm_id;
  restore_vmid = alloc.restore_vmid;
  helper_vmid = alloc.helper_vmid;
  vlan_tag = alloc.vlan_tag;
  mgmt_ip = some alloc.mgmt_ip;
  source = record {
    storage = entry.storage;
    src_vmid = some c.vmid;
    pbs = some entry.pbs;
    datastore = some entry.datastore;
    namespace = some entry.namespace;
  };
  snapshot_id = snap.snapshot_id;
  target_storage = (targets_of at).0;
  primary_ip = box.guest_ip;
  sandbox_ip = box.helper_ip;
  sandbox_prefix = box.prefix;
  guest_vlan = c.probe_vlan;
  probe_override = not_empty c.probe_primary_ip;
  label = label_of c;
  require_icmp = c.probe_require_icmp;
  tcp_ports = c.probe_tcp_ports;
  hold_on_failure = c.hold_on_failure;
  retry_days = c.restore_retry_days;
  first_delay = or_value c.probe_first_delay_seconds config.probe_first_delay_seconds;
  interval = or_value c.probe_interval_seconds config.probe_interval_seconds;
  window = or_value c.probe_window_seconds config.probe_window_seconds;
  needed_bytes = snap.size;
  needed_ram = c.memory_bytes;
  disk_targets = (targets_of at).1;
}

abbrev pub planned_at :
    Config → Candidate → HostEntry → Snapshot → Allocation → Sandbox → Place → Planned
planned_at config c entry snap alloc box (nowhere reason) = not_runnable reason
planned_at config c entry snap alloc box at = ready (plan_with c config entry snap alloc box at)

abbrev pub no_host : Fault
no_host = failure "4294967296 (>= 2**32) is not permitted as an IPv4 address"

-- `restore_host_pbs_entries`
unfoldable pub host_entries : {H : Type 0} → Orchestra H → Act H (List HostEntry)
host_entries o = do
  conns ← o.connections
  storages ← o.list_pbs_storages
  pure (restore_host_pbs_entries o.is_ip o.resolve conns storages)

module _ {H : Type 0} (o : Orchestra H) (config : Config) where
  -- a failed check of the free resources leaves none known
  unfoldable pub known_stores : Act H (List (String × (Option ℕ × Option ℕ)))
  known_stores = attempt [] (do r ← o.free_resources; pure r.stores)

  -- from where the addresses of the sandbox are known
  unfoldable pub plan_storage :
      Candidate → HostEntry → Snapshot → Allocation → Sandbox → List String → Act H Planned
  plan_storage c entry snap alloc box [] =
      pure (not_runnable "no target storage selected — tick one in Settings → Restore")
  plan_storage c entry snap alloc box (top ∷ storages) = do
    stores ← known_stores
    tables ← o.tables
    pure (
        planned_at config c entry snap alloc box
          (place_guest top storages stores snap.size (vm_disk_rows tables c.vm_id)))

  unfoldable pub plan_sandbox : Candidate → HostEntry → Snapshot → Option Allocation → Act H Planned
  plan_sandbox c entry snap none = pure no_resources
  plan_sandbox c entry snap (some alloc) =
      elim (sandbox_alloc c.probe_primary_ip (some alloc.mgmt_ip) config) [
        | none ↦ raise no_host
        | some box ↦ plan_storage c entry snap alloc box (ordered_storages config)
      ]

  unfoldable pub plan_snapshot : Candidate → HostEntry → Option Snapshot → Act H Planned
  plan_snapshot c entry none = pure (not_runnable "no complete snapshot available")
  plan_snapshot c entry (some snap) = do
    alloc ← query (λ db. allocate config.ranges (active_and_held_runs db))
    plan_sandbox c entry snap alloc

  unfoldable pub plan_source : Candidate → Option HostEntry → Act H Planned
  plan_source c none = pure (not_runnable "not auto-restorable (no matching local datastore)")
  plan_source c (some entry) = do
    snaps ← o.list_snapshots entry.storage c.vmid
    plan_snapshot c entry (pick_latest_complete snaps)

  unfoldable pub build_plan : Candidate → Act H Planned
  build_plan c =
      if is_container c.guest_type
      then pure (not_runnable "containers (LXC) are not supported yet — VM restore only")
      else (do
        tables ← o.tables
        entries ← host_entries o
        plan_source c (match_source (vm_backup_locations tables c.vm_id) entries))
