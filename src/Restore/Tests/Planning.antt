-- ===== src/Restore/Tests/Planning.antt =====
-- Planning: packing disks, allocating resources, matching backups, classifying probes.
use backup_sentinel.Prelude.{
  ==_false→≢, any, contains, ℕ, ◌≤◌, String, ◌≡◌, refl, ◌≢◌, true, false, Option, none, some, List,
  [], ◌∷◌, nat_eq, string_eq,
}
use backup_sentinel.Prelude.Dict.{keys, Dict, get, put, remove, from_items}
use backup_sentinel.Restore.Runs.{Db, new_run}
use backup_sentinel.Restore.Match.{HostEntry, match_source, Snapshot, pick_latest_complete}
use backup_sentinel.Restore.Probe.{
  port_open, classify_multi, icmp_label, arp_label, port_label, open_ports, green_check_labels,
}
use backup_sentinel.Restore.Pack.{
  assign, release, try_storages, place, storage_names, start, pack_disks, retry, impossible,
  pairs_of, plan_distribution,
}
use backup_sentinel.Restore.Alloc.{
  Allocation, Ranges, range, ip_range, lowest_free, two_lowest_free, in_use_vmids, in_use_tags,
  in_use_ips, allocate,
}
use backup_sentinel.Restore.Types.{passed, held, scheduled, IpCheck, probed, Run}
use backup_sentinel.Restore.Probe.Laws.{rank, classify_multi-more, Ascending, open_ports_lem}
use backup_sentinel.Restore.Match.Laws.{IsLatest, pick_latest_complete-IsLatest}
use backup_sentinel.Restore.Alloc.Fresh.{IsFresh, Exhausted, allocate-IsFresh, allocate-Exhausted}
use backup_sentinel.Restore.Pack.Plan.{
  IsPacking, pack_disks-IsPacking, pack_disks_complete, Answers, plan_distribution-Answers,
}
use backup_sentinel.Restore.Pack.Restores.{Distinct, place-restores}

abbrev two_disks : List (String × Option ℕ)
two_disks = ("scsi0", some 30) ∷ ("scsi1", some 50) ∷ []

abbrev two_stores : List (String × ℕ)
two_stores = ("fast", 40) ∷ ("slow", 60) ∷ []

abbrev small_stores : List (String × ℕ)
small_stores = ("fast", 40) ∷ ("slow", 20) ∷ []

-- The larger disk goes first and does not fit the first storage.
packs :
    pack_disks (pairs_of two_disks) two_stores ≡ some (("scsi1", "slow") ∷ ("scsi0", "fast") ∷ [])
unfolding pack_disks
packs = refl

waits : plan_distribution two_disks small_stores two_stores ≡ retry
unfolding plan_distribution pack_disks
waits = refl

never_fits : plan_distribution two_disks small_stores small_stores ≡ impossible
unfolding plan_distribution pack_disks
never_fits = refl

two_disks-Distinct : Distinct (pairs_of two_disks)
two_disks-Distinct = ((==_false→≢ "scsi1" "scsi0" refl, tt), (tt, tt))

plan_distribution-Answers_example :
    Answers
      (pairs_of two_disks)
      small_stores
      two_stores
      (plan_distribution two_disks small_stores two_stores)
plan_distribution-Answers_example =
    plan_distribution-Answers two_disks small_stores two_stores two_disks-Distinct

pack_disks-IsPacking_example :
    IsPacking (pairs_of two_disks) two_stores (("scsi1", "slow") ∷ ("scsi0", "fast") ∷ [])
pack_disks-IsPacking_example =
    pack_disks-IsPacking (pairs_of two_disks) two_stores
      (("scsi1", "slow") ∷ ("scsi0", "fast") ∷ []) two_disks-Distinct packs

pack_disks_complete_example : pack_disks (pairs_of two_disks) two_stores ≢ none
pack_disks_complete_example =
    pack_disks_complete (pairs_of two_disks) two_stores two_disks-Distinct (
      ("scsi1", "slow") ∷ ("scsi0", "fast") ∷ [],
      pack_disks-IsPacking (pairs_of two_disks) two_stores
          (("scsi1", "slow") ∷ ("scsi0", "fast") ∷ []) two_disks-Distinct packs,
    )

abbrev full_stores : List (String × ℕ)
full_stores = ("slow", 60) ∷ []

place-restores_example :
    (place (storage_names full_stores) (pairs_of two_disks) (start full_stores)).1
    ≡ start full_stores
unfolding place try_storages assign release from_items get put remove
place-restores_example =
    place-restores (storage_names full_stores) (pairs_of two_disks) (start full_stores)
      ((λ e. cc e), tt) two_disks-Distinct (refl, (refl, tt)) refl

abbrev ranges : Ranges
ranges = record {
  vmid_from = 9000;
  vmid_to = 9003;
  vlan_from = 901;
  vlan_to = 902;
  ip_from = 3232235777;
  ip_to = 3232235777;
}

abbrev empty_db : Db
empty_db = record {
  runs = [];
  tests = [];
  vms = [];
  next_run_id = 1;
  next_test_id = 1;
  clock = 1000;
}

abbrev first_allocation : Allocation
first_allocation = record {
  restore_vmid = 9000;
  helper_vmid = 9001;
  vlan_tag = 901;
  mgmt_ip = 3232235777;
}

allocates : allocate ranges [] ≡ some first_allocation
unfolding allocate range ip_range lowest_free two_lowest_free in_use_vmids in_use_tags in_use_ips
allocates = refl

allocate-IsFresh_example : IsFresh ranges [] first_allocation
allocate-IsFresh_example = allocate-IsFresh ranges [] first_allocation allocates

abbrev held_run : Run
held_run = record (new_run empty_db 7 scheduled) {
  status = held;
  restore_vmid = some 9000;
  vlan_tag = some 901;
  mgmt_ip = some 3232235777;
}

no_address_left : allocate ranges (held_run ∷ []) ≡ none
unfolding allocate range ip_range lowest_free two_lowest_free in_use_vmids in_use_tags in_use_ips
    new_run
no_address_left = refl

allocate-Exhausted_example : Exhausted ranges (held_run ∷ [])
allocate-Exhausted_example = allocate-Exhausted ranges (held_run ∷ []) no_address_left

abbrev local_entry : HostEntry
local_entry = record {
  location = "pbs:muc/store";
  storage = "pbs-muc";
  pbs = "muc";
  datastore = "store";
  namespace = "";
}

matches_local :
    match_source ("pbs:ber/store" ∷ "pbs:muc/store" ∷ []) (local_entry ∷ []) ≡ some local_entry
unfolding match_source
matches_local = refl

abbrev snapshots : List Snapshot
snapshots =
    record { snapshot_id = "a"; complete = true; backup_time = some 10; size = some 1 }
    ∷ record { snapshot_id = "b"; complete = false; backup_time = some 30; size = some 1 }
    ∷ record { snapshot_id = "c"; complete = true; backup_time = some 20; size = none }
    ∷ []

pick_latest_complete-IsLatest_example : IsLatest snapshots (pick_latest_complete snapshots)
pick_latest_complete-IsLatest_example = pick_latest_complete-IsLatest snapshots

abbrev answers : Dict ℕ IpCheck
answers =
    (5, record { icmp = false; arp = true; ports = (443, true) ∷ (22, false) ∷ [] })
    ∷ (6, record { icmp = true; arp = false; ports = (22, true) ∷ [] })
    ∷ []

-- Each check is green at one of the addresses.
union_passes : classify_multi answers (5 ∷ 6 ∷ []) true (22 ∷ 443 ∷ []) true ≡ passed
unfolding classify_multi get
union_passes = refl

labels_shown :
    green_check_labels (probed answers)
    ≡ icmp_label ∷ arp_label ∷ port_label 22 ∷ port_label 443 ∷ []
unfolding green_check_labels
labels_shown = refl

classify_multi-more_example :
    rank (classify_multi answers (5 ∷ []) true (22 ∷ []) true)
    ≤ rank (classify_multi answers (5 ∷ 6 ∷ []) true (22 ∷ []) true)
classify_multi-more_example = classify_multi-more answers 5 [] (6 ∷ []) true (22 ∷ []) true

-- what the addresses answered
abbrev found_checks : List IpCheck
found_checks =
    record { icmp = false; arp = true; ports = (443, true) ∷ (22, false) ∷ [] }
    ∷ record { icmp = true; arp = false; ports = (22, true) ∷ [] }
    ∷ []

open_ports_lem_example :
    Ascending (open_ports found_checks)
    × ((n : ℕ) → contains (open_ports found_checks) n ≡ any (port_open n) found_checks)
unfolding keys
open_ports_lem_example = open_ports_lem found_checks (refl, (refl, tt))
