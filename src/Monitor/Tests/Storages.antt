-- ===== src/Monitor/Tests/Storages.antt =====
-- Guests of two pools and nodes, a job for a pool without one guest, one for a range on one node, and
-- one that is disabled.
use backup_sentinel.Prelude.{
  any, contains, ◌≡◌, refl, true, false, none, some, List, [], ◌∷◌, nat_eq, string_eq,
}
use backup_sentinel.Prelude.Dict.{get, put}
use backup_sentinel.Prelude.Sort.{insert_by, sort_by}
use backup_sentinel.Restore.Alloc.{range}
use backup_sentinel.Monitor.Jobs.{every_guest, only, vmids_of_ranges, expand_job_vmids}
use backup_sentinel.Monitor.Storages.{
  PveGuest, StorageJob, vmids_named, job_vmids, stored, add_storage, add_storage_to,
  add_storage_job, add_storage_jobs, sort_values, job_storages_by_vmid,
}
use backup_sentinel.Monitor.Storages.Sound.{backs_up, job_storages_by_vmid-backs_up}

abbrev web_guest : PveGuest
web_guest = record { vmid = 100; pool = some "web"; node_name = some "pve1" }

abbrev spare_guest : PveGuest
spare_guest = record { vmid = 101; pool = some "web"; node_name = some "pve2" }

abbrev loose_guest : PveGuest
loose_guest = record { vmid = 102; pool = none; node_name = some "pve2" }

abbrev guests : List PveGuest
guests = web_guest ∷ spare_guest ∷ loose_guest ∷ []

abbrev pool_job : StorageJob
pool_job = record {
  storage = some "pbs";
  enabled = true;
  pool = some "web";
  selection = every_guest;
  exclude = (101, 101) ∷ [];
  node = none;
}

abbrev range_job : StorageJob
range_job = record {
  storage = some "nas";
  enabled = true;
  pool = none;
  selection = only ((100, 105) ∷ []);
  exclude = [];
  node = some "pve2";
}

abbrev idle_job : StorageJob
idle_job = record {
  storage = some "tape";
  enabled = false;
  pool = none;
  selection = every_guest;
  exclude = [];
  node = none;
}

abbrev storage_jobs : List StorageJob
storage_jobs = pool_job ∷ range_job ∷ record pool_job { exclude = [] } ∷ idle_job ∷ []

storages_found :
    job_storages_by_vmid guests storage_jobs
    ≡ (100, "pbs" ∷ []) ∷ (101, "nas" ∷ "pbs" ∷ []) ∷ (102, "nas" ∷ []) ∷ []
unfolding job_storages_by_vmid sort_values add_storage_jobs add_storage_job add_storage_to job_vmids
    vmids_named vmids_of_ranges add_storage put expand_job_vmids range sort_by get insert_by
storages_found = refl

job_storages_by_vmid-backs_up_example :
    contains (stored 101 (job_storages_by_vmid guests storage_jobs)) "nas"
    ≡ any (backs_up guests 101 "nas") storage_jobs
job_storages_by_vmid-backs_up_example = job_storages_by_vmid-backs_up guests storage_jobs 101 "nas"
