-- ===== src/Monitor/Storages.antt =====
-- `job_storages_by_vmid` of app/services/proxmox.py: the storages that the backup jobs of a cluster
-- write a guest to. A job comes with its lists of VMIDs parsed; a set is a list, and a field that is
-- missing or empty is `none`.
pub mod Sound
use backup_sentinel.Prelude.{
  if◌then◌else◌, ◌==◌, filter, contains, ℕ, String, Bool, true, false, not, Option, none, some,
  List, [], ◌∷◌, map, nat_eq, string_eq,
}
use backup_sentinel.Prelude.Dict.{Dict, get, put}
use backup_sentinel.Prelude.Sort.{sort_by}
use backup_sentinel.Monitor.Jobs.{Selection, vmids_of_ranges, expand_job_vmids}
use Prim.Native.Nat.{Ordering}
use Prim.Native.String.{compare}

-- the order of texts, by code points
abbrev pub is_text_before : String → String → Bool
is_text_before s t = elim (compare s t) [
  | Ordering.lt ↦ true
  | Ordering.eq ↦ true
  | Ordering.gt ↦ false
]

pub record PveGuest : Type 0 where
  pub vmid : ℕ
  pub pool : Option String
  pub node_name : Option String

pub record StorageJob : Type 0 where
  pub storage : Option String
  pub enabled : Bool
  pub pool : Option String
  pub selection : Selection
  pub exclude : List (ℕ × ℕ)
  pub node : Option String

abbrev pub is_named : Option String → String → Bool
is_named none name = false
is_named (some found) name = found == name

-- `{vm["vmid"] for vm in vms if vm.get(field) == name}`
unfoldable pub vmids_named : (PveGuest → Option String) → String → List PveGuest → List ℕ
vmids_named field name [] = []
vmids_named field name (vm ∷ vms) =
    let rest = vmids_named field name vms in
    if is_named (field vm) name then vm.vmid ∷ rest else rest

abbrev pub vmids_of : List PveGuest → List ℕ
vmids_of vms = map (λ vm. vm.vmid) vms

-- `pool`, or else `vmid`
abbrev pub chosen_vmids : List PveGuest → StorageJob → List ℕ
chosen_vmids vms job = elim job.pool [
  | none ↦ expand_job_vmids job.selection (vmids_of vms)
  | some pool ↦ vmids_named (λ vm. vm.pool) pool vms
]

abbrev pub is_on_node : List PveGuest → Option String → ℕ → Bool
is_on_node vms none v = true
is_on_node vms (some node) v = contains (vmids_named (λ vm. vm.node_name) node vms) v

-- what is left of the chosen after `-=` and the two `&`
unfoldable pub job_vmids : List PveGuest → StorageJob → List ℕ
job_vmids vms job =
    let excluded = vmids_of_ranges job.exclude in
    let kept = filter (λ v. not (contains excluded v)) (chosen_vmids vms job) in
    filter (contains (vmids_of vms)) (filter (is_on_node vms job.node) kept)

abbrev pub found_storages : Option (List String) → List String
found_storages none = []
found_storages (some storages) = storages

-- `result.get(vmid, set())`
abbrev pub stored : ℕ → Dict ℕ (List String) → List String
stored v d = found_storages (get v d)

-- `result.setdefault(vmid, set()).add(storage)`
unfoldable pub add_storage : String → ℕ → Dict ℕ (List String) → Dict ℕ (List String)
add_storage storage v d =
    let old = stored v d in put v (if contains old storage then old else storage ∷ old) d

unfoldable pub add_storage_to : String → List ℕ → Dict ℕ (List String) → Dict ℕ (List String)
add_storage_to storage [] d = d
add_storage_to storage (v ∷ vs) d = add_storage_to storage vs (add_storage storage v d)

unfoldable pub add_storage_job :
    List PveGuest → StorageJob → Option String → Dict ℕ (List String) → Dict ℕ (List String)
add_storage_job vms job none d = d
add_storage_job vms job (some storage) d =
    if job.enabled then add_storage_to storage (job_vmids vms job) d else d

unfoldable pub add_storage_jobs :
    List PveGuest → List StorageJob → Dict ℕ (List String) → Dict ℕ (List String)
add_storage_jobs vms [] d = d
add_storage_jobs vms (job ∷ jobs) d =
    add_storage_jobs vms jobs (add_storage_job vms job job.storage d)

-- `sorted(storages)` of every value
unfoldable pub sort_values : Dict ℕ (List String) → Dict ℕ (List String)
sort_values [] = []
sort_values ((v, storages) ∷ d) = (v, sort_by is_text_before storages) ∷ sort_values d

unfoldable pub job_storages_by_vmid : List PveGuest → List StorageJob → Dict ℕ (List String)
job_storages_by_vmid vms jobs = sort_values (add_storage_jobs vms jobs [])
