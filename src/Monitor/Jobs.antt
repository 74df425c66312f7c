-- ===== src/Monitor/Jobs.antt =====
-- The backup jobs of a cluster in app/services/proxmox.py: which guests a job covers, and how often
-- a guest is backed up. A job is given with its schedule classified and its lists of VMIDs parsed.
pub mod Precedence
use backup_sentinel.Prelude.{
  if◌then◌else◌, filter, contains, ℕ, ◌+◌, Bool, true, false, not, ◌||◌, Option, none, some, List,
  [], ◌∷◌, ◌++◌, nat_eq, string_eq,
}
use backup_sentinel.Prelude.Dict.{Dict, get, put}
use backup_sentinel.Restore.Alloc.{range}

pub data Kind : Type 0 where
  daily_kind weekly_kind : Kind

-- `vmid` of a job: empty or "all", or items that are a number or a range
pub data Selection : Type 0 where
  every_guest : Selection
  only : List (ℕ × ℕ) → Selection

pub record Job : Type 0 where
  pub enabled : Bool
  pub schedule : Kind
  pub selection : Selection
  pub exclude : List (ℕ × ℕ)

-- `_parse_vmid_set` of the parsed items; a number is a range of one
unfoldable pub vmids_of_ranges : List (ℕ × ℕ) → List ℕ
vmids_of_ranges [] = []
vmids_of_ranges ((lo, hi) ∷ items) = range lo (hi + 1) ++ vmids_of_ranges items

unfoldable pub expand_job_vmids : Selection → List ℕ → List ℕ
expand_job_vmids every_guest all_vmids = all_vmids
expand_job_vmids (only items) all_vmids = vmids_of_ranges items

-- the sets of the function as lists, in which a vmid may occur twice
unfoldable pub covered_vmids : Job → List ℕ → List ℕ
covered_vmids job all_vmids =
    let excluded = vmids_of_ranges job.exclude in
    filter (λ v. not (contains excluded v)) (expand_job_vmids job.selection all_vmids)

abbrev pub is_specific : Job → Bool
is_specific job = elim job.selection [ every_guest ↦ false | only _ ↦ true ]

pub record Kinds : Type 0 where
  pub result : Dict ℕ Kind
  pub specific : List ℕ

abbrev pub is_daily : Kind → Bool
is_daily daily_kind = true
is_daily weekly_kind = false

abbrev pub is_unset : Option Kind → Bool
is_unset none = true
is_unset (some _) = false

-- the body of the inner loop
unfoldable pub mark : Bool → Kind → ℕ → Kinds → Kinds
mark true kind vmid k =
    if contains k.specific vmid
    then (if is_daily kind then record k { result = put vmid daily_kind k.result } else k)
    else record { result = put vmid kind k.result; specific = vmid ∷ k.specific }
mark false kind vmid k =
    if contains k.specific vmid
    then k
    else (if is_daily kind || is_unset (get vmid k.result)
        then record k { result = put vmid kind k.result }
        else k)

unfoldable pub mark_all : Bool → Kind → List ℕ → Kinds → Kinds
mark_all specific kind [] k = k
mark_all specific kind (vmid ∷ vmids) k = mark_all specific kind vmids (mark specific kind vmid k)

unfoldable pub add_jobs : List ℕ → List Job → Kinds → Kinds
add_jobs all_vmids [] k = k
add_jobs all_vmids (job ∷ jobs) k = add_jobs all_vmids jobs (
    if job.enabled
    then mark_all (is_specific job) job.schedule (covered_vmids job all_vmids) k
    else k)

unfoldable pub infer_backup_kind_by_vmid : List ℕ → List Job → Dict ℕ Kind
infer_backup_kind_by_vmid all_vmids jobs =
    (add_jobs all_vmids jobs (record { result = []; specific = [] })).result
