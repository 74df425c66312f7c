-- ===== src/Monitor/Storages/Sound.antt =====
-- The storages of a guest from the jobs that cover it.
use backup_sentinel.Prelude.{
  if◌then◌else◌, Bool-cases, ◌==◌, ==-refl, ==→≡, any, filter, contains, ℕ, String, ◌≡◌, refl, sym,
  ap, ◌∙◌, inl, inr, Bool, true, false, not, ◌&&◌, ◌||◌, none, some, List, [], ◌∷◌, arith, nat_eq,
  string_eq,
}
use backup_sentinel.Prelude.Dict.{Dict, get, put, get-put}
use backup_sentinel.Prelude.Sort.{insert_by, sort_by}
use backup_sentinel.Monitor.Jobs.{vmids_of_ranges}
use backup_sentinel.Monitor.Storages.{
  is_text_before, PveGuest, StorageJob, is_named, vmids_of, chosen_vmids, is_on_node, job_vmids,
  found_storages, stored, add_storage, add_storage_to, add_storage_job, add_storage_jobs,
  sort_values, job_storages_by_vmid,
}
use mathlib.Core.Option.{Option}
use mathlib.Core.Option

-- whether a job writes a guest to a storage
abbrev pub backs_up : List PveGuest → ℕ → String → StorageJob → Bool
backs_up vms v storage job =
    job.enabled
    && is_named job.storage storage
    && contains (vmids_of vms) v
    && contains (chosen_vmids vms job) v
    && not (contains (vmids_of_ranges job.exclude) v)
    && is_on_node vms job.node v

contains-filter :
    (p : ℕ → Bool) (xs : List ℕ) (v : ℕ) → contains (filter p xs) v ≡ (contains xs v && p v)
contains-filter p [] v = refl
contains-filter p (x ∷ xs) v = elim (Bool-cases (x == v)) [
  | inl e ↦ rw (==→≡ x v e) (ground (arith, contains-filter p xs v, ==-refl v))
  | inr n ↦ ground (arith, contains-filter p xs v, n)
]

contains-job_vmids :
    (vms : List PveGuest) (job : StorageJob) (v : ℕ)
    → contains (job_vmids vms job) v ≡ (
        contains (vmids_of vms) v
        && contains (chosen_vmids vms job) v
        && not (contains (vmids_of_ranges job.exclude) v)
        && is_on_node vms job.node v)
unfolding job_vmids
contains-job_vmids vms job v =
    let excluded = vmids_of_ranges job.exclude in
    let chosen = chosen_vmids vms job in
    let kept = filter (λ u. not (contains excluded u)) chosen in
    ground (
      arith,
      contains-filter (contains (vmids_of vms)) (filter (is_on_node vms job.node) kept) v,
      contains-filter (is_on_node vms job.node) kept v,
      contains-filter (λ u. not (contains excluded u)) chosen v,
    )

contains-add :
    (storage s : String) (old : List String)
    → contains (if contains old storage then old else storage ∷ old) s
      ≡ (contains old s || storage == s)
contains-add storage s old = elim (Bool-cases (storage == s)) [
  | inl e ↦ rw (==→≡ storage s e) (ground (arith, ==-refl s))
  | inr n ↦ ground (arith, n)
]

or_false : (b : Bool) → b ≡ (b || false)
or_false true = refl
or_false false = refl

stored-put :
    (u v : ℕ) (new : List String) (d : Dict ℕ (List String))
    → stored v (put u new d) ≡ (if u == v then new else stored v d)
stored-put u v new d = elim (Bool-cases (u == v)) [
  | inl e ↦ rw e (ap found_storages (rw e at (get-put u v new d)))
  | inr n ↦ rw n (ap found_storages (rw n at (get-put u v new d)))
]

stored-add_storage :
    (storage s : String) (u v : ℕ) (d : Dict ℕ (List String))
    → contains (stored v (add_storage storage u d)) s
      ≡ (contains (stored v d) s || u == v && storage == s)
unfolding add_storage
stored-add_storage storage s u v d =
    let new = if contains (stored u d) storage then stored u d else storage ∷ stored u d in
    ap (λ storages. contains storages s) (stored-put u v new d) ∙ elim (Bool-cases (u == v)) [
      | inl e ↦ rw e (rw (sym (==→≡ u v e)) (contains-add storage s (stored u d)))
      | inr n ↦ rw n (or_false (contains (stored v d) s))
    ]

stored-add_storage_to :
    (storage s : String) (us : List ℕ) (v : ℕ) (d : Dict ℕ (List String))
    → contains (stored v (add_storage_to storage us d)) s
      ≡ (contains (stored v d) s || contains us v && storage == s)
unfolding add_storage_to
stored-add_storage_to storage s [] v d = ground arith
stored-add_storage_to storage s (u ∷ us) v d = ground (
  arith,
  stored-add_storage_to storage s us v (add_storage storage u d),
  stored-add_storage storage s u v d,
)

contains-insert_by :
    (storage s : String) (xs : List String)
    → contains (insert_by is_text_before storage xs) s ≡ (storage == s || contains xs s)
unfolding insert_by
contains-insert_by storage s [] = refl
contains-insert_by storage s (x ∷ xs) =
    let rest = contains-insert_by storage s xs in
    elim (Bool-cases (is_text_before storage x)) [
      | inl t ↦ rw t refl
      | inr f ↦ rw f (ground (arith, rest))
    ]

contains-sort_by :
    (s : String) (xs : List String) → contains (sort_by is_text_before xs) s ≡ contains xs s
unfolding sort_by
contains-sort_by s [] = refl
contains-sort_by s (x ∷ xs) =
    ground (arith, contains-insert_by x s (sort_by is_text_before xs), contains-sort_by s xs)

get-sort_values :
    (v : ℕ) (d : Dict ℕ (List String))
    → get v (sort_values d) ≡ Option.map (sort_by is_text_before) (get v d)
unfolding sort_values get
get-sort_values v [] = refl
get-sort_values v ((u, storages) ∷ d) = elim (Bool-cases (u == v)) [
  | inl e ↦ rw e refl
  | inr n ↦ rw n (get-sort_values v d)
]

found_storages-map :
    (o : Option (List String))
    → found_storages (Option.map (sort_by is_text_before) o)
      ≡ sort_by is_text_before (found_storages o)
unfolding sort_by
found_storages-map none = refl
found_storages-map (some storages) = refl

stored-sort_values :
    (v : ℕ) (d : Dict ℕ (List String))
    → stored v (sort_values d) ≡ sort_by is_text_before (stored v d)
stored-sort_values v d = ap found_storages (get-sort_values v d) ∙ found_storages-map (get v d)

stored-add_storage_job :
    (vms : List PveGuest) (job : StorageJob) (storage : Option String) (s : String) (v : ℕ)
    (d : Dict ℕ (List String))
    → contains (stored v (add_storage_job vms job storage d)) s ≡ (
        contains (stored v d) s
        || job.enabled && is_named storage s && contains (job_vmids vms job) v)
unfolding add_storage_job
stored-add_storage_job vms job none s v d = ground arith
stored-add_storage_job vms job (some storage) s v d =
    ground (arith, stored-add_storage_to storage s (job_vmids vms job) v d)

stored-add_storage_jobs :
    (vms : List PveGuest) (jobs : List StorageJob) (s : String) (v : ℕ) (d : Dict ℕ (List String))
    → contains (stored v (add_storage_jobs vms jobs d)) s
      ≡ (contains (stored v d) s || any (backs_up vms v s) jobs)
unfolding add_storage_jobs
stored-add_storage_jobs vms [] s v d = or_false (contains (stored v d) s)
stored-add_storage_jobs vms (job ∷ jobs) s v d = ground (
  arith,
  stored-add_storage_jobs vms jobs s v (add_storage_job vms job job.storage d),
  stored-add_storage_job vms job job.storage s v d,
  contains-job_vmids vms job v,
)

-- A storage is listed for a guest exactly when an enabled job with that storage selects the guest by
-- its pool or its vmids, does not exclude it, and is limited to no node or to the guest's node.
pub job_storages_by_vmid-backs_up :
    (vms : List PveGuest) (jobs : List StorageJob) (v : ℕ) (s : String)
    → contains (stored v (job_storages_by_vmid vms jobs)) s ≡ any (backs_up vms v s) jobs
unfolding job_storages_by_vmid get
job_storages_by_vmid-backs_up vms jobs v s =
    let d = add_storage_jobs vms jobs [] in
    ap (λ storages. contains storages s) (stored-sort_values v d)
    ∙ contains-sort_by s (stored v d)
    ∙ stored-add_storage_jobs vms jobs s v []
