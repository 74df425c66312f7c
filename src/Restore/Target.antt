-- ===== src/Restore/Target.antt =====
-- app/services/restore_orchestrator.py: the storage that a restore goes to, and whether it fits now.
pub mod Laws
use backup_sentinel.Prelude.{
  leb, if◌then◌else◌, ◌==◌, is_empty, any, ℕ, ◌+◌, String, Bool, true, false, ◌&&◌, Option, none,
  some, List, [], ◌∷◌, nat_eq, string_eq,
}
use backup_sentinel.Prelude.Dict.{Dict, get, put}
use backup_sentinel.Restore.Worker.{RunPlan, known, fits_disk}

-- `(decision, storage)`
pub data Choice : Type 0 where
  chosen wait : String → Choice
  too_big : Choice

-- `by.get(storage)`, where a storage may also be listed with `None`
abbrev flat : Option (Option ℕ) → Option ℕ
flat none = none
flat (some o) = o

abbrev pub size_of : Dict String (Option ℕ) → String → Option ℕ
size_of by storage = flat (get storage by)

abbrev at_least : ℕ → Option ℕ → Bool
at_least needed none = false
at_least needed (some n) = leb needed n

abbrev unknown_or_at_least : ℕ → Option ℕ → Bool
unknown_or_at_least needed none = true
unknown_or_at_least needed (some n) = leb needed n

-- room now
abbrev pub has_room : Dict String (Option ℕ) → ℕ → String → Bool
has_room avail_by needed storage = at_least needed (size_of avail_by storage)

-- big enough by its capacity, if that is known
abbrev pub may_hold : Dict String (Option ℕ) → ℕ → String → Bool
may_hold total_by needed storage = unknown_or_at_least needed (size_of total_by storage)

-- the first `for` loop
unfoldable pub first_with_room : Dict String (Option ℕ) → ℕ → List String → Option String
first_with_room avail_by needed [] = none
first_with_room avail_by needed (storage ∷ storages) =
    let rest = first_with_room avail_by needed storages in
    if has_room avail_by needed storage then some storage else rest

-- the second `for` loop, when the first found none
abbrev wait_or_fail : String → Bool → Choice
wait_or_fail top any_big = if any_big then wait top else too_big

abbrev pub choose_from : Option String → String → Bool → Choice
choose_from (some storage) top any_big = chosen storage
choose_from none top any_big = wait_or_fail top any_big

abbrev choose_needed :
    String → List String → Dict String (Option ℕ) → Dict String (Option ℕ) → Option ℕ → Choice
choose_needed top storages avail_by total_by none = chosen top
choose_needed top storages avail_by total_by (some needed) =
    choose_from (first_with_room avail_by needed (top ∷ storages)) top
      (any (may_hold total_by needed) (top ∷ storages))

-- `ordered_storages` is `top` and the others; a size of 0 is unknown
unfoldable pub choose_target_storage :
    String → List String → Dict String (Option ℕ) → Dict String (Option ℕ) → Option ℕ → Choice
choose_target_storage top storages avail_by total_by needed_bytes =
    choose_needed top storages avail_by total_by (known needed_bytes)

-- `demand` of `_fits_disk`: the bytes of the disks that each storage is to take
abbrev or_no_bytes : Option ℕ → ℕ
or_no_bytes none = 0
or_no_bytes (some n) = n

abbrev add_demand : Option String → ℕ → Dict String ℕ → Dict String ℕ
add_demand none size demand = demand
add_demand (some storage) size demand =
    if storage == "" then demand else put storage (or_no_bytes (get storage demand) + size) demand

unfoldable pub demand_from :
    Dict String String → List (String × Option ℕ) → Dict String ℕ → Dict String ℕ
demand_from targets [] demand = demand
demand_from targets ((dev, size) ∷ disks) demand =
    demand_from targets disks (add_demand (get dev targets) (or_no_bytes size) demand)

unfoldable pub all_fit : Dict String (Option ℕ) → Dict String ℕ → Bool
all_fit avail [] = true
all_fit avail ((storage, need) ∷ demand) =
    fits_disk (size_of avail storage) (some need) && all_fit avail demand

-- `_fits_disk`, when the host told its free resources; `disks` are the rows of the VM's disks
unfoldable pub fits_target : Dict String (Option ℕ) → List (String × Option ℕ) → RunPlan → Bool
fits_target avail disks plan = elim plan.disk_targets [
  | some targets ↦
      if is_empty targets
      then fits_disk (size_of avail plan.target_storage) plan.needed_bytes
      else all_fit avail (demand_from targets disks [])
  | none ↦ fits_disk (size_of avail plan.target_storage) plan.needed_bytes
]
