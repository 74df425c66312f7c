-- ===== src/Restore/Pack.antt =====
-- app/services/restore_pack.py: whole disks onto storages, by backtracking.
pub mod Restores
pub mod Sound
pub mod Complete
pub mod Plan
use backup_sentinel.Prelude.{
  leb, if◌then◌else◌, ℕ, ◌+◌, ◌-◌, String, Bool, true, false, Option, none, some, List, [], ◌∷◌,
  map, nat_eq, string_eq,
}
use backup_sentinel.Prelude.Dict.{Dict, get, put, remove, from_items}
use backup_sentinel.Prelude.Sort.{insert_by, sort_by}

pub record Packing : Type 0 where
  pub remaining : Dict String ℕ
  pub result : Dict String String

abbrev pub amount : Option ℕ → ℕ
amount none = 0
amount (some n) = n

-- `remaining[name]`; the names tried are keys of `remaining`
abbrev pub room : String → Packing → ℕ
room name p = amount (get name p.remaining)

-- `remaining[name] -= size; result[dev] = name`, under the guard `remaining[name] >= size`
unfoldable pub assign : String → ℕ → String → Packing → Packing
assign dev size name p = record {
  remaining = put name (room name p - size) p.remaining;
  result = put dev name p.result;
}

-- `remaining[name] += size; del result[dev]`
unfoldable pub release : String → ℕ → String → Packing → Packing
release dev size name p = record {
  remaining = put name (room name p + size) p.remaining;
  result = remove dev p.result;
}

-- the `for name in names` loop of `place`, where `next` is `place(i + 1)`
unfoldable pub try_storages :
    List String → (Packing → Bool × Packing) → String → ℕ → Packing → Bool × Packing
try_storages [] next dev size p = (false, p)
try_storages (name ∷ names) next dev size p =
    let full = try_storages names next dev size p in
    let placed = next (assign dev size name p) in
    let undone = try_storages names next dev size (release dev size name placed.1) in
    if leb size (room name p) then (if placed.0 then placed else undone) else full

unfoldable pub place : List String → List (String × ℕ) → Packing → Bool × Packing
place names [] p = (true, p)
place names ((dev, size) ∷ order) p = try_storages names (place names order) dev size p

-- `key=lambda d: d[1], reverse=True`
abbrev pub larger_first : String × ℕ → String × ℕ → Bool
larger_first a b = leb b.1 a.1

abbrev pub storage_names : List (String × ℕ) → List String
storage_names = map (λ s. s.0)

abbrev pub start : List (String × ℕ) → Packing
start storages = record { remaining = from_items storages; result = [] }

unfoldable pub pack_disks : List (String × ℕ) → List (String × ℕ) → Option (Dict String String)
unfolding place try_storages assign release from_items sort_by insert_by get put remove
pack_disks [] storages = some []
pack_disks (d ∷ disks) storages =
    let (done, p) =
      place (storage_names storages) (sort_by larger_first (d ∷ disks)) (start storages) in
    if done then some p.result else none

pub data Decision : Type 0 where
  ok : Dict String String → Decision
  retry impossible : Decision

abbrev pub pairs_of : List (String × Option ℕ) → List (String × ℕ)
pairs_of = map (λ (d : String × Option ℕ). (d.0, amount d.1))

-- the early returns on the two packings
abbrev pub decision_of : Option (Dict String String) → Option (Dict String String) → Decision
decision_of (some mapping) _ = ok mapping
decision_of none (some _) = retry
decision_of none none = impossible

-- a disk row's `size_bytes` may be missing or null: `int(d.get("size_bytes") or 0)`
unfoldable pub plan_distribution :
    List (String × Option ℕ) → List (String × ℕ) → List (String × ℕ) → Decision
plan_distribution disks avail total =
    decision_of (pack_disks (pairs_of disks) avail) (pack_disks (pairs_of disks) total)
