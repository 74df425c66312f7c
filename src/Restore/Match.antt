-- ===== src/Restore/Match.antt =====
-- app/services/restore_match.py: which datastore, and which snapshot, to restore a VM from.
pub mod Laws
use backup_sentinel.Prelude.{
  ltb, if◌then◌else◌, filter, contains, ℕ, String, Bool, true, false, Option, none, some, List, [],
  ◌∷◌, nat_eq, string_eq,
}

-- A PBS datastore of the restore host with its canonical location.
pub record HostEntry : Type 0 where
  pub location : String
  pub storage : String
  pub pbs : String
  pub datastore : String
  pub namespace : String

unfoldable pub match_source : List String → List HostEntry → Option HostEntry
match_source vm_locations [] = none
match_source vm_locations (entry ∷ entries) =
    let rest = match_source vm_locations entries in
    if contains vm_locations entry.location then some entry else rest

abbrev is_some : Option HostEntry → Bool
is_some none = false
is_some (some _) = true

unfoldable pub is_auto_restorable : List String → List HostEntry → Bool
unfolding match_source
is_auto_restorable vm_locations entries = is_some (match_source vm_locations entries)

pub record Snapshot : Type 0 where
  pub snapshot_id : String
  pub complete : Bool
  pub backup_time : Option ℕ  -- unix seconds, absent counts as 0
  pub size : Option ℕ

abbrev pub time_of : Snapshot → ℕ
time_of s = elim s.backup_time [ none ↦ 0 | some t ↦ t ]

-- Python's `max(xs, key=...)`: the first of the greatest
pub newest : Snapshot → List Snapshot → Snapshot
newest best [] = best
newest best (s ∷ rest) = newest (if ltb (time_of best) (time_of s) then s else best) rest

abbrev pub newest_of : List Snapshot → Option Snapshot
newest_of [] = none
newest_of (s ∷ rest) = some (newest s rest)

unfoldable pub pick_latest_complete : List Snapshot → Option Snapshot
unfolding newest
pick_latest_complete snapshots = newest_of (filter (λ s. s.complete) snapshots)
