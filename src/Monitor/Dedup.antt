-- ===== src/Monitor/Dedup.antt =====
-- `_dedup_pbs_events` of app/web/sync.py: a backup that is seen twice, by its PBS and through PVE.
pub mod Laws
use backup_sentinel.Prelude.{
  if◌then◌else◌, ◌==◌, any, ℕ, zero, suc, ◌+◌, ◌/◌, Bool, false, not, ◌&&◌, ◌||◌, List, [], ◌∷◌,
  nat_eq, string_eq,
}
use backup_sentinel.Monitor.Status.{hour}

-- What the function reads of a backup event; `started_at` is in seconds.
pub record Event : Type 0 where
  pub id : ℕ
  pub vmid : ℕ
  pub started_at : ℕ
  pub from_pve : Bool

abbrev pub hour_of : Event → ℕ
hour_of event = event.started_at / 3600

-- the keys of `direct`
unfoldable pub direct_hours : List Event → List (ℕ × ℕ)
direct_hours [] = []
direct_hours (event ∷ events) =
    let rest = direct_hours events in
    if event.from_pve then rest else (event.vmid, hour_of event) ∷ rest

abbrev pub is_at : ℕ → ℕ → ℕ × ℕ → Bool
is_at vmid hour key = key.0 == vmid && key.1 == hour

-- `(vmid, hour - 1) in direct`; an hour before the epoch is none
abbrev pub seen_before : List (ℕ × ℕ) → ℕ → ℕ → Bool
seen_before direct vmid zero = false
seen_before direct vmid (suc hour) = any (is_at vmid hour) direct

abbrev pub seen_near : List (ℕ × ℕ) → ℕ → ℕ → Bool
seen_near direct vmid hour =
    any (is_at vmid hour) direct
    || seen_before direct vmid hour
    || any (is_at vmid (hour + 1)) direct

-- the second loop, with the keys of the first
unfoldable pub dedup_from : List (ℕ × ℕ) → List Event → List Event
dedup_from direct [] = []
dedup_from direct (event ∷ events) =
    let rest = dedup_from direct events in
    if not event.from_pve
    then event ∷ rest
    else if seen_near direct event.vmid (hour_of event)
    then rest
    else event ∷ rest

unfoldable pub dedup_pbs_events : List Event → List Event
dedup_pbs_events events = dedup_from (direct_hours events) events
