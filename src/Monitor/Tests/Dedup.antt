-- ===== src/Monitor/Tests/Dedup.antt =====
-- A backup that its PBS and PVE both report, and one that only PVE has seen.
use backup_sentinel.Prelude.{filter, ◌≡◌, refl, true, false, List, [], ◌∷◌}
use backup_sentinel.Monitor.Dedup.{Event, direct_hours, dedup_from, dedup_pbs_events}
use backup_sentinel.Monitor.Dedup.Laws.{stays, dedup_pbs_events-stays}

abbrev from_pbs : Event
from_pbs = record { id = 1; vmid = 100; started_at = 7300; from_pve = false }

abbrev same_through_pve : Event
same_through_pve = record { id = 2; vmid = 100; started_at = 3700; from_pve = true }

abbrev only_pve : Event
only_pve = record { id = 3; vmid = 101; started_at = 3700; from_pve = true }

abbrev seen_events : List Event
seen_events = same_through_pve ∷ from_pbs ∷ only_pve ∷ []

dedups : dedup_pbs_events seen_events ≡ from_pbs ∷ only_pve ∷ []
unfolding dedup_pbs_events dedup_from direct_hours
dedups = refl

dedup_pbs_events-stays_example :
    dedup_pbs_events seen_events ≡ filter (stays seen_events) seen_events
dedup_pbs_events-stays_example = dedup_pbs_events-stays seen_events
