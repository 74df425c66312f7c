-- ===== src/Monitor/Dedup/Laws.antt =====
-- What `_dedup_pbs_events` keeps.
use backup_sentinel.Prelude.{
  leb, ◌==◌, any, filter, ℕ, zero, suc, ◌+◌, ◌≡◌, refl, Bool, not, ◌&&◌, ◌||◌, List, [], ◌∷◌, arith,
  nat_eq, string_eq,
}
use backup_sentinel.Monitor.Dedup.{
  Event, hour_of, direct_hours, seen_near, dedup_from, dedup_pbs_events,
}

-- an event that its PBS reported
abbrev pub is_direct : Event → Bool
is_direct event = not event.from_pve

-- whether two hours are the same or stand beside each other
abbrev pub is_near : ℕ → ℕ → Bool
is_near bucket beside = leb bucket (beside + 1) && leb beside (bucket + 1)

-- Some event that a PBS reported is of the same guest, in the hour of `event` or one beside it.
abbrev pub is_reported : List Event → Event → Bool
is_reported events event =
    any (λ d. is_direct d && d.vmid == event.vmid && is_near (hour_of event) (hour_of d)) events

-- The event was reported by a PBS, or no PBS reported it.
abbrev pub stays : List Event → Event → Bool
stays events event = is_direct event || not (is_reported events event)

seen_near-near :
    (direct : List (ℕ × ℕ)) (vmid bucket : ℕ)
    → seen_near direct vmid bucket ≡ any (λ key. key.0 == vmid && is_near bucket key.1) direct
seen_near-near [] vmid zero = refl
seen_near-near [] vmid (suc bucket) = refl
seen_near-near (key ∷ direct) vmid zero = ground (arith, seen_near-near direct vmid zero)
seen_near-near (key ∷ direct) vmid (suc bucket) =
    ground (arith, seen_near-near direct vmid (suc bucket))

any-direct_hours :
    (events : List Event) (vmid bucket : ℕ)
    → any (λ key. key.0 == vmid && is_near bucket key.1) (direct_hours events)
      ≡ any (λ d. is_direct d && d.vmid == vmid && is_near bucket (hour_of d)) events
unfolding direct_hours
any-direct_hours [] vmid bucket = refl
any-direct_hours (event ∷ events) vmid bucket = ground (arith, any-direct_hours events vmid bucket)

dedup_from-stays :
    (all_events events : List Event)
    → dedup_from (direct_hours all_events) events ≡ filter (stays all_events) events
unfolding dedup_from
dedup_from-stays all_events [] = refl
dedup_from-stays all_events (event ∷ events) = ground (
  arith,
  dedup_from-stays all_events events,
  seen_near-near (direct_hours all_events) event.vmid (hour_of event),
  any-direct_hours all_events event.vmid (hour_of event),
)

-- What is left is, in order, every event that a PBS reported, and of those seen through PVE the ones
-- for which no event of the list that a PBS reported is of the same guest and in the same hour, in
-- the one before or in the one after.
pub dedup_pbs_events-stays :
    (events : List Event) → dedup_pbs_events events ≡ filter (stays events) events
unfolding dedup_pbs_events
dedup_pbs_events-stays events = dedup_from-stays events events
