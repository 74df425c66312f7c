-- ===== src/Monitor/Status.antt =====
-- app/services/backup_status.py. A time is in microseconds; a span that would be negative counts as
-- 0, which no test of this module tells apart.
pub mod Laws
use backup_sentinel.Prelude.{
  ltb, leb, if◌then◌else◌, ◌==◌, filter, ℕ, ◌+◌, ◌-◌, ◌*◌, ◌/◌, max, Bool, true, false, ◌&&◌, ◌||◌,
  Option, none, some, List, [], ◌∷◌, ◌++◌, nat_eq, string_eq,
}
use backup_sentinel.Prelude.Int.{ℤ, sub_ℕ}
use backup_sentinel.Restore.Worker.{now}

-- the statuses of a row, of a copy and of a sync
pub data Light : Type 0 where
  ok warning critical unknown single info gone : Light

pub data BackupKind : Type 0 where
  no_backup unconfigured daily weekly other_kind : BackupKind

abbrev pub hour : ℕ
hour = 3600000000

abbrev pub day : ℕ
day = 24 * hour

abbrev pub age_light : ℕ → ℕ → ℕ → Light
age_light critical_from warning_from age =
    if leb critical_from age then critical else if leb warning_from age then warning else ok

abbrev pub light_of_kind : BackupKind → ℕ → Light
light_of_kind daily age = age_light (48 * hour) (36 * hour) age
light_of_kind weekly age = age_light (14 * day + 12 * hour) (7 * day + 12 * hour) age
light_of_kind _ age = unknown

-- `unconfigured` is judged as `daily`
abbrev as_daily : BackupKind → BackupKind
as_daily unconfigured = daily
as_daily kind = kind

abbrev pub assess_age : BackupKind → Option ℕ → ℕ → Light × Option ℕ
assess_age kind none now = (critical, none)
assess_age kind (some last) now = (light_of_kind kind (now - last), some ((now - last) / day))

unfoldable pub assess_backup_status : BackupKind → Option ℕ → ℕ → Light × Option ℕ
assess_backup_status no_backup last_backup_at now = (ok, none)
assess_backup_status kind last_backup_at now = assess_age (as_daily kind) last_backup_at now

abbrev pub second : ℕ
second = 1000000

-- twice the threshold, so that 1.5 is whole: max(1.5 typical, typical + 15 minutes)
abbrev pub twice_threshold : ℕ → ℕ
twice_threshold typical = max (3 * typical) (2 * (typical + 900)) * second

abbrev pub projected : ℕ → Option ℕ → ℕ → ℕ
projected started none now = now - started
projected started (some eta) now = max (now - started) (eta - started)

abbrev pub slow_if : ℕ → ℕ → Option (ℕ × ℕ)
slow_if typical span =
    if ltb (twice_threshold typical) (2 * span) then some (typical, span / second) else none

-- `started_at` and `eta` of the progress, and the typical seconds, where 0 counts as unknown
unfoldable pub assess_slow_backup : Option ℕ → Option ℕ → Option ℕ → ℕ → Option (ℕ × ℕ)
assess_slow_backup (some started) eta (some typical) now =
    if typical == 0 then none else slow_if typical (projected started eta now)
assess_slow_backup _ eta _ now = none

-- `_SEVERITY_RANK`
abbrev pub rank : Light → Option ℕ
rank ok = some 0
rank warning = some 1
rank critical = some 2
rank _ = none

abbrev pub rank_or_zero : Light → ℕ
rank_or_zero light = elim (rank light) [ none ↦ 0 | some n ↦ n ]

abbrev pub is_ranked : Light → Bool
is_ranked light = elim (rank light) [ none ↦ false | some _ ↦ true ]

-- Python's `max` by rank: the first of the greatest, `ok` of none
unfoldable pub worst_from : Light → List Light → Light
worst_from worst [] = worst
worst_from worst (l ∷ lights) =
    worst_from (if ltb (rank_or_zero worst) (rank_or_zero l) then l else worst) lights

abbrev pub worst_of : List Light → Light
worst_of [] = ok
worst_of (l ∷ lights) = worst_from l lights

abbrev pub listed_light : Option Light → List Light
listed_light none = []
listed_light (some l) = l ∷ []

abbrev pub is_single : Option Light → Bool
is_single (some single) = true
is_single _ = false

abbrev is_ok : Light → Bool
is_ok ok = true
is_ok _ = false

-- all fine, in a single location
abbrev pub dot_of : Light → Option Light → Light
dot_of worst copy = if is_ok worst && is_single copy then info else worst

unfoldable pub overall_status : Light → Option Light → Option Light → Bool → Light
overall_status backup copy verify vm_gone =
    let worst = worst_of (filter is_ranked (backup ∷ listed_light copy ++ listed_light verify)) in
    if vm_gone then gone else dot_of worst copy

-- `due_status` of the restore column; `open` is never tested
pub data Due : Type 0 where
  due_open due_ok due_warning due_critical : Due

pub data Tone : Type 0 where
  no_tone : Tone
  tone : Due → Tone

abbrev summary_of : Due → ℕ → ℕ → Tone × Option ℤ
summary_of due_open age interval = (tone due_open, none)
summary_of due_critical age interval = (tone due_critical, some (sub_ℕ age interval))
summary_of due age interval = (tone due, some (sub_ℕ interval age))

unfoldable pub restore_summary : Due → Option ℕ → Option ℕ → Bool → Tone × Option ℤ
restore_summary due age interval false = (no_tone, none)
restore_summary due (some age) (some interval) true = summary_of due age interval
restore_summary due _ _ true = (tone due_open, none)

abbrev is_false : Option Bool → Bool
is_false (some false) = true
is_false _ = false

abbrev minute : ℕ
minute = 60000000

unfoldable pub sync_freshness : Option ℕ → Option Bool → ℕ → ℕ → Light
sync_freshness none last_ok now interval_minutes = critical
sync_freshness (some last_success) last_ok now interval_minutes =
    let age = now - last_success in
    if ltb (24 * 60 * minute) age
    then critical
    else if is_false last_ok || ltb ((2 * interval_minutes + 10) * minute) age
    then warning
    else ok

unfoldable pub pbs_sync_state : Option Bool → Option ℕ → ℕ → ℕ → Light
unfolding sync_freshness
pbs_sync_state none last_sync_at now interval_minutes = unknown
pbs_sync_state (some false) last_sync_at now interval_minutes = critical
pbs_sync_state (some true) last_sync_at now interval_minutes =
    sync_freshness last_sync_at (some true) now interval_minutes
