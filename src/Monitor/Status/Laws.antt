-- ===== src/Monitor/Status/Laws.antt =====
-- What the judgements of app/services/backup_status.py promise.
use backup_sentinel.Prelude.{
  ltb, if◌then◌else◌, ltb→lt, Bool-cases, ◌==◌, filter, ℕ, ◌+◌, ◌-◌, ◌*◌, ◌/◌, ◌≤◌, max, ◌≡◌, refl,
  ap, ◌∙◌, inl, inr, Bool, false, Option, none, some, List, [], ◌∷◌, ◌++◌, arith, nat_eq, string_eq,
}
use backup_sentinel.Restore.Worker.{now}
use backup_sentinel.Monitor.Status.{
  Light, BackupKind, no_backup, unconfigured, daily, weekly, other_kind, age_light, light_of_kind,
  assess_backup_status, assess_slow_backup, rank_or_zero, worst_from, overall_status,
  sync_freshness, assess_age, is_ranked, worst_of, listed_light, second, twice_threshold, projected,
  slow_if, dot_of,
}

abbrev pub days_or_zero : Option ℕ → ℕ
days_or_zero none = 0
days_or_zero (some n) = n

age_light-grows :
    (c w a b : ℕ) → w ≤ c → a ≤ b → rank_or_zero (age_light c w a) ≤ rank_or_zero (age_light c w b)
age_light-grows c w a b order h = ground arith

light_of_kind-grows :
    (kind : BackupKind) (a b : ℕ)
    → a ≤ b
    → rank_or_zero (light_of_kind kind a) ≤ rank_or_zero (light_of_kind kind b)
light_of_kind-grows daily a b h = age_light-grows _ _ a b (omega arith) h
light_of_kind-grows weekly a b h = age_light-grows _ _ a b (omega arith) h
light_of_kind-grows no_backup a b h = omega arith
light_of_kind-grows unconfigured a b h = omega arith
light_of_kind-grows other_kind a b h = omega arith

-- Of two judgements of a backup, the later one has no lower rank and no lower age.
pub record IsNoBetter (a b : Light × Option ℕ) : Type 0 where
  pub light : rank_or_zero a.0 ≤ rank_or_zero b.0
  pub age : days_or_zero a.1 ≤ days_or_zero b.1

assess_age-grows :
    (kind : BackupKind) (last : Option ℕ) (before hence : ℕ)
    → before ≤ hence
    → IsNoBetter (assess_age kind last before) (assess_age kind last hence)
assess_age-grows kind none before hence h = record { light = omega arith; age = omega arith }
assess_age-grows kind (some last) before hence h = record {
  light = light_of_kind-grows kind (before - last) (hence - last) (omega (arith, h));
  age = omega (arith, h);
}

-- Time alone makes no backup better: as the clock moves on, neither the severity nor the age drops.
pub assess_backup_status-grows :
    (kind : BackupKind) (last : Option ℕ) (before hence : ℕ)
    → before ≤ hence
    → IsNoBetter (assess_backup_status kind last before) (assess_backup_status kind last hence)
unfolding assess_backup_status
assess_backup_status-grows no_backup last before hence h = record {
  light = omega arith;
  age = omega arith;
}
assess_backup_status-grows unconfigured last before hence h =
    assess_age-grows daily last before hence h
assess_backup_status-grows daily last before hence h = assess_age-grows daily last before hence h
assess_backup_status-grows weekly last before hence h = assess_age-grows weekly last before hence h
assess_backup_status-grows other_kind last before hence h =
    assess_age-grows other_kind last before hence h

max_rank : List Light → ℕ
max_rank [] = 0
max_rank (l ∷ lights) = max (rank_or_zero l) (max_rank lights)

worst_from-rank :
    (worst : Light) (lights : List Light)
    → rank_or_zero (worst_from worst lights) ≡ max (rank_or_zero worst) (max_rank lights)
unfolding worst_from max_rank
worst_from-rank worst [] = omega arith
worst_from-rank worst (l ∷ lights) =
    worst_from-rank (if ltb (rank_or_zero worst) (rank_or_zero l) then l else worst) lights
    ∙ elim (Bool-cases (ltb (rank_or_zero worst) (rank_or_zero l))) [
      | inl above ↦ rw above (omega (arith, ltb→lt _ _ above))
      | inr below ↦ rw below (ground (arith, below))
    ]

max_rank-filter : (lights : List Light) → max_rank (filter is_ranked lights) ≡ max_rank lights
unfolding max_rank
max_rank-filter [] = refl
max_rank-filter (l ∷ lights) = ground (arith, max_rank-filter lights)

worst_of-rank : (lights : List Light) → rank_or_zero (worst_of lights) ≡ max_rank lights
unfolding max_rank
worst_of-rank [] = refl
worst_of-rank (l ∷ lights) = worst_from-rank l lights

abbrev pub rank_of : Option Light → ℕ
rank_of none = 0
rank_of (some l) = rank_or_zero l

dot_of-rank :
    (worst : Light) (copy : Option Light) → rank_or_zero (dot_of worst copy) ≡ rank_or_zero worst
dot_of-rank worst copy = ground arith

-- The dot of a VM that is there has the highest of the three severities, where an unknown one, and
-- `info` for a single copy, count as fine.
pub overall_status-rank :
    (backup : Light) (copy verify : Option Light)
    → rank_or_zero (overall_status backup copy verify false)
      ≡ max (rank_or_zero backup) (max (rank_of copy) (rank_of verify))
unfolding overall_status max_rank
overall_status-rank backup copy verify =
    let lights = backup ∷ listed_light copy ++ listed_light verify in
    dot_of-rank (worst_of (filter is_ranked lights)) copy
    ∙ worst_of-rank (filter is_ranked lights)
    ∙ max_rank-filter lights
    ∙ ground arith

slow_if-IsSlow :
    (typical n t span : ℕ)
    → slow_if typical n ≡ some (t, span)
    → (some typical ≡ some t) × (3 * t ≤ 2 * span + 1) × (t + 900 ≤ span)
slow_if-IsSlow typical n t span e = elim (Bool-cases (ltb (twice_threshold typical) (2 * n))) [
  | inl above ↦
      let e' : some (typical, n / second) ≡ some (t, span) = rw above at e in
      let same : typical ≡ t = cc e' in
      let spans : n / second ≡ span = cc e' in
      (
        ap some same,
        omega (arith, ltb→lt (twice_threshold typical) (2 * n) above, same, spans),
        omega (arith, ltb→lt (twice_threshold typical) (2 * n) above, same, spans),
      )
  | inr below ↦ absurd (cc (rw below at e))
]

-- A slow backup is projected past one and a half times the typical run and at least 15 minutes more.
pub assess_slow_backup-IsSlow :
    (started eta typical : Option ℕ) (now t span : ℕ)
    → assess_slow_backup started eta typical now ≡ some (t, span)
    → (typical ≡ some t) × (3 * t ≤ 2 * span + 1) × (t + 900 ≤ span)
unfolding assess_slow_backup
assess_slow_backup-IsSlow (some started) eta (some typical) now t span e =
    elim (Bool-cases (typical == 0)) [
      | inl z ↦ absurd (cc (rw z at e))
      | inr z ↦ slow_if-IsSlow typical (projected started eta now) t span (rw z at e)
    ]
assess_slow_backup-IsSlow none eta typical now t span e = absurd (cc e)
assess_slow_backup-IsSlow (some started) eta none now t span e = absurd (cc e)

-- Time alone makes no data fresher.
sync_freshness-grows :
    (last : Option ℕ) (last_ok : Option Bool) (before hence interval : ℕ)
    → before ≤ hence
    → rank_or_zero (sync_freshness last last_ok before interval)
      ≤ rank_or_zero (sync_freshness last last_ok hence interval)
unfolding sync_freshness
sync_freshness-grows none last_ok before hence interval h = omega arith
sync_freshness-grows (some last) last_ok before hence interval h = ground arith
