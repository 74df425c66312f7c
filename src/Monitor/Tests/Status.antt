-- ===== src/Monitor/Tests/Status.antt =====
-- The judgements of app/services/backup_status.py at some moments.
use backup_sentinel.Prelude.{ℕ, ◌+◌, ◌*◌, ◌≤◌, max, ◌≡◌, refl, false, Option, none, some, arith}
use backup_sentinel.Monitor.Status.{
  ok, warning, single, daily, hour, assess_backup_status, second, assess_slow_backup, rank_or_zero,
  overall_status,
}
use backup_sentinel.Monitor.Status.Laws.{
  IsNoBetter, assess_backup_status-grows, rank_of, overall_status-rank, assess_slow_backup-IsSlow,
}

assessed_daily : assess_backup_status daily (some 0) (40 * hour) ≡ (warning, some 1)
unfolding assess_backup_status
assessed_daily = refl

assess_backup_status-grows_example :
    IsNoBetter
      (assess_backup_status daily (some 0) (40 * hour))
      (assess_backup_status daily (some 0) (50 * hour))
assess_backup_status-grows_example =
    assess_backup_status-grows daily (some 0) (40 * hour) (50 * hour) (omega arith)

overall_status-rank_example :
    rank_or_zero (overall_status ok (some single) (some warning) false)
    ≡ max (rank_or_zero ok) (max (rank_of (some single)) (rank_of (some warning)))
overall_status-rank_example = overall_status-rank ok (some single) (some warning)

assess_slow_backup-IsSlow_example :
    (◌≡◌ {A = Option ℕ} (some 600) (some 600)) × (3 * 600 ≤ 2 * 2000 + 1) × (600 + 900 ≤ 2000)
unfolding assess_slow_backup
assess_slow_backup-IsSlow_example =
    assess_slow_backup-IsSlow (some 0) none (some 600) (2000 * second) 600 2000 refl
