-- ===== src/Monitor/Tests/Jobs.antt =====
-- A daily job for all guests but 102, a weekly job that names 100 and 101, a daily one
-- that names 101, and one that is disabled.
use backup_sentinel.Prelude.{
  if◌then◌else◌, any, ℕ, ◌≡◌, refl, true, false, ◌&&◌, none, some, List, [], ◌∷◌, map, nat_eq,
  string_eq,
}
use backup_sentinel.Prelude.Dict.{get, put}
use backup_sentinel.Restore.Alloc.{range}
use backup_sentinel.Monitor.Jobs.{
  daily_kind, weekly_kind, every_guest, only, Job, infer_backup_kind_by_vmid, vmids_of_ranges,
  expand_job_vmids, covered_vmids, mark, mark_all, add_jobs,
}
use backup_sentinel.Monitor.Jobs.Precedence.{
  names, includes, runs_daily, kind_if, infer_backup_kind_by_vmid-precedence,
}

abbrev for_all : Job
for_all = record {
  enabled = true;
  schedule = daily_kind;
  selection = every_guest;
  exclude = (102, 102) ∷ [];
}

abbrev weekly_named : Job
weekly_named = record {
  enabled = true;
  schedule = weekly_kind;
  selection = only ((100, 101) ∷ []);
  exclude = [];
}

abbrev daily_named : Job
daily_named = record {
  enabled = true;
  schedule = daily_kind;
  selection = only ((101, 101) ∷ []);
  exclude = [];
}

abbrev disabled_job : Job
disabled_job = record {
  enabled = false;
  schedule = daily_kind;
  selection = only ((100, 104) ∷ []);
  exclude = [];
}

abbrev cluster_jobs : List Job
cluster_jobs = weekly_named ∷ for_all ∷ daily_named ∷ disabled_job ∷ []

abbrev cluster_vmids : List ℕ
cluster_vmids = 100 ∷ 101 ∷ 102 ∷ 103 ∷ []

kinds_found :
    map
      (λ v. get v (infer_backup_kind_by_vmid cluster_vmids cluster_jobs))
      (100 ∷ 101 ∷ 102 ∷ 103 ∷ 104 ∷ [])
    ≡ some weekly_kind ∷ some daily_kind ∷ none ∷ some daily_kind ∷ none ∷ []
unfolding infer_backup_kind_by_vmid add_jobs mark_all mark covered_vmids vmids_of_ranges
    expand_job_vmids range get put
kinds_found = refl

infer_backup_kind_by_vmid-precedence_example :
    get 100 (infer_backup_kind_by_vmid cluster_vmids cluster_jobs) ≡ (
      if any (names cluster_vmids 100) cluster_jobs
      then some (kind_if (any (λ j. names cluster_vmids 100 j && runs_daily j) cluster_jobs))
      else (if any (includes cluster_vmids 100) cluster_jobs
          then some (kind_if (any (λ j. includes cluster_vmids 100 j && runs_daily j) cluster_jobs))
          else none))
infer_backup_kind_by_vmid-precedence_example =
    infer_backup_kind_by_vmid-precedence cluster_vmids 100 cluster_jobs
