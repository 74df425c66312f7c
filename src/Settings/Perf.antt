-- ===== src/Settings/Perf.antt =====
-- app/services/restore_perf.py: the write test of a storage of the restore host, whose state stands in
-- the table of settings. `json` on records of progress and of results, and the time as a text, are
-- parameters.
pub mod Live
use backup_sentinel.Prelude.{
  leb, if◌then◌else◌, ◌==◌, length, contains, ℕ, String, string_append, Bool, true, false, not,
  Option, none, some, List, [], ◌∷◌, ◌++◌, nat_eq, string_eq,
}
use backup_sentinel.Prelude.Dict.{get}
use backup_sentinel.Restore.Runs.{Db}
use backup_sentinel.Restore.Names.{first_chars}
use backup_sentinel.Restore.Worker.{now, known}
use backup_sentinel.Restore.Worker.Held.{listed_running}
use backup_sentinel.Settings.Table.{Settings, get_settings_dict, save_settings}

abbrev pub prefix_key : String
prefix_key = "restore_server.perf."

abbrev pub running_key : String
running_key = "restore_server.perf_running"

abbrev pub progress_key : String
progress_key = "restore_server.perf_progress"

abbrev pub cancel_key : String
cancel_key = "restore_server.perf_cancel"

abbrev pub runtime_seconds : ℕ
runtime_seconds = 300

abbrev pub series_cap : ℕ
series_cap = 150

-- the record of the test that runs
pub record Progress : Type 0 where
  pub storage : String
  pub pct : ℕ
  pub started_at : String
  pub runtime : ℕ
  pub at : Option String
  pub eta : Option String
  pub rate_bps : Option ℕ
  pub series : List ℕ

-- a sample of fio: the fields that it has, the percentage in tenths
pub record FioSample : Type 0 where
  pub pct : Option ℕ
  pub eta : Option String
  pub rate_bps : Option ℕ

-- The record of the last test of a storage.
pub record PerfResult : Type 0 where
  pub at : String
  pub bps : Option ℕ
  pub error : Option String

-- How the benchmark ends.
pub data Benchmark : Type 0 where
  measured : ℕ → Benchmark
  benchmark_cancelled : Benchmark
  benchmark_failed : String → Benchmark

abbrev pub or_blank : Option String → String
or_blank none = ""
or_blank (some t) = t

-- `get_settings_dict(key).get(key, "") or ""`
abbrev pub setting : String → Settings → String
setting key settings = or_blank (get key (get_settings_dict key settings))

unfoldable pub running_storage : Settings → String
running_storage settings = setting running_key settings

unfoldable pub cancel_asked_of : Settings → String
cancel_asked_of settings = setting cancel_key settings

unfoldable pub reset_live : Settings → Settings
reset_live settings =
    save_settings ((running_key, "") ∷ (progress_key, "") ∷ (cancel_key, "") ∷ []) settings

-- the storages of the newest running run
unfoldable pub involved_storages : Db → List String
involved_storages db = elim (listed_running db) [ [] ↦ [] | run ∷ _ ↦ run.target_storages ]

-- `xs[-n:]`
abbrev pub last_of : ℕ → List ℕ → List ℕ
last_of n [] = []
last_of n (x ∷ xs) = let rest = last_of n xs in if leb (length (x ∷ xs)) n then x ∷ xs else rest

abbrev or_last : Option ℕ → ℕ → ℕ
or_last none n = n
or_last (some m) n = m

abbrev pub or_known {ℓ} : {A : Type ℓ} → Option A → Option A → Option A
or_known none known = known
or_known (some m) known = some m

abbrev pub add_rate : Option ℕ → List ℕ → List ℕ
add_rate none series = series
add_rate (some rate) series = last_of series_cap (series ++ rate ∷ [])

-- a sample folded into the record
unfoldable pub folded : String → FioSample → Progress → Progress
folded now sample p = record p {
  pct = or_last sample.pct p.pct;
  at = some now;
  eta = or_known sample.eta p.eta;
  rate_bps = or_known sample.rate_bps p.rate_bps;
  series = add_rate sample.rate_bps p.series;
}

abbrev pub fresh_progress : String → String → Progress
fresh_progress storage now = record {
  storage = storage;
  pct = 0;
  started_at = now;
  runtime = runtime_seconds;
  at = none;
  eta = none;
  rate_bps = none;
  series = [];
}

module _ (dumps : Progress → String) (loads : String → Option Progress) (now : String) where
  -- `none` for `{}`
  unfoldable pub get_progress : Settings → Option Progress
  get_progress settings =
      let raw = setting progress_key settings in if raw == "" then none else loads raw

  abbrev pub store_folded : String → FioSample → Settings → Option Progress → Settings
  store_folded storage sample settings none = settings
  store_folded storage sample settings (some p) =
      if p.storage == storage
      then save_settings ((progress_key, dumps (folded now sample p)) ∷ []) settings
      else settings

  -- for a storage, which has a name
  unfoldable pub store_progress : String → FioSample → Settings → Settings
  unfolding get_progress folded
  store_progress storage sample settings =
      store_folded storage sample settings (get_progress settings)

  -- whether the test was started, the reason if not, and the settings then
  unfoldable pub start_test : String → Db → Settings → (Bool × String) × Settings
  start_test storage db settings =
      if not (running_storage settings == "")
      then ((false, "another performance test is already running"), settings)
      else if contains (involved_storages db) storage
      then ((false, "storage is in use by a running restore"), settings)
      else (
        (true, ""),
        save_settings ((cancel_key, "") ∷ (progress_key, dumps (fresh_progress storage now)) ∷ [])
            (save_settings ((running_key, storage) ∷ []) settings),
      )

unfoldable pub cancel_test : String → Settings → (Bool × String) × Settings
cancel_test storage settings =
    if running_storage settings == storage
    then ((true, ""), save_settings ((cancel_key, storage) ∷ []) settings)
    else ((false, "no performance test is running for this storage"), settings)

module _ (dumps : PerfResult → String) (now : String) where
  unfoldable pub store_result : String → Option ℕ → Option String → Settings → Settings
  store_result storage bps error settings =
      save_settings
        ((string_append prefix_key storage, dumps (record { at = now; bps = bps; error = error }))
          ∷ [])
        settings

  abbrev first_200 : String → String
  first_200 message = first_chars 200 message

  -- the end of `_run`, whether the benchmark returned or raised
  unfoldable pub finish_test : String → Benchmark → Settings → Settings
  finish_test storage (measured bps) settings =
      reset_live (store_result storage (some bps) none settings)
  finish_test storage benchmark_cancelled settings = reset_live settings
  finish_test storage (benchmark_failed message) settings =
      reset_live (store_result storage none (some (first_200 message)) settings)
