-- ===== src/Restore/Worker/Progress.antt =====
-- `_progress_updater` of app/services/restore_worker.py: the progress over all disks of a guest,
-- and `overall_restore_fields` of app/services/restore_server.py.
pub mod Steady
use backup_sentinel.Prelude.{
  ltb, leb, if◌then◌else◌, ◌==◌, ℕ, ◌+◌, ◌*◌, ◌/◌, min, max, String, Bool, false, not, ◌&&◌, Option,
  none, some, List, [], ◌∷◌, ◌++◌, nat_eq, string_eq,
}
use backup_sentinel.Restore.Effect.{
  Tracker, Act, pure, try_except, tracked, track, attempt, ◌>>=◌, ◌>>◌,
}
use backup_sentinel.Restore.Types.{Phase, restoring}
use backup_sentinel.Restore.Worker.{ProgressLine, Server, update, known}
use backup_sentinel.Restore.Runs.Fields.{Field, bytes_total_to, bytes_done_to, percent_to, phase_to}

abbrev phase_at : ℕ → Phase
phase_at percent = if leb 100 percent then Phase.finalizing else restoring

abbrev overall_of : ℕ → ℕ → List Field
overall_of done total =
    let percent = min 100 (done * 100 / total) in
    percent_to percent
    ∷ bytes_done_to done
    ∷ bytes_total_to total
    ∷ phase_to (phase_at percent)
    ∷ []

abbrev overall_known : ℕ → Option ℕ → Option (List Field)
overall_known done none = none
overall_known done (some total) = some (overall_of (min done total) total)

-- the quotient of floats is taken exactly
unfoldable pub overall_restore_fields : ℕ → Option ℕ → Option (List Field)
overall_restore_fields done_bytes total_bytes = overall_known done_bytes (known total_bytes)

abbrev percent_fields : Option ℕ → List Field
percent_fields none = []
percent_fields (some percent) = percent_to percent ∷ phase_to (phase_at percent) ∷ []

abbrev field_for : (ℕ → Field) → Option ℕ → List Field
field_for to none = []
field_for to (some n) = to n ∷ []

unfoldable pub progress_fields : ProgressLine → List Field
progress_fields p =
    percent_fields p.percent_read
    ++ field_for bytes_done_to p.bytes_read
    ++ field_for bytes_total_to p.bytes_in_all

abbrev pub or_zero : Option ℕ → ℕ
or_zero none = 0
or_zero (some n) = n

abbrev pub is_new_drive : Option String → Option String → Bool
is_new_drive (some drive) none = not (drive == "")
is_new_drive (some drive) (some cur) = not (drive == "") && not (drive == cur)
is_new_drive none cur = false

abbrev is_drive : Option String → Bool
is_drive none = false
is_drive (some drive) = not (drive == "")

-- the read bytes of the disk that is done are counted in, once there was one
abbrev base_after : Tracker → ℕ
base_after st = elim st.cur_drive [ none ↦ st.done_base | some _ ↦ st.done_base + st.cur_read ]

-- `drive and drive != st["cur_drive"]`: the next disk begins
unfoldable pub next_drive : Option String → Tracker → Tracker
next_drive drive st = record st { done_base = base_after st; cur_drive = drive; cur_read = 0 }

-- `read > st["cur_read"]`
unfoldable pub read_on : ℕ → Tracker → Tracker
read_on read st = if ltb st.cur_read read then record st { cur_read = read } else st

abbrev fields_of : ProgressLine → Tracker → Option (List Field)
fields_of p st =
    if is_drive p.drive then overall_restore_fields (st.done_base + st.cur_read) st.total else none

abbrev or_raw : ProgressLine → Option (List Field) → List Field
or_raw p none = progress_fields p
or_raw p (some fields) = fields

unfoldable pub fields_to_write : ProgressLine → Tracker → List Field
unfolding overall_restore_fields progress_fields
fields_to_write p st = or_raw p (fields_of p st)

module _ {H : Type 0} (s : Server H) (run_id vmid : ℕ) where
  -- the total is read again as the disks are allocated, and does not shrink
  unfoldable pub read_total : Act H Unit
  read_total = attempt tt do
    total ← s.restore_total_bytes vmid
    st ← tracked
    track (record st { total = known (some (max (or_zero st.total) total)) })

  unfoldable pub on_drive : ProgressLine → Act H Unit
  on_drive p = do
    st ← tracked
    if is_new_drive p.drive st.cur_drive
        then track (next_drive p.drive st) >> read_total
        else pure tt

  unfoldable pub on_progress : ProgressLine → Act H Unit
  on_progress p = do
    on_drive p
    st ← tracked
    track (read_on (or_zero p.bytes_read) st)
    st' ← tracked
    update run_id (fields_to_write p st')

-- `st` as a new updater has it
abbrev pub fresh_tracker : Tracker
fresh_tracker = record { done_base = 0; cur_read = 0; cur_drive = none; total = none }
