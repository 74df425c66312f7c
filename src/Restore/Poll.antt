-- ===== src/Restore/Poll.antt =====
-- `_poll_task`, `poll_task`, `stop_task` and `stall_exceeded` of
-- app/services/restore_server.py: a restore task is followed to its end. A line of its log comes with
-- what the regular expressions find in it.
pub mod Stall
pub mod Keeps
pub mod Ends
pub mod Followed
use backup_sentinel.Prelude.{
  ltb, leb, if◌then◌else◌, ◌==◌, length, any, ℕ, zero, suc, ◌+◌, ◌-◌, ◌*◌, String, string_append,
  Bool, true, false, ◌&&◌, Option, none, some, List, [], ◌∷◌, ◌++◌, nat_eq, string_eq,
}
use backup_sentinel.Prelude.Text.{strip}
use backup_sentinel.Restore.Effect.{
  restore_cancelled, failure, Act, pure, raise, diverge, ◌>>◌, attempt, ◌>>=◌,
}
use backup_sentinel.Restore.TaskError.{classify_task_error}
use backup_sentinel.Restore.Worker.{ProgressLine, Server, now}

pub data TaskStatus : Type 0 where
  going_on : TaskStatus
  stopped : Option String → TaskStatus  -- with the exit status, if any

pub record LogLine : Type 0 where
  pub text : String
  pub drive : Option String
  pub progress : Option ProgressLine

-- The requests of a task by its node.
pub record TaskApi (H : Type 0) : Type 0 where
  pub node : Act H String
  pub delete_task : String → String → Act H Unit
  pub get_task : String → String → Act H TaskStatus
  pub get_log : String → String → ℕ → Act H (List LogLine)

abbrev pub floor_seconds : ℕ
floor_seconds = 900

-- The factor is counted in tenths, the quotients are exact.
unfoldable pub stall_exceeded : ℕ → ℕ → ℕ → ℕ → Bool
stall_exceeded since_progress percent elapsed factor =
    ltb floor_seconds since_progress
    && (if leb percent 0
        then ltb (elapsed * factor) (10 * since_progress)
        else ltb (elapsed * factor) (10 * percent * since_progress))

-- What the loop keeps from pass to pass.
pub record Poll : Type 0 where
  pub last_progress_at : ℕ
  pub last_percent : ℕ
  pub seen_log_lines : ℕ
  pub cur_drive : Option String
  pub recent_lines : List String

-- `lines[-n:]`
abbrev pub last_lines : ℕ → List String → List String
last_lines n [] = []
last_lines n (l ∷ lines) =
    let rest = last_lines n lines in if leb (length (l ∷ lines)) n then l ∷ lines else rest

abbrev or_percent : Option ℕ → ℕ → ℕ
or_percent none percent = percent
or_percent (some n) percent = n

abbrev or_drive : Option String → Option String → Option String
or_drive none drive = drive
or_drive (some d) drive = some d

abbrev pub heard : Poll → LogLine → Poll
heard p l = record p {
  recent_lines = if l.text == "" then p.recent_lines else p.recent_lines ++ l.text ∷ [];
  cur_drive = or_drive l.drive p.cur_drive;
}

-- the text of the lines that are not blank, joined by line breaks
abbrev pub tail_text : List String → String
tail_text [] = ""
tail_text (l ∷ lines) =
    let rest = tail_text lines in
    if strip l == ""
    then rest
    else if rest == ""
    then l
    else string_append l (string_append "\n" rest)

-- the end of a task that stopped
unfoldable pub exit_of : {H : Type 0} → Option String → List String → Act H Unit
exit_of none lines = pure tt
exit_of (some exit_status) lines =
    if exit_status == "OK"
    then pure tt
    else raise (failure (classify_task_error exit_status (tail_text (last_lines 10 lines))))

abbrev pub raise_if : {H : Type 0} → Bool → String → Act H Unit
raise_if stalled message = if stalled then raise (failure message) else pure tt

module _ {H : Type 0} (s : Server H) (api : TaskApi H) (node upid : String) where
  -- the `for` loop of `stop_task`, with the attempts that are left
  unfoldable pub await_stopped : ℕ → Act H Unit
  await_stopped zero = pure tt
  await_stopped (suc attempts) = do
    status ← attempt (stopped none) (api.get_task node upid)
    elim status [ stopped _ ↦ pure tt | going_on ↦ s.sleep 1 >> await_stopped attempts ]

  unfoldable pub stop_task : Act H Unit
  stop_task = do api.delete_task node upid; await_stopped 30

  module _ (factor interval : ℕ) (on : ProgressLine → Act H Unit) (cancel : Act H Bool) where
    abbrev pub progressed : Poll → Option ProgressLine → Act H Poll
    progressed p none = pure p
    progressed p (some line) = do
      t ← now s
      on (record line { drive = p.cur_drive })
      pure (record p {
        last_progress_at = t;
        last_percent = or_percent line.percent_read p.last_percent;
      })

    -- the `for` loop over the log
    unfoldable pub read_lines : Poll → List LogLine → Act H Poll
    read_lines p [] = pure p
    read_lines p (l ∷ lines) = do q ← progressed (heard p l) l.progress; read_lines q lines

    -- the status and the lines of the log from the last one seen; `none` where a request fails
    unfoldable pub fetch : Poll → Act H (Option (TaskStatus × List LogLine))
    fetch p = attempt none do
      status ← api.get_task node upid
      lines ← api.get_log node upid p.seen_log_lines
      pure (some (status, lines))

    abbrev pub is_stalled : Poll → ℕ → ℕ → Bool
    is_stalled p began t = stall_exceeded (t - p.last_progress_at) p.last_percent (t - began) factor

    unfoldable pub abort : Act H Unit
    abort = do attempt tt stop_task; raise (restore_cancelled "restore cancelled by operator")

    abbrev pub trimmed : Poll → List LogLine → Poll
    trimmed p lines = record p {
      seen_log_lines = p.seen_log_lines + length lines;
      recent_lines = last_lines 40 p.recent_lines;
    }

    -- the rest of a pass after the log was read; whether the task goes on
    unfoldable pub judge : ℕ → Poll → TaskStatus → Act H Bool
    judge began p (stopped exit_status) = exit_of exit_status p.recent_lines >> pure false
    judge began p going_on = do
      t ← now s
      raise_if (is_stalled p began t)
          "restore task stalled (no progress; adaptive backstop exceeded)"
      s.sleep interval
      pure true

    -- a pass whose requests failed
    unfoldable pub blip : ℕ → Poll → Act H Unit
    blip began p = do
      s.sleep interval
      t ← now s
      raise_if (is_stalled p began t) "restore task unreachable past the adaptive backstop"

    -- the body of the loop after the check for a cancellation, with the state of the next pass, if any
    unfoldable pub pass_on : ℕ → Poll → Option (TaskStatus × List LogLine) → Act H (Option Poll)
    pass_on began p none = blip began p >> pure (some p)
    pass_on began p (some (status, lines)) = do
      q ← read_lines p lines
      more ← judge began (trimmed q lines) status
      pure (if more then some (trimmed q lines) else none)

    unfoldable pub poll_pass : ℕ → Poll → Act H (Option Poll)
    poll_pass began p = do
      stop ← cancel
      if stop then abort >> pure none else fetch p >>= pass_on began p

    -- the `while` loop on fuel
    unfoldable pub poll_from : ℕ → ℕ → Poll → Act H Unit
    poll_from zero began p = diverge
    poll_from (suc fuel) began p = do
      next ← poll_pass began p
      elim next [ none ↦ pure tt | some q ↦ poll_from fuel began q ]

abbrev pub fresh_poll : ℕ → Poll
fresh_poll began = record {
  last_progress_at = began;
  last_percent = 0;
  seen_log_lines = 0;
  cur_drive = none;
  recent_lines = [];
}

unfoldable pub poll_task :
    {H : Type 0}
    → Server H
    → TaskApi H
    → ℕ
    → ℕ
    → ℕ
    → String
    → (ProgressLine → Act H Unit)
    → Act H Bool
    → Act H Unit
poll_task s api fuel factor interval upid on cancel = do
  node ← api.node
  began ← now s
  poll_from s api node upid factor interval on cancel fuel began (fresh_poll began)
