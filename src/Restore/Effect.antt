-- ===== src/Restore/Effect.antt =====
-- The restore worker (app/services/restore_worker.py) as actions: it transacts on the database,
-- acts on the restore host and may raise. What was done before a raise stays done.
pub mod Runs
pub mod Returns
pub mod Leads
use backup_sentinel.Prelude.{ℕ, String, Option}
use backup_sentinel.Restore.Runs.{Db}

-- An exception: `RestoreCancelled`, or any other with its text.
pub data Fault : Type 0 where
  restore_cancelled failure : String → Fault

-- `diverged` is a loop that ran out of its fuel.
pub data Outcome (A : Type 0) : Type 0 where
  returned : A → Outcome A
  raised : Fault → Outcome A
  diverged : Outcome A

-- The cell `st` of `_progress_updater`, of the one run that the worker executes at a time.
pub record Tracker : Type 0 where
  pub done_base : ℕ
  pub cur_read : ℕ
  pub cur_drive : Option String
  pub total : Option ℕ

pub record World (H : Type 0) : Type 0 where
  pub db : Db
  pub tracker : Tracker
  pub host : H

abbrev pub Act : Type 0 → Type 0 → Type 0
Act H A = World H → World H × Outcome A

module _ {H A : Type 0} where
  unfoldable pub pure : A → Act H A
  pure a w = (w, returned a)

  unfoldable pub raise : Fault → Act H A
  raise f w = (w, raised f)

  unfoldable pub diverge : Act H A
  diverge w = (w, diverged)

  -- a query of the database
  unfoldable pub query : (Db → A) → Act H A
  query f w = (w, returned (f w.db))

  -- `try: m except Exception as exc: handler`
  unfoldable pub handled : (Fault → Act H A) → World H × Outcome A → World H × Outcome A
  handled handler (w, returned a) = (w, returned a)
  handled handler (w, raised f) = handler f w
  handled handler (w, diverged) = (w, diverged)

  unfoldable pub try_except : Act H A → (Fault → Act H A) → Act H A
  unfolding handled
  try_except m handler w = handled handler (m w)

module _ {H : Type 0} where
  -- a transaction on the database
  unfoldable pub transact : (Db → Db) → Act H Unit
  transact f w = (record w { db = f w.db }, returned tt)

  -- a read of the tracker, and an assignment to it
  unfoldable pub tracked : Act H Tracker
  tracked w = (w, returned w.tracker)

  unfoldable pub track : Tracker → Act H Unit
  track t w = (record w { tracker = t }, returned tt)

module _ {H A B : Type 0} where
  unfoldable pub continue : (A → Act H B) → World H × Outcome A → World H × Outcome B
  continue f (w, returned a) = f a w
  continue f (w, raised e) = (w, raised e)
  continue f (w, diverged) = (w, diverged)

  infixl 10 ◌>>=◌ ◌>>◌
  unfoldable pub ◌>>=◌ : Act H A → (A → Act H B) → Act H B
  unfolding continue
  ◌>>=◌ m f w = continue f (m w)

  abbrev pub ◌>>◌ : Act H A → Act H B → Act H B
  m >> n = m >>= λ _. n

-- An exception's text, `str(exc)`.
abbrev pub text_of : Fault → String
text_of (restore_cancelled message) = message
text_of (failure message) = message

-- `except Exception: pass`, with `default` as the value
unfoldable pub attempt : {H A : Type 0} → A → Act H A → Act H A
unfolding try_except pure
attempt default m = try_except m (λ _. pure default)
