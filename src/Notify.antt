-- ===== src/Notify.antt =====
-- The queue of Gotify messages in app/services/notifications.py: `send_gotify`,
-- `_schedule_gotify_flush`, `_flush_gotify_queue` and `_in_quiet_hours`. A function under the lock is
-- one step. Times are seconds; the time of a day is one of its seconds.
pub mod Kept
mod Tests
use backup_sentinel.Prelude.{
  leb, if◌then◌else◌, ◌==◌, length, filter, contains, ℕ, ◌+◌, max, String, string_append, Bool,
  true, false, not, ◌&&◌, ◌||◌, Option, none, some, List, [], ◌∷◌, ◌++◌, nat_eq, string_eq,
}
use backup_sentinel.Prelude.Text.{lower}
use backup_sentinel.Restore.Pack.{start}

pub record Message : Type 0 where
  pub title : String
  pub message : String
  pub priority : ℕ
  pub notification_type : String
  pub cluster_name : Option String

-- The settings `notify_...`. A limit of the quiet hours that is empty or no time of a day is `none`.
pub record NotifySettings : Type 0 where
  pub gotify_enabled : Option String
  pub quiet_enabled : Option String
  pub quiet_start : Option ℕ
  pub quiet_end : Option ℕ

-- `_gotify_queue`, and the time at which `_gotify_timer` goes off
pub record Outbox : Type 0 where
  pub queue : List Message
  pub timer : Option ℕ

abbrev pub is_on : Option String → Bool
is_on none = false
is_on (some value) = contains ("1" ∷ "true" ∷ "on" ∷ "yes" ∷ []) (lower value)

abbrev is_within : Option ℕ → Option ℕ → ℕ → Bool
is_within (some start) (some end) clock =
    if leb start end then leb start clock && leb clock end else leb start clock || leb clock end
is_within none end clock = false
is_within (some start) none clock = false

unfoldable pub in_quiet_hours : NotifySettings → ℕ → Bool
in_quiet_hours settings clock =
    is_on settings.quiet_enabled && is_within settings.quiet_start settings.quiet_end clock

-- a new timer; the one before is cancelled
unfoldable pub schedule_gotify_flush : ℕ → Outbox → Outbox
schedule_gotify_flush clock box = record box { timer = some (clock + 300) }

unfoldable pub send_gotify : NotifySettings → ℕ → Message → Outbox → Outbox × Bool
send_gotify settings clock m box =
    if is_on settings.gotify_enabled
    then (schedule_gotify_flush clock (record box { queue = box.queue ++ m ∷ [] }), true)
    else (box, false)

-- The messages taken, after the queue and the timer that are left.
unfoldable pub take_queue : NotifySettings → ℕ → ℕ → List Message → Outbox × List Message
take_queue settings moment clock [] = (record { queue = []; timer = none }, [])
take_queue settings moment clock (m ∷ ms) =
    if in_quiet_hours settings moment
    then (record { queue = m ∷ ms; timer = some (clock + 600) }, [])
    else (record { queue = []; timer = none }, m ∷ ms)

unfoldable pub flush_gotify_queue : NotifySettings → ℕ → ℕ → Outbox → Outbox × List Message
flush_gotify_queue settings moment clock box = take_queue settings moment clock box.queue

-- What is sent for the messages taken.
pub record Batch : Type 0 where
  pub title : String
  pub body : String
  pub priority : ℕ

abbrev part_of : Message → String
part_of m = string_append "── " (string_append m.title (string_append " ──\n" m.message))

abbrev joined : String → List Message → String
joined front [] = front
joined front (m ∷ ms) = string_append front (string_append "\n\n" (joined (part_of m) ms))

abbrev highest : ℕ → List Message → ℕ
highest best [] = best
highest best (m ∷ ms) = highest (max best m.priority) ms

-- `batch_title` is the translated title for a number of messages
unfoldable pub batch_of : (ℕ → String) → List Message → Option Batch
batch_of batch_title [] = none
batch_of batch_title (m ∷ []) =
    some (record { title = m.title; body = m.message; priority = m.priority })
batch_of batch_title (m ∷ n ∷ ms) = some (record {
  title = batch_title (length (m ∷ n ∷ ms));
  body = joined (part_of m) (n ∷ ms);
  priority = highest m.priority (n ∷ ms);
})

-- the messages that are noted in the log, once they are sent
unfoldable pub logged_of : Bool → List Message → List Message
logged_of was_sent ms = if was_sent then filter (λ m. not (m.notification_type == "")) ms else []
