-- ===== src/Notify/Tests.antt =====
-- Two messages around a flush in the quiet hours over night, and one after them.
use backup_sentinel.Prelude.{
  if◌then◌else◌, ◌==◌, ℕ, ◌*◌, String, ◌≡◌, refl, true, none, some, List, [], ◌∷◌, ◌++◌, nat_eq,
  string_eq,
}
use backup_sentinel.Notify.{
  Message, NotifySettings, Outbox, in_quiet_hours, schedule_gotify_flush, send_gotify, take_queue,
  flush_gotify_queue, batch_of, logged_of,
}
use backup_sentinel.Notify.Kept.{
  QueueEvent, sending, flushing, step, after_events, accepted, IsScheduled, after_events-accepted,
}

abbrev night_rest : NotifySettings
night_rest = record {
  gotify_enabled = some "True";
  quiet_enabled = some "1";
  quiet_start = some (22 * 3600);
  quiet_end = some (7 * 3600);
}

abbrev told : String → ℕ → Message
told title priority = record {
  title = title;
  message = "body";
  priority = priority;
  notification_type = if title == "test" then "" else "sync_failed";
  cluster_name = none;
}

abbrev no_messages : Outbox
no_messages = record { queue = []; timer = none }

abbrev night : List QueueEvent
night =
    sending night_rest 0 (told "one" 5)
    ∷ flushing night_rest (23 * 3600) 300
    ∷ sending night_rest 400 (told "test" 8)
    ∷ sending (record night_rest { gotify_enabled = none }) 500 (told "dropped" 9)
    ∷ flushing night_rest (8 * 3600) 900
    ∷ sending night_rest 1000 (told "late" 1)
    ∷ []

flushed_at_morning :
    after_events night no_messages
    ≡ (record { queue = told "late" 1 ∷ []; timer = some 1300 }, told "one" 5 ∷ told "test" 8 ∷ [])
unfolding after_events step send_gotify schedule_gotify_flush flush_gotify_queue take_queue
    in_quiet_hours
flushed_at_morning = refl

batched :
    batch_of (λ n. "two messages") (told "one" 5 ∷ told "test" 8 ∷ [])
    ≡ some (record {
      title = "two messages";
      body = "── one ──\nbody\n\n── test ──\nbody";
      priority = 8;
    })
unfolding batch_of
batched = refl

noted : logged_of true (told "one" 5 ∷ told "test" 8 ∷ []) ≡ told "one" 5 ∷ []
unfolding logged_of
noted = refl

after_events-accepted_example :
    ((after_events night no_messages).1 ++ (after_events night no_messages).0.queue
      ≡ accepted night)
    × IsScheduled (after_events night no_messages).0
after_events-accepted_example = after_events-accepted night no_messages (λ h e. h refl)
