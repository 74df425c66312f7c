-- ===== src/Notify/Kept.antt =====
-- What becomes of the messages, in any order of calls and timers.
use backup_sentinel.Prelude.{
  if◌then◌else◌, Bool-cases, ℕ, ◌≡◌, refl, sym, ap, ◌∙◌, ◌≢◌, inl, inr, none, List, [], ◌∷◌, ◌++◌,
  append-nil, append_assoc,
}
use backup_sentinel.Notify.{
  Message, NotifySettings, Outbox, is_on, in_quiet_hours, schedule_gotify_flush, send_gotify,
  take_queue, flush_gotify_queue,
}

-- A call of `send_gotify`, or a timer that goes off, with the settings and the time then.
pub data QueueEvent : Type 0 where
  sending : NotifySettings → ℕ → Message → QueueEvent
  flushing : NotifySettings → ℕ → ℕ → QueueEvent

unfoldable pub step : QueueEvent → Outbox → Outbox × List Message
step (sending settings clock m) box = ((send_gotify settings clock m box).0, [])
step (flushing settings moment clock) box = flush_gotify_queue settings moment clock box

-- The outbox after the events, and the messages taken by the flushes, in order.
unfoldable pub after_events : List QueueEvent → Outbox → Outbox × List Message
after_events [] box = (box, [])
after_events (e ∷ es) box =
    let (next, taken) = step e box in
    let (last, later) = after_events es next in (last, taken ++ later)

abbrev accepted_by : QueueEvent → List Message
accepted_by (sending settings clock m) = if is_on settings.gotify_enabled then m ∷ [] else []
accepted_by (flushing settings moment clock) = []

-- The messages for which `send_gotify` answers yes.
abbrev pub accepted : List QueueEvent → List Message
accepted [] = []
accepted (e ∷ es) = accepted_by e ++ accepted es

-- Messages that wait have a timer.
abbrev pub IsScheduled : Outbox → Type 0
IsScheduled box = box.queue ≢ [] → box.timer ≢ none

take_queue-queue :
    (settings : NotifySettings) (moment clock : ℕ) (ms : List Message)
    → (take_queue settings moment clock ms).1 ++ (take_queue settings moment clock ms).0.queue ≡ ms
unfolding take_queue
take_queue-queue settings moment clock [] = refl
take_queue-queue settings moment clock (m ∷ ms) =
    elim (Bool-cases (in_quiet_hours settings moment)) [
      | inl t ↦ rw t refl
      | inr f ↦ rw f (append-nil (m ∷ ms))
    ]

take_queue-IsScheduled :
    (settings : NotifySettings) (moment clock : ℕ) (ms : List Message)
    → IsScheduled (take_queue settings moment clock ms).0
unfolding take_queue
take_queue-IsScheduled settings moment clock [] = λ h e. h refl
take_queue-IsScheduled settings moment clock (m ∷ ms) =
    elim (Bool-cases (in_quiet_hours settings moment)) [
      | inl t ↦ rw t (λ _ e. cc e)
      | inr f ↦ rw f (λ h e. h refl)
    ]

step-queue :
    (e : QueueEvent) (box : Outbox)
    → (step e box).1 ++ (step e box).0.queue ≡ box.queue ++ accepted_by e
unfolding step send_gotify schedule_gotify_flush flush_gotify_queue
step-queue (sending settings clock m) box = elim (Bool-cases (is_on settings.gotify_enabled)) [
  | inl t ↦ rw t refl
  | inr f ↦ rw f (sym (append-nil box.queue))
]
step-queue (flushing settings moment clock) box =
    take_queue-queue settings moment clock box.queue ∙ sym (append-nil box.queue)

step-IsScheduled : (e : QueueEvent) (box : Outbox) → IsScheduled box → IsScheduled (step e box).0
unfolding step send_gotify schedule_gotify_flush flush_gotify_queue
step-IsScheduled (sending settings clock m) box h =
    elim (Bool-cases (is_on settings.gotify_enabled)) [
      | inl t ↦ rw t (λ _ e. cc e)
      | inr f ↦ rw f h
    ]
step-IsScheduled (flushing settings moment clock) box h =
    take_queue-IsScheduled settings moment clock box.queue

-- After any calls and flushes from a queue that has a timer if a message waits, the messages taken for
-- delivery and then those that still wait are those that waited and the accepted ones, each once and
-- in order, and while any waits there is a timer.
pub after_events-accepted :
    (events : List QueueEvent) (box : Outbox)
    → IsScheduled box
    → ((after_events events box).1 ++ (after_events events box).0.queue
        ≡ box.queue ++ accepted events)
      × IsScheduled (after_events events box).0
unfolding after_events
after_events-accepted [] box h = (sym (append-nil box.queue), h)
after_events-accepted (e ∷ es) box h =
    let (next, taken) = step e box in
    let (kept, waits) = after_events-accepted es next (step-IsScheduled e box h) in
    (
      append_assoc taken (after_events es next).1 (after_events es next).0.queue
          ∙ ap (λ ms. taken ++ ms) kept
          ∙ sym (append_assoc taken next.queue (accepted es))
          ∙ ap (λ ms. ms ++ accepted es) (step-queue e box)
          ∙ append_assoc box.queue (accepted_by e) (accepted es),
      waits,
    )
