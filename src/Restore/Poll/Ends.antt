-- ===== src/Restore/Poll/Ends.antt =====
-- The loop over a task comes to an end once the task does.
use backup_sentinel.Prelude.{
  leb, if◌then◌else◌, Bool-cases, ℕ, ◌+◌, ◌≤◌, ◌<◌, String, ◌≡◌, refl, ◌∙◌, inl, inr, Bool, true,
  false, Option, none, some, List, arith,
}
use backup_sentinel.Restore.Poll.{
  TaskStatus, going_on, stopped, LogLine, TaskApi, Poll, fetch, judge, blip, pass_on, poll_pass,
}
use backup_sentinel.Restore.Poll.Keeps.{
  IsTaskApi, AreCallbacks, raise_if-Runs, exit_of-Runs, abort-Runs, read_lines-Runs, fetch-Runs,
}
use backup_sentinel.Restore.Effect.Runs.{IsOver}
use backup_sentinel.Restore.Effect.Leads.{
  Leads, Post, bind-Leads, if-Leads, RunsAt-Post, Runs-Leads,
}
use backup_sentinel.Restore.Worker.Laws.{IsSteady, IsServer, now-Runs}
use backup_sentinel.Restore.Effect.{
  Outcome, returned, raised, diverged, World, Act, pure, handled, try_except, continue, attempt,
  ◌>>=◌,
}
use backup_sentinel.Restore.Worker.{ProgressLine, Server}

-- From the time on, the requests are answered, and the task has stopped.
pub record StopsBy {H : Type 0} (s : Server H) (api : TaskApi H) (node upid : String) (time : ℕ)
    : Type 0 where
  pub has_stopped :
      (w : World H)
      → time ≤ s.monotonic w.host
      → (e : Option String) × ((api.get_task node upid w).1 ≡ returned (stopped e))
  pub has_log :
      (seen : ℕ) (w : World H)
      → time ≤ s.monotonic w.host
      → (lines : List LogLine) × ((api.get_log node upid seen w).1 ≡ returned lines)

-- the clock shows `t` or more
abbrev pub From : {H : Type 0} → Server H → ℕ → World H → Type 0
From s t w = t ≤ s.monotonic w.host

From-IsSteady : {H : Type 0} {s : Server H} {run_id : ℕ} (t : ℕ) → IsSteady s run_id (From s t)
From-IsSteady t = record {
  later = λ w w' l c k h. omega (arith, c, h);
  tracks = λ w st h. h;
  updates = λ w fields q h. h;
}

module _ {H : Type 0} where
  continue-at :
      {A B : Type 0} (f : A → Act H B) (r : World H × Outcome A) (a : A)
      → r.1 ≡ returned a
      → continue f r ≡ f a r.0
  unfolding continue
  continue-at f (w, returned b) a e = let same : b ≡ a = cc e in rw same refl
  continue-at f (w, raised b) a e = absurd (cc e)
  continue-at f (w, diverged) a e = absurd (cc e)

  attempt-at :
      {A : Type 0} (default : A) (m : Act H A) (w w' : World H) (a : A)
      → m w ≡ (w', returned a)
      → attempt default m w ≡ (w', returned a)
  unfolding attempt try_except handled
  attempt-at default m w w' a e = rw e refl

module _ {H : Type 0} {s : Server H} {api : TaskApi H} {run_id : ℕ} {on : ProgressLine → Act H Unit}
    {cancel : Act H Bool} (laws : IsServer s) (tasks : IsTaskApi s api)
    (calls : AreCallbacks s run_id on cancel) (node upid : String) (factor interval time : ℕ)
    (stops : StopsBy s api node upid time) where
  -- once the task has stopped, a pass learns of it
  fetch-stopped :
      (q : Poll) (w : World H)
      → time ≤ s.monotonic w.host
      → (e : Option String) × (lines : List LogLine) × (w' : World H) × (fetch s api node upid
            factor interval on cancel q w
          ≡ (w', returned (some (stopped e, lines))))
  unfolding fetch ◌>>=◌ pure
  fetch-stopped q w late =
      let (e, said) = stops.has_stopped w late in
      let w1 = (api.get_task node upid w).0 in
      let (lines, read) =
        stops.has_log q.seen_log_lines w1
          (omega (arith, late, (tasks.get_task node upid).clock w)) in
      (
        e,
        lines,
        (api.get_log node upid q.seen_log_lines w1).0,
        attempt-at _ _ w _ _ (
            continue-at (λ st. do ls ← api.get_log node upid q.seen_log_lines; pure (some (st, ls)))
              (api.get_task node upid w) (stopped e) said
            ∙ continue-at (λ ls. pure (some (stopped e, ls)))
                (api.get_log node upid q.seen_log_lines w1) lines read),
      )

  -- what is known of what a pass fetched that began at `t`
  abbrev Fetched : ℕ → Option (TaskStatus × List LogLine) → World H → Type 0
  Fetched t (some (stopped e, lines)) w = From s t w
  Fetched t (some (going_on, lines)) w = From s t w × (t < time)
  Fetched t none w = From s t w × (t < time)

  early-Fetched :
      (t : ℕ) (r : World H × Outcome (Option (TaskStatus × List LogLine)))
      → t < time
      → From s t r.0
      → IsOver r.1
      → Post (Fetched t) r
  early-Fetched t (w, returned (some (stopped e, lines))) early h o = h
  early-Fetched t (w, returned (some (going_on, lines))) early h o = (h, early)
  early-Fetched t (w, returned none) early h o = (h, early)
  early-Fetched t (w, raised f) early h o = tt
  early-Fetched t (w, diverged) early h o = o

  fetch-Leads :
      (q : Poll) (t : ℕ) (w : World H)
      → From s t w
      → Leads (Fetched t) (fetch s api node upid factor interval on cancel q) w
  fetch-Leads q t w h =
      let (since, over) =
        (fetch-Runs laws tasks calls node upid factor interval (From-IsSteady t) q).at w h in
      elim (Bool-cases (leb time t)) [
        | inl late ↦
            let (e, lines, w', found) = fetch-stopped q w (ground (arith, late, h)) in
            rw found (rw found at since)
        | inr soon ↦ early-Fetched t _ (ground (arith, soon)) since over
      ]

  -- where another pass follows, the clock moved on, and the task had not stopped in time
  abbrev pub Passed : ℕ → Option Poll → World H → Type 0
  Passed t none w = Unit
  Passed t (some q) w = From s (t + interval) w × (t < time)

  sleep-Leads :
      (t : ℕ) (w : World H) → From s t w → Leads (λ _. From s (t + interval)) (s.sleep interval) w
  sleep-Leads t w h =
      RunsAt-Post (From s (t + interval)) (s.sleep interval w)
        (omega (arith, h, laws.sleeps interval w)) ((laws.sleep interval).over w)

  blip-Leads :
      (began t : ℕ) (q : Poll) (w : World H)
      → From s t w
      → Leads
          (λ _. From s (t + interval))
          (blip s api node upid factor interval on cancel began q)
          w
  unfolding blip
  blip-Leads began t q w h =
      let C = From s (t + interval) in
      bind-Leads (λ _. C) (λ _. C) _ _ w (sleep-Leads t w h)
        λ _ w1 h1.
          bind-Leads (λ _. C) (λ _. C) _ _ w1 (Runs-Leads C _ w1 (now-Runs s) h1)
            λ u w2 h2. Runs-Leads C _ w2 (raise_if-Runs _ _) h2

  -- of `judge` for a status
  abbrev Judged : ℕ → TaskStatus → Bool → World H → Type 0
  Judged t (stopped e) more w = more ≡ false
  Judged t going_on more w = From s (t + interval) w

  judge-Leads :
      (began t : ℕ) (q : Poll) (status : TaskStatus) (w : World H)
      → From s t w
      → Leads (Judged t status) (judge s api node upid factor interval on cancel began q status) w
  unfolding judge pure
  judge-Leads began t q (stopped e) w h =
      bind-Leads (Judged t (stopped e)) (λ _. From s t) _ _ w
        (Runs-Leads (From s t) _ w (exit_of-Runs e q.recent_lines) h) λ _ w1 h1. refl
  judge-Leads began t q going_on w h =
      let Q = Judged t going_on in
      bind-Leads Q (λ _. From s t) _ _ w (Runs-Leads (From s t) _ w (now-Runs s) h)
        λ u w1 h1.
          bind-Leads Q (λ _. From s t) _ _ w1 (Runs-Leads (From s t) _ w1 (raise_if-Runs _ _) h1)
            λ _ w2 h2.
              bind-Leads Q (λ _. From s (t + interval)) _ _ w2 (sleep-Leads t w2 h2) λ _ w3 h3. h3

  after_judge :
      (t : ℕ) (status : TaskStatus) (lines : List LogLine) (q : Poll) (more : Bool) (w w' : World H)
      → Fetched t (some (status, lines)) w
      → Judged t status more w'
      → Passed t (if more then some q else none) w'
  after_judge t (stopped e) lines q more w w' h k = rw k tt
  after_judge t going_on lines q true w w' h k = (k, h.1)
  after_judge t going_on lines q false w w' h k = tt

  Fetched-From :
      (t : ℕ) (r : Option (TaskStatus × List LogLine)) (w : World H) → Fetched t r w → From s t w
  Fetched-From t none w h = h.0
  Fetched-From t (some (stopped e, lines)) w h = h
  Fetched-From t (some (going_on, lines)) w h = h.0

  pass_on-Leads :
      (began t : ℕ) (q : Poll) (r : Option (TaskStatus × List LogLine)) (w : World H)
      → Fetched t r w
      → Leads (Passed t) (pass_on s api node upid factor interval on cancel began q r) w
  unfolding pass_on pure
  pass_on-Leads began t q none w h =
      bind-Leads (Passed t) (λ _. From s (t + interval)) _ _ w (blip-Leads began t q w h.0)
        λ _ w1 h1. (h1, h.1)
  pass_on-Leads began t q (some (status, lines)) w h =
      bind-Leads (Passed t) (λ _. From s t) _ _ w
        (Runs-Leads (From s t) _ w
          (read_lines-Runs laws tasks calls node upid factor interval (From-IsSteady t) q lines)
          (Fetched-From t (some (status, lines)) w h))
        λ r w1 h1.
          bind-Leads (Passed t) (Judged t status) _ _ w1 (judge-Leads began t _ status w1 h1)
            λ more w2 h2. after_judge t status lines _ more w w2 h h2

  pub poll_pass-Leads :
      (began : ℕ) (q : Poll) (w : World H)
      → Leads
          (Passed (s.monotonic w.host))
          (poll_pass s api node upid factor interval on cancel began q)
          w
  unfolding poll_pass pure
  poll_pass-Leads began q w =
      let t = s.monotonic w.host in
      let C = From s t in
      bind-Leads (Passed t) (λ _. C) _ _ w
        (Runs-Leads C _ w (calls.should_cancel C (From-IsSteady t)) (omega arith))
        λ stop w1 h1.
          if-Leads (Passed t) stop _ _ w1
            (λ _.
              bind-Leads (Passed t) (λ _. C) _ _ w1
                (Runs-Leads C _ w1
                  (abort-Runs laws tasks calls node upid factor interval (From-IsSteady t)) h1)
                λ _ w2 h2. tt)
            λ _.
              bind-Leads (Passed t) (Fetched t) _ _ w1 (fetch-Leads q t w1 h1)
                λ r w2 h2. pass_on-Leads began t q r w2 h2
