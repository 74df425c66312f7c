-- ===== src/Restore/Worker/Probing/Ends.antt =====
-- The probe loop comes to an end, and its fuel is enough.
use backup_sentinel.Prelude.{
  leb, if◌then◌else◌, ℕ, zero, suc, ◌+◌, ◌-◌, ◌≤◌, ◌<◌, ◌≡◌, refl, Bool, true, false, List, [], ◌∷◌,
  arith,
}
use backup_sentinel.Restore.Pack.{start}
use backup_sentinel.Restore.Worker.Probing.{
  look_up, pass_failed, probe_targets, probe_passes, probe_pass, pause, is_done, probe_loop,
}
use backup_sentinel.Restore.Runs.{Db}
use backup_sentinel.Restore.Effect.{Fault, World, Act, query, continue, ◌>>=◌}
use backup_sentinel.Restore.Worker.{RunPlan, Target, Server, now}
use backup_sentinel.Restore.Effect.Runs.{
  Runs, pure-Runs, raise-Runs, if-Runs, try_except-Runs, bind-Runs, RunsAt, query-Runs, bind-RunsAt,
}
use backup_sentinel.Restore.Worker.Laws.{IsSteady, IsServer, IsLocal-Runs, update-Runs, now-Runs}

module _ {H : Type 0} {s : Server H} {run_id : ℕ} {P : World H → Type 0} (laws : IsServer s)
    (p : IsSteady s run_id P) (plan : RunPlan) where
  look_up-Runs : (discovered : List (ℕ × ℕ)) → Runs P (look_up s plan run_id discovered)
  unfolding look_up
  look_up-Runs discovered = if-Runs _ _ _ (pure-Runs discovered) (
      bind-Runs _ _ (IsLocal-Runs _ p (laws.guest_agent_nics plan.restore_vmid))
        λ nics. pure-Runs _)

  pass_failed-Runs : (deadline : ℕ) (f : Fault) → Runs P (pass_failed s plan run_id deadline f)
  unfolding pass_failed
  pass_failed-Runs deadline f =
      bind-Runs _ _ (now-Runs s) λ t. if-Runs (leb deadline t) _ _ (raise-Runs f) (pure-Runs _)

  probe_targets-Runs :
      (deadline : ℕ) (targets : List Target) (ips : List ℕ)
      → Runs P (probe_targets s plan run_id deadline targets ips)
  unfolding probe_targets
  probe_targets-Runs deadline targets [] = pure-Runs _
  probe_targets-Runs deadline targets (ip ∷ ips) = bind-Runs _ _ (update-Runs _ p refl) λ _.
      try_except-Runs _ _
        (bind-Runs _ _ (IsLocal-Runs _ p (laws.probe plan.mgmt_ip targets plan.require_icmp))
          λ checks. pure-Runs _)
        (pass_failed-Runs deadline)

  probe_pass-Runs :
      (deadline : ℕ) (discovered : List (ℕ × ℕ))
      → Runs P (probe_pass s plan run_id deadline discovered)
  unfolding probe_pass
  probe_pass-Runs deadline discovered = bind-Runs _ _ (look_up-Runs discovered) λ found.
      bind-Runs _ _ (probe_targets-Runs deadline _ _)
        λ r. bind-Runs _ _ (update-Runs _ p refl) λ _. pure-Runs _

  pause-Runs : (start : ℕ) → Runs P (pause s plan run_id start)
  unfolding pause
  pause-Runs start = bind-Runs _ _ (now-Runs s) λ t. IsLocal-Runs _ p (laws.sleep _)

-- `P`, no earlier than `t`
abbrev Since : {H : Type 0} → Server H → ℕ → (World H → Type 0) → World H → Type 0
Since s t P w = P w × (t ≤ s.monotonic w.host)

Since-IsSteady :
    {H : Type 0} {s : Server H} {run_id : ℕ} {P : World H → Type 0} (t : ℕ)
    → IsSteady s run_id P
    → IsSteady s run_id (Since s t P)
Since-IsSteady t p = record {
  later = λ w w' l c k h. (p.later w w' l c k h.0, omega (arith, c, h.1));
  tracks = λ w st h. (p.tracks w st h.0, h.1);
  updates = λ w fields q h. (p.updates w fields q h.0, h.1);
}

pub now-RunsAt :
    {H A : Type 0} (P : World H → Type 0) (s : Server H) (f : ℕ → Act H A) (w : World H)
    → RunsAt P (f (s.monotonic w.host)) w
    → RunsAt P (now s >>= f) w
unfolding now ◌>>=◌ continue
now-RunsAt P s f w r = r

if-RunsAt :
    {H A : Type 0} (P : World H → Type 0) (b : Bool) (m n : Act H A) (w : World H)
    → (b ≡ true → RunsAt P m w)
    → (b ≡ false → RunsAt P n w)
    → RunsAt P (if b then m else n) w
if-RunsAt P true m n w x y = x refl
if-RunsAt P false m n w x y = y refl

-- A pause ends an interval after the pass started, or later.
pause-later :
    {H : Type 0} {s : Server H} (run_id : ℕ) (laws : IsServer s) (plan : RunPlan) (t : ℕ)
    (w : World H)
    → t ≤ s.monotonic w.host
    → t + plan.interval ≤ s.monotonic (pause s plan run_id t w).0.host
unfolding pause now ◌>>=◌ continue
pause-later {s = s} run_id laws plan t w h =
    omega (arith, h, laws.sleeps (plan.interval - (s.monotonic w.host - t)) w)

module _ {H : Type 0} {s : Server H} {run_id : ℕ} (laws : IsServer s) (plan : RunPlan)
    (f : Db → Bool) (deadline : ℕ) where
  -- One pass, with what is known where the next one begins.
  one_pass-RunsAt :
      (fuel : ℕ) (discovered : List (ℕ × ℕ)) (P : World H → Type 0) (w : World H)
      → 1 ≤ plan.interval
      → IsSteady s run_id P
      → ((found : List (ℕ × ℕ)) (w' : World H)
          → Since s (s.monotonic w.host) P w'
          → s.monotonic w.host < s.monotonic w'.host
          → s.monotonic w.host < deadline
          → RunsAt
              (Since s (s.monotonic w.host) P)
              (probe_passes s plan run_id fuel (query f) deadline found)
              w')
      → P w
      → RunsAt
          (Since s (s.monotonic w.host) P)
          (probe_passes s plan run_id (suc fuel) (query f) deadline discovered)
          w
  unfolding probe_passes
  one_pass-RunsAt fuel discovered P w positive p next h =
      let t = s.monotonic w.host in
      let Q = Since s t P in
      let q = Since-IsSteady t p in
      let h0 : Q w = (h, omega arith) in
      now-RunsAt Q s _ w (
        bind-RunsAt Q (query f) _ w ((query-Runs {P = Q} f).at w h0) λ stop e h1.
          let w1 = (query f w).0 in
          if-RunsAt Q stop _ _ w1 (λ _. (raise-Runs {P = Q} _).at w1 h1)
            λ _.
              let pass = probe_pass s plan run_id deadline discovered in
              bind-RunsAt Q pass _ w1 ((probe_pass-Runs laws q plan deadline discovered).at w1 h1)
                λ r e2 h2.
                  let w2 = (pass w1).0 in
                  now-RunsAt Q s _ w2 (
                    if-RunsAt Q (is_done s plan run_id r.1.0 deadline (s.monotonic w2.host)) _ _ w2
                      (λ _. (pure-Runs {P = Q} r.1).at w2 h2)
                      λ early.
                        bind-RunsAt Q (pause s plan run_id t) _ w2
                          ((pause-Runs laws q plan t).at w2 h2)
                          λ _ e3 h3.
                            next r.0 (pause s plan run_id t w2).0 h3
                              (omega (arith, positive, pause-later run_id laws plan t w2 h2.1))
                              (ground (arith, early, h2.1))))

  probe_passes-RunsAt :
      (fuel : ℕ) (discovered : List (ℕ × ℕ)) (P : World H → Type 0) (w : World H)
      → 1 ≤ plan.interval
      → IsSteady s run_id P
      → P w
      → deadline ≤ s.monotonic w.host + fuel
      → RunsAt P (probe_passes s plan run_id (suc fuel) (query f) deadline discovered) w
  probe_passes-RunsAt zero discovered P w positive p h enough =
      let r =
        one_pass-RunsAt zero discovered P w positive p
          (λ found w' h' later before. absurd (omega (arith, enough, before))) h in
      (r.0.0, r.1)
  probe_passes-RunsAt (suc fuel) discovered P w positive p h enough =
      let t = s.monotonic w.host in
      let r =
        one_pass-RunsAt (suc fuel) discovered P w positive p
          (λ found w' h' later before.
            probe_passes-RunsAt fuel found (Since s t P) w' positive (Since-IsSteady t p) h'
              (omega (arith, enough, later)))
          h in
      (r.0.0, r.1)

-- The fuel of the loop is enough for its window.
pub probe_loop-Runs :
    {H : Type 0} {s : Server H} {run_id : ℕ} {P : World H → Type 0} (laws : IsServer s)
    (plan : RunPlan) (f : Db → Bool)
    → 1 ≤ plan.interval
    → IsSteady s run_id P
    → Runs P (probe_loop s plan run_id (query f))
unfolding probe_loop
probe_loop-Runs {s = s} {P = P} laws plan f positive p =
    bind-Runs _ _ (IsLocal-Runs _ p (laws.sleep plan.first_delay)) λ _. record {
      at = λ w h. now-RunsAt P s _ w (
          probe_passes-RunsAt laws plan f (s.monotonic w.host + plan.window) plan.window [] P w
            positive p h (omega arith));
    }
