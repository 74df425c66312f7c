-- ===== src/Restore/Effect/Runs.antt =====
-- What an action keeps of the world and that it comes to an end: one rule for each combinator.
use backup_sentinel.Prelude.{if◌then◌else◌, ◌≡◌, refl, Bool, true, false}
use backup_sentinel.Restore.Runs.{Db}
use backup_sentinel.Restore.Effect.{
  Fault, Outcome, returned, raised, diverged, World, Act, pure, raise, query, handled, try_except,
  tracked, continue, attempt, ◌>>=◌,
}

-- it has returned or raised, and did not run out of fuel
abbrev pub IsOver : {A : Type 0} → Outcome A → Type 0
IsOver (returned a) = Unit
IsOver (raised f) = Unit
IsOver diverged = ⊥

-- From `w` the action ends, in a world where `P` holds.
abbrev pub RunsAt : {H A : Type 0} → (World H → Type 0) → Act H A → World H → Type 0
RunsAt P m w = P (m w).0 × IsOver (m w).1

pub record Runs {H A : Type 0} (P : World H → Type 0) (m : Act H A) : Type 0 where
  pub at : (w : World H) → P w → RunsAt P m w

module _ {H : Type 0} {P : World H → Type 0} where
  pub pure-Runs : {A : Type 0} (a : A) → Runs P (pure a)
  unfolding pure
  pure-Runs a = record { at = λ w h. (h, tt) }

  pub raise-Runs : {A : Type 0} (f : Fault) → Runs P (raise {A = A} f)
  unfolding raise
  raise-Runs f = record { at = λ w h. (h, tt) }

  pub query-Runs : {A : Type 0} (f : Db → A) → Runs P (query f)
  unfolding query
  query-Runs f = record { at = λ w h. (h, tt) }

  pub tracked-Runs : Runs P tracked
  unfolding tracked
  tracked-Runs = record { at = λ w h. (h, tt) }

  pub if-Runs :
      {A : Type 0} (b : Bool) (m n : Act H A) → Runs P m → Runs P n → Runs P (if b then m else n)
  if-Runs true m n km kn = km
  if-Runs false m n km kn = kn

  handled-Runs :
      {A : Type 0} (handler : Fault → Act H A) (r : World H × Outcome A)
      → ((f : Fault) → Runs P (handler f))
      → P r.0
      → IsOver r.1
      → P (handled handler r).0 × IsOver (handled handler r).1
  unfolding handled
  handled-Runs handler (w, returned a) k h o = (h, tt)
  handled-Runs handler (w, raised f) k h o = (k f).at w h
  handled-Runs handler (w, diverged) k h o = absurd o

  pub try_except-Runs :
      {A : Type 0} (m : Act H A) (handler : Fault → Act H A)
      → Runs P m
      → ((f : Fault) → Runs P (handler f))
      → Runs P (try_except m handler)
  unfolding try_except
  try_except-Runs m handler km k = record {
    at = λ w h. let (h', o) = km.at w h in handled-Runs handler (m w) k h' o;
  }

  pub attempt-Runs :
      {A : Type 0} (default : A) (m : Act H A) → Runs P m → Runs P (attempt default m)
  unfolding attempt
  attempt-Runs default m km = try_except-Runs m (λ _. pure default) km (λ _. pure-Runs default)

module _ {H : Type 0} (P : World H → Type 0) where
  -- The rest may use what the first action returned, and where.
  continue-RunsAt :
      {A B : Type 0} (f : A → Act H B) (r : World H × Outcome A)
      → P r.0
      → IsOver r.1
      → ((a : A) → r.1 ≡ returned a → P r.0 → RunsAt P (f a) r.0)
      → P (continue f r).0 × IsOver (continue f r).1
  unfolding continue
  continue-RunsAt f (w, returned a) h o k = k a refl h
  continue-RunsAt f (w, raised e) h o k = (h, tt)
  continue-RunsAt f (w, diverged) h o k = absurd o

  pub bind-RunsAt :
      {A B : Type 0} (m : Act H A) (f : A → Act H B) (w : World H)
      → RunsAt P m w
      → ((a : A) → (m w).1 ≡ returned a → P (m w).0 → RunsAt P (f a) (m w).0)
      → RunsAt P (m >>= f) w
  unfolding ◌>>=◌
  bind-RunsAt m f w r k = continue-RunsAt f (m w) r.0 r.1 k

module _ {H : Type 0} {P : World H → Type 0} where
  pub bind-Runs :
      {A B : Type 0} (m : Act H A) (f : A → Act H B)
      → Runs P m
      → ((a : A) → Runs P (f a))
      → Runs P (m >>= f)
  bind-Runs m f km k = record {
    at = λ w h. bind-RunsAt P m f w (km.at w h) (λ a e h'. (k a).at (m w).0 h');
  }

pub ruleset runs_rules = (
  pure-Runs, raise-Runs, query-Runs, tracked-Runs, if-Runs, try_except-Runs, attempt-Runs,
  bind-Runs,
)
