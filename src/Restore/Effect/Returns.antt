-- ===== src/Restore/Effect/Returns.antt =====
-- Actions that return: they neither raise nor run out of fuel.
use backup_sentinel.Prelude.{if◌then◌else◌, ◌≡◌, refl, ap, Bool, true, false}
use backup_sentinel.Restore.Runs.{Db}
use backup_sentinel.Restore.Effect.{
  Fault, Outcome, returned, raised, diverged, World, Act, pure, query, handled, try_except,
  continue, attempt, ◌>>=◌,
}
use backup_sentinel.Restore.Effect.Runs.{IsOver, Runs}

pub record Returns {H A : Type 0} (P : World H → Type 0) (m : Act H A) : Type 0 where
  pub at : (w : World H) → P w → P (m w).0 × ((a : A) × ((m w).1 ≡ returned a))

module _ {H : Type 0} {P : World H → Type 0} where
  pub pure-Returns : {A : Type 0} (a : A) → Returns P (pure a)
  unfolding pure
  pure-Returns a = record { at = λ w h. (h, (a, refl)) }

  pub query-Returns : {A : Type 0} (f : Db → A) → Returns P (query f)
  unfolding query
  query-Returns f = record { at = λ w h. (h, (f w.db, refl)) }

  pub if-Returns :
      {A : Type 0} (b : Bool) (m n : Act H A)
      → Returns P m
      → Returns P n
      → Returns P (if b then m else n)
  if-Returns true m n km kn = km
  if-Returns false m n km kn = kn

  handled-Returns :
      {A : Type 0} (handler : Fault → Act H A) (r : World H × Outcome A)
      → ((f : Fault) → Returns P (handler f))
      → P r.0
      → IsOver r.1
      → P (handled handler r).0 × ((a : A) × ((handled handler r).1 ≡ returned a))
  unfolding handled
  handled-Returns handler (w, returned a) k h o = (h, (a, refl))
  handled-Returns handler (w, raised f) k h o = (k f).at w h
  handled-Returns handler (w, diverged) k h o = absurd o

  -- What is caught is not raised.
  pub try_except-Returns :
      {A : Type 0} (m : Act H A) (handler : Fault → Act H A)
      → Runs P m
      → ((f : Fault) → Returns P (handler f))
      → Returns P (try_except m handler)
  unfolding try_except
  try_except-Returns m handler km k = record {
    at = λ w h. let (h', o) = km.at w h in handled-Returns handler (m w) k h' o;
  }

  pub attempt-Returns :
      {A : Type 0} (default : A) (m : Act H A) → Runs P m → Returns P (attempt default m)
  unfolding attempt
  attempt-Returns default m km =
      try_except-Returns m (λ _. pure default) km (λ _. pure-Returns default)

  continue-Returns :
      {A B : Type 0} (f : A → Act H B) (r : World H × Outcome A)
      → P r.0
      → ((a : A) × (r.1 ≡ returned a))
      → ((a : A) → Returns P (f a))
      → P (continue f r).0 × ((b : B) × ((continue f r).1 ≡ returned b))
  unfolding continue
  continue-Returns f (w, returned a) h e k = (k a).at w h
  continue-Returns f (w, raised x) h e k = absurd (cc e.1)
  continue-Returns f (w, diverged) h e k = absurd (cc e.1)

  pub bind-Returns :
      {A B : Type 0} (m : Act H A) (f : A → Act H B)
      → Returns P m
      → ((a : A) → Returns P (f a))
      → Returns P (m >>= f)
  unfolding ◌>>=◌
  bind-Returns m f km k = record {
    at = λ w h. let (h', e) = km.at w h in continue-Returns f (m w) h' e k;
  }

module _ {H A B : Type 0} where
  continue-returned :
      (f : A → Act H B) (r : World H × Outcome A) (a : A)
      → r.1 ≡ returned a
      → continue f r ≡ f a r.0
  unfolding continue
  continue-returned f (w, returned b) a e = ap (λ (x : A). f x w) (cc e)
  continue-returned f (w, raised x) a e = absurd (cc e)
  continue-returned f (w, diverged) a e = absurd (cc e)

  -- A block whose first action returns goes on from where that left the world.
  pub bind-returned :
      (m : Act H A) (f : A → Act H B) (w : World H) (a : A)
      → (m w).1 ≡ returned a
      → (m >>= f) w ≡ f a (m w).0
  unfolding ◌>>=◌
  bind-returned m f w a e = continue-returned f (m w) a e

  -- What holds of a block's outcome, from where its first action returned.
  pub after-bind {κ} :
      (Q : World H × Outcome B → Type κ) (m : Act H A) (f : A → Act H B) (w : World H) (a : A)
      → (m w).1 ≡ returned a
      → Q (f a (m w).0)
      → Q ((m >>= f) w)
  after-bind Q m f w a e q = rw (bind-returned m f w a e) q

returned-IsOver : {A : Type 0} (o : Outcome A) (a : A) → o ≡ returned a → IsOver o
returned-IsOver o a e = rw e tt

pub Returns-Runs : {H A : Type 0} {P : World H → Type 0} (m : Act H A) → Returns P m → Runs P m
Returns-Runs m r = record {
  at = λ w h. let (h', (a, e)) = r.at w h in (h', returned-IsOver (m w).1 a e);
}
