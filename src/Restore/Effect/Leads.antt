-- ===== src/Restore/Effect/Leads.antt =====
-- Where an action leads from a world, with what it returned.
use backup_sentinel.Prelude.{if◌then◌else◌, ◌≡◌, refl, Bool, true, false}
use backup_sentinel.Restore.Effect.{
  Outcome, returned, raised, diverged, World, Act, continue, ◌>>=◌,
}
use backup_sentinel.Restore.Effect.Runs.{IsOver, Runs}

-- `Q` holds of what was returned and of the world then; a raise may leave any world.
abbrev pub Post : {H A : Type 0} → (A → World H → Type 0) → World H × Outcome A → Type 0
Post Q (w, returned a) = Q a w
Post Q (w, raised f) = Unit
Post Q (w, diverged) = ⊥

abbrev pub Leads : {H A : Type 0} → (A → World H → Type 0) → Act H A → World H → Type 0
Leads Q m w = Post Q (m w)

module _ {H A B : Type 0} (Q : B → World H → Type 0) (R : A → World H → Type 0) where
  continue-Leads :
      (f : A → Act H B) (r : World H × Outcome A)
      → Post R r
      → ((a : A) (w : World H) → R a w → Leads Q (f a) w)
      → Post Q (continue f r)
  unfolding continue
  continue-Leads f (w, returned a) h k = k a w h
  continue-Leads f (w, raised e) h k = tt
  continue-Leads f (w, diverged) h k = h

  pub bind-Leads :
      (m : Act H A) (f : A → Act H B) (w : World H)
      → Leads R m w
      → ((a : A) (w' : World H) → R a w' → Leads Q (f a) w')
      → Leads Q (m >>= f) w
  unfolding ◌>>=◌
  bind-Leads m f w h k = continue-Leads f (m w) h k

module _ {H A : Type 0} where
  pub if-Leads :
      (Q : A → World H → Type 0) (b : Bool) (m n : Act H A) (w : World H)
      → (b ≡ true → Leads Q m w)
      → (b ≡ false → Leads Q n w)
      → Leads Q (if b then m else n) w
  if-Leads Q true m n w h k = h refl
  if-Leads Q false m n w h k = k refl

  pub RunsAt-Post :
      (P : World H → Type 0) (r : World H × Outcome A) → P r.0 → IsOver r.1 → Post (λ _. P) r
  RunsAt-Post P (w, returned a) h o = h
  RunsAt-Post P (w, raised f) h o = tt
  RunsAt-Post P (w, diverged) h o = o

  pub Runs-Leads :
      (P : World H → Type 0) (m : Act H A) (w : World H) → Runs P m → P w → Leads (λ _. P) m w
  Runs-Leads P m w r h = let x = r.at w h in RunsAt-Post P (m w) x.0 x.1
