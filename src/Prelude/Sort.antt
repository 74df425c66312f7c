-- ===== src/Prelude/Sort.antt =====
-- `sorted(xs, key=key)` over a key in the natural numbers: stable insertion.
use backup_sentinel.Prelude.Lists.{sum_of, All}
use backup_sentinel.Prelude.Tests.{if◌then◌else◌}
use Prim.Native.Nat.{ℕ, ◌+◌}
use mathlib.Core.Path.{◌≡◌, refl}
use mathlib.Core.Bool.{Bool, true, false}
use mathlib.Core.List.{List, [], ◌∷◌, Perm}
use mathlib.Core.List.Perm
use native.Mathlib.Omega.{arith}

module _ {ℓ} {A : Type ℓ} (leq : A → A → Bool) where
  -- `x` stood before the items of the sorted rest, so it goes before those that are equal
  unfoldable pub insert_by : A → List A → List A
  insert_by x [] = x ∷ []
  insert_by x (y ∷ ys) = if leq x y then x ∷ y ∷ ys else y ∷ insert_by x ys

  unfoldable pub sort_by : List A → List A
  sort_by [] = []
  sort_by (x ∷ xs) = insert_by x (sort_by xs)

module _ {ℓ} {A : Type ℓ} (leq : A → A → Bool) where
  insert_by-perm : (x : A) (xs : List A) → Perm (insert_by leq x xs) (x ∷ xs)
  unfolding insert_by
  insert_by-perm x [] = Perm.refl (x ∷ [])
  insert_by-perm x (y ∷ ys) =
      elim (leq x y)
        as (λ b. Perm (if b then x ∷ y ∷ ys else y ∷ insert_by leq x ys) (x ∷ y ∷ ys)) [
          | true ↦ Perm.refl (x ∷ y ∷ ys)
          | false ↦ Perm.trans (Perm.cons y (insert_by-perm x ys)) (Perm.swap x y ys)
        ]

  -- Sorting keeps every item.
  pub sort_by-perm : (xs : List A) → Perm (sort_by leq xs) xs
  unfolding sort_by
  sort_by-perm [] = Perm.refl []
  sort_by-perm (x ∷ xs) =
      Perm.trans (insert_by-perm x (sort_by leq xs)) (Perm.cons x (sort_by-perm xs))

  sum_of-insert_by :
      (f : A → ℕ) (x : A) (xs : List A) → sum_of f (insert_by leq x xs) ≡ f x + sum_of f xs
  unfolding insert_by
  sum_of-insert_by f x [] = refl
  sum_of-insert_by f x (y ∷ ys) = ground (arith, sum_of-insert_by f x ys)

  pub sum_of-sort_by : (f : A → ℕ) (xs : List A) → sum_of f (sort_by leq xs) ≡ sum_of f xs
  unfolding sort_by
  sum_of-sort_by f [] = refl
  sum_of-sort_by f (x ∷ xs) =
      omega (arith, sum_of-insert_by f x (sort_by leq xs), sum_of-sort_by f xs)

  pub All-insert_by {κ} :
      (P : A → Type κ) (x : A) (xs : List A) → P x → All P xs → All P (insert_by leq x xs)
  unfolding insert_by
  All-insert_by P x [] p ps = (p, tt)
  All-insert_by P x (y ∷ ys) p ps =
      elim (leq x y) as (λ b. All P (if b then x ∷ y ∷ ys else y ∷ insert_by leq x ys)) [
        | true ↦ (p, ps)
        | false ↦ (ps.0, All-insert_by P x ys p ps.1)
      ]

  pub All-sort_by {κ} : (P : A → Type κ) (xs : List A) → All P xs → All P (sort_by leq xs)
  unfolding sort_by
  All-sort_by P [] ps = tt
  All-sort_by P (x ∷ xs) ps = All-insert_by P x (sort_by leq xs) ps.0 (All-sort_by P xs ps.1)

  All-insert_by_inv {κ} :
      (P : A → Type κ) (x : A) (xs : List A) → All P (insert_by leq x xs) → P x × All P xs
  unfolding insert_by
  All-insert_by_inv P x [] h = h
  All-insert_by_inv P x (y ∷ ys) h =
      (elim (leq x y)
          as (λ b.
            All P (if b then x ∷ y ∷ ys else y ∷ insert_by leq x ys) → P x × All P (y ∷ ys)) [
              | true ↦ λ k. k
              | false ↦ λ k. let (p, ps) = All-insert_by_inv P x ys k.1 in (p, (k.0, ps))
            ])
        h

  pub All-sort_by_inv {κ} : (P : A → Type κ) (xs : List A) → All P (sort_by leq xs) → All P xs
  unfolding sort_by
  All-sort_by_inv P [] h = tt
  All-sort_by_inv P (x ∷ xs) h =
      let (p, ps) = All-insert_by_inv P x (sort_by leq xs) h in (p, All-sort_by_inv P xs ps)
