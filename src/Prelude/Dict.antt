-- ===== src/Prelude/Dict.antt =====
-- Python's `dict` as the list of its items in insertion order.
use backup_sentinel.Prelude.Lists.{contains, filter}
use backup_sentinel.Prelude.Tests.{
  Comparable, ◌==◌, if◌then◌else◌, ==-refl, ==-ne, ==→≡, Bool-cases,
}
use mathlib.Core.Path.{◌≡◌, refl}
use mathlib.Core.Logic.{◌≢◌, ◌⊎◌, inl, inr}
use mathlib.Core.Bool.{Bool, ◌||◌, true}
use mathlib.Core.Option.{Option, none, some}
use mathlib.Core.List.{List, [], ◌∷◌, map}
use native.Mathlib.Omega.{arith}

abbrev pub Dict {ℓ κ} : Type ℓ → Type κ → Type (ℓ ⊔ κ)
Dict K V = List (K × V)

module _ {ℓ κ} {K : Type ℓ} {V : Type κ} ⦃e : Comparable K⦄ where
  -- `d.get(k)`
  unfoldable pub get : K → Dict K V → Option V
  get k [] = none
  get k ((j, v) ∷ d) = if j == k then some v else get k d

  -- `d[k] = v`: a key that is there keeps its place
  unfoldable pub put : K → V → Dict K V → Dict K V
  put k v [] = (k, v) ∷ []
  put k v ((j, w) ∷ d) = if j == k then (j, v) ∷ d else (j, w) ∷ put k v d

  -- `del d[k]`
  unfoldable pub remove : K → Dict K V → Dict K V
  remove k [] = []
  remove k ((j, v) ∷ d) = let rest = remove k d in if j == k then rest else (j, v) ∷ rest

  unfoldable pub keys : Dict K V → List K
  keys [] = []
  keys ((k, v) ∷ d) = k ∷ keys d

  -- `{k: v for k, v in items}`: a later item wins
  unfoldable pub from_items_onto : Dict K V → List (K × V) → Dict K V
  from_items_onto d [] = d
  from_items_onto d ((k, v) ∷ items) = from_items_onto (put k v d) items

  unfoldable pub from_items : List (K × V) → Dict K V
  unfolding from_items_onto
  from_items items = from_items_onto [] items

module _ {ℓ κ} {K : Type ℓ} {V : Type κ} ⦃e : Comparable K⦄ where
  pub get-put :
      (k j : K) (v : V) (d : Dict K V) → get j (put k v d) ≡ (if k == j then some v else get j d)
  unfolding get put
  get-put k j v [] = refl
  get-put k j v ((i, w) ∷ d) =
      ground (arith, e.equal_iff k j, e.equal_iff i k, e.equal_iff i j, get-put k j v d)

  pub get-put_self : (k : K) (v : V) (d : Dict K V) → get k (put k v d) ≡ some v
  get-put_self k v d = rw (get-put, ==-refl k)

  pub get-put_ne : (k j : K) (v : V) (d : Dict K V) → k ≢ j → get j (put k v d) ≡ get j d
  get-put_ne k j v d h = rw (get-put, ==-ne k j h)

  pub get-remove :
      (k j : K) (d : Dict K V) → get j (remove k d) ≡ (if k == j then none else get j d)
  unfolding get remove
  get-remove k j [] = ground arith
  get-remove k j ((i, w) ∷ d) =
      ground (arith, e.equal_iff k j, e.equal_iff i k, e.equal_iff i j, get-remove k j d)

  -- Of the items that pass a test of their key, the first with a key that passes is still first.
  pub get-filter :
      (p : K → Bool) (k : K) (d : Dict K V)
      → get k (filter (λ item. p item.0) d) ≡ (if p k then get k d else none)
  unfolding get
  get-filter p k [] = ground arith
  get-filter p k ((j, v) ∷ d) = elim (Bool-cases (j == k)) [
    | inl e ↦
        let same : j ≡ k = ==→≡ j k e in
        rw same (elim (Bool-cases (p k)) [
          | inl t ↦ rw t (rw (==-refl k) refl)
          | inr f ↦ rw f (let rest = get-filter p k d in rw f at rest)
        ])
    | inr n ↦ elim (Bool-cases (p j)) [
      | inl t ↦ rw t (rw n (get-filter p k d))
      | inr f ↦ rw f (rw n (get-filter p k d))
    ]
  ]

  -- Deleting a key that is not there, and deleting one that was just added.
  pub remove-put : (k : K) (v : V) (d : Dict K V) → get k d ≡ none → remove k (put k v d) ≡ d
  unfolding get put remove
  remove-put k v [] h = ground (arith, ==-refl k)
  remove-put k v ((i, w) ∷ d) h = ground (arith, remove-put k v d)

  pub contains-keys-put :
      (k j : K) (v : V) (d : Dict K V)
      → contains (keys (put k v d)) j ≡ (k == j || contains (keys d) j)
  unfolding put keys
  contains-keys-put k j v [] = refl
  contains-keys-put k j v ((i, w) ∷ d) =
      ground (arith, contains-keys-put k j v d, e.equal_iff i k, e.equal_iff i j, e.equal_iff k j)

  -- Writing a key twice is writing it once.
  pub put-put : (k : K) (v w : V) (d : Dict K V) → put k w (put k v d) ≡ put k w d
  unfolding put
  put-put k v w [] = ground (arith, ==-refl k)
  put-put k v w ((i, u) ∷ d) = ground (arith, put-put k v w d)

  -- Writing back the value that is there changes nothing.
  pub put-get_self : (k : K) (v : V) (d : Dict K V) → get k d ≡ some v → put k v d ≡ d
  unfolding get put
  put-get_self k v [] h = cc
  put-get_self k v ((i, u) ∷ d) h = ground (arith, put-get_self k v d)

  from_items_onto-has :
      (k : K) (d : Dict K V) (items : List (K × V))
      → (get k d ≢ none) ⊎ (contains (map (λ i. i.0) items) k ≡ true)
      → get k (from_items_onto d items) ≢ none
  unfolding from_items_onto
  from_items_onto-has k d [] (inl h) = h
  from_items_onto-has k d [] (inr m) = cc
  from_items_onto-has k d ((j, v) ∷ items) h =
      from_items_onto-has k (put j v d) items (elim (Bool-cases (j == k)) [
        | inl t ↦ inl (λ e. ground (arith, get-put j k v d))
        | inr f ↦ elim h [ inl g ↦ inl (λ e. g (rw (get-put, f) at e)) | inr m ↦ inr (rw f at m) ]
      ])

  -- The dictionary of some items has each of their keys.
  pub from_items-has :
      (k : K) (items : List (K × V))
      → contains (map (λ i. i.0) items) k ≡ true
      → get k (from_items items) ≢ none
  unfolding from_items
  from_items-has k items m = from_items_onto-has k [] items (inr m)
