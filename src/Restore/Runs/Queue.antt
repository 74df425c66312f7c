-- ===== src/Restore/Runs/Queue.antt =====
-- The order of the queue, and what reordering and deleting leave alone.
use mathlib.Core.List.{Perm}
use backup_sentinel.Prelude.{
  Bool-cases, filter, All, ℕ, ◌≡◌, refl, ◌⊎◌, inl, inr, Bool, true, Option, none, some, List, [],
  ◌∷◌, arith,
}
use backup_sentinel.Prelude.Sort.{insert_by, sort_by, sort_by-perm, All-insert_by}
use backup_sentinel.Restore.Runs.{Db, earlier_queued, compare_orders, earlier, list_queued_runs}
use backup_sentinel.Restore.Types.{Run, is_queued}

-- The rows of a list in the order of the queue: manual order first, then first in, first out.
abbrev pub InQueueOrder : List Run → Type 0
InQueueOrder [] = Unit
InQueueOrder (r ∷ runs) = All (λ s. earlier r s ≡ true) runs × InQueueOrder runs

compare_orders_total :
    (a b : Option ℕ) (tie tie' : Bool)
    → (tie ≡ true) ⊎ (tie' ≡ true)
    → (compare_orders a b tie ≡ true) ⊎ (compare_orders b a tie' ≡ true)
unfolding compare_orders
compare_orders_total none none tie tie' h = h
compare_orders_total none (some n) tie tie' h = inr refl
compare_orders_total (some m) none tie tie' h = inl refl
compare_orders_total (some m) (some n) tie tie' h = ground (arith, h)

earlier_queued_total : (r s : Run) → (earlier_queued r s ≡ true) ⊎ (earlier_queued s r ≡ true)
unfolding earlier_queued
earlier_queued_total r s = ground arith

earlier_total : (r s : Run) → (earlier r s ≡ true) ⊎ (earlier s r ≡ true)
unfolding earlier
earlier_total r s =
    compare_orders_total r.sort_order s.sort_order (earlier_queued r s) (earlier_queued s r)
      (earlier_queued_total r s)

compare_orders_trans :
    (a b c : Option ℕ) (ab bc ac : Bool)
    → (ab ≡ true → bc ≡ true → ac ≡ true)
    → compare_orders a b ab ≡ true
    → compare_orders b c bc ≡ true
    → compare_orders a c ac ≡ true
unfolding compare_orders
compare_orders_trans none none none ab bc ac h p q = h p q
compare_orders_trans none none (some n) ab bc ac h p q = cc q
compare_orders_trans none (some m) c ab bc ac h p q = cc p
compare_orders_trans (some l) none none ab bc ac h p q = refl
compare_orders_trans (some l) none (some n) ab bc ac h p q = cc q
compare_orders_trans (some l) (some m) none ab bc ac h p q = refl
compare_orders_trans (some l) (some m) (some n) ab bc ac h p q = ground (arith, h)

earlier_queued_trans :
    (r s t : Run)
    → earlier_queued r s ≡ true
    → earlier_queued s t ≡ true
    → earlier_queued r t ≡ true
unfolding earlier_queued
earlier_queued_trans r s t h k = ground arith

earlier_trans : (r s t : Run) → earlier r s ≡ true → earlier s t ≡ true → earlier r t ≡ true
unfolding earlier
earlier_trans r s t =
    compare_orders_trans r.sort_order s.sort_order t.sort_order (earlier_queued r s)
      (earlier_queued s t) (earlier_queued r t) (earlier_queued_trans r s t)

All-earlier_trans :
    (r s : Run) (runs : List Run)
    → earlier r s ≡ true
    → All (λ t. earlier s t ≡ true) runs
    → All (λ t. earlier r t ≡ true) runs
All-earlier_trans r s [] h k = tt
All-earlier_trans r s (t ∷ runs) h k = (earlier_trans r s t h k.0, All-earlier_trans r s runs h k.1)

InQueueOrder-insert_by :
    (r : Run) (runs : List Run) → InQueueOrder runs → InQueueOrder (insert_by earlier r runs)
unfolding insert_by
InQueueOrder-insert_by r [] h = (tt, tt)
InQueueOrder-insert_by r (s ∷ runs) h = elim (Bool-cases (earlier r s)) [
  | inl first ↦ rw first ((first, All-earlier_trans r s runs first h.0), h)
  | inr not_first ↦
      let after : earlier s r ≡ true = ground (arith, earlier_total r s, not_first) in
      rw not_first (
        All-insert_by earlier (λ t. earlier s t ≡ true) r runs after h.0,
        InQueueOrder-insert_by r runs h.1,
      )
]

InQueueOrder-sort_by : (runs : List Run) → InQueueOrder (sort_by earlier runs)
unfolding sort_by
InQueueOrder-sort_by [] = tt
InQueueOrder-sort_by (r ∷ runs) =
    InQueueOrder-insert_by r (sort_by earlier runs) (InQueueOrder-sort_by runs)

-- The queue holds the queued rows, each once, in the order of manual position, queueing time and id.
list_queued_runs_lem :
    (db : Db)
    → InQueueOrder (list_queued_runs db)
      × Perm (list_queued_runs db) (filter (λ r. is_queued r.status) db.runs)
unfolding list_queued_runs
list_queued_runs_lem db = (
  InQueueOrder-sort_by (filter (λ r. is_queued r.status) db.runs),
  sort_by-perm earlier (filter (λ r. is_queued r.status) db.runs),
)
