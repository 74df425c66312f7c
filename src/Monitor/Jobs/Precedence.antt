-- ===== src/Monitor/Jobs/Precedence.antt =====
-- The kind of a guest from the jobs that cover it.
use backup_sentinel.Prelude.{
  if◌then◌else◌, Bool-cases, ◌==◌, ==-refl, ==→≡, ==-ne, ==_false→≢, any, contains, ℕ, ◌≡◌, refl,
  sym, ap, ◌∙◌, ◌≢◌, inl, inr, Bool, true, false, not, ◌&&◌, ◌||◌, Option, none, some, List, [],
  ◌∷◌, arith, nat_eq, string_eq,
}
use backup_sentinel.Prelude.Dict.{get, get-put_self, get-put_ne}
use backup_sentinel.Monitor.Jobs.{
  Kind, daily_kind, weekly_kind, Kinds, is_daily, is_unset, mark, mark_all, Job, covered_vmids,
  is_specific, add_jobs, infer_backup_kind_by_vmid,
}

-- what is known of one guest
abbrev View : Type 0
View = Option Kind × Bool

abbrev view : ℕ → Kinds → View
view v k = (get v k.result, contains k.specific v)

abbrev mark_one : Bool → Kind → View → View
mark_one true kind (o, true) = (if is_daily kind then some daily_kind else o, true)
mark_one true kind (o, false) = (some kind, true)
mark_one false kind (o, true) = (o, true)
mark_one false kind (o, false) = (if is_daily kind || is_unset o then some kind else o, false)

view-mark_self :
    (specific : Bool) (kind : Kind) (v : ℕ) (k : Kinds)
    → view v (mark specific kind v k) ≡ mark_one specific kind (view v k)
unfolding mark
view-mark_self true daily_kind v k = ground (arith, get-put_self v daily_kind k.result, ==-refl v)
view-mark_self true weekly_kind v k = ground (arith, get-put_self v weekly_kind k.result, ==-refl v)
view-mark_self false kind v k = ground (arith, get-put_self v kind k.result, ==-refl v)

view-mark_ne :
    (specific : Bool) (kind : Kind) (u v : ℕ) (k : Kinds)
    → u ≢ v
    → view v (mark specific kind u k) ≡ view v k
unfolding mark
view-mark_ne true kind u v k ne = ground (
  arith,
  ne,
  get-put_ne u v daily_kind k.result ne,
  get-put_ne u v kind k.result ne,
  ==-ne u v ne,
)
view-mark_ne false kind u v k ne = ground (arith, ne, get-put_ne u v kind k.result ne)

-- A mark changes what is known of its guest alone.
view-mark :
    (specific : Bool) (kind : Kind) (u v : ℕ) (k : Kinds)
    → view v (mark specific kind u k)
      ≡ (if u == v then mark_one specific kind (view v k) else view v k)
unfolding mark
view-mark true kind u v k = elim (Bool-cases (u == v)) [
  | inl e ↦ rw e (rw (==→≡ u v e) (view-mark_self true kind v k))
  | inr n ↦ rw n (view-mark_ne true kind u v k (==_false→≢ u v n))
]
view-mark false kind u v k = elim (Bool-cases (u == v)) [
  | inl e ↦ rw e (rw (==→≡ u v e) (view-mark_self false kind v k))
  | inr n ↦ rw n (view-mark_ne false kind u v k (==_false→≢ u v n))
]

mark_one-again :
    (specific : Bool) (kind : Kind) (x : View)
    → mark_one specific kind (mark_one specific kind x) ≡ mark_one specific kind x
mark_one-again true daily_kind (o, true) = refl
mark_one-again true daily_kind (o, false) = refl
mark_one-again true weekly_kind (o, true) = refl
mark_one-again true weekly_kind (o, false) = refl
mark_one-again false kind (o, true) = refl
mark_one-again false daily_kind (o, false) = refl
mark_one-again false weekly_kind (none, false) = refl
mark_one-again false weekly_kind (some x, false) = refl

again_or_first :
    (b c : Bool) (m : View → View) (x y : View)
    → m (m x) ≡ m x
    → y ≡ (if b then m x else x)
    → (if c then m y else y) ≡ (if b || c then m x else x)
again_or_first true true m x y again e = rw e again
again_or_first true false m x y again e = e
again_or_first false true m x y again e = rw e refl
again_or_first false false m x y again e = e

view-mark_all :
    (specific : Bool) (kind : Kind) (vmids : List ℕ) (v : ℕ) (k : Kinds)
    → view v (mark_all specific kind vmids k)
      ≡ (if contains vmids v then mark_one specific kind (view v k) else view v k)
unfolding mark_all
view-mark_all specific kind [] v k = refl
view-mark_all specific kind (u ∷ vmids) v k =
    view-mark_all specific kind vmids v (mark specific kind u k)
    ∙ again_or_first (u == v) (contains vmids v) (mark_one specific kind) (view v k) _
        (mark_one-again specific kind (view v k)) (view-mark specific kind u v k)

abbrev pub covers : List ℕ → ℕ → Job → Bool
covers all_vmids v job = job.enabled && contains (covered_vmids job all_vmids) v

-- the jobs that cover a guest by name, or with all guests
abbrev pub names : List ℕ → ℕ → Job → Bool
names all_vmids v job = covers all_vmids v job && is_specific job

abbrev pub includes : List ℕ → ℕ → Job → Bool
includes all_vmids v job = covers all_vmids v job && not (is_specific job)

abbrev pub runs_daily : Job → Bool
runs_daily job = is_daily job.schedule

abbrev pub kind_if : Bool → Kind
kind_if b = if b then daily_kind else weekly_kind

-- what jobs make of a guest of which `x` is known: is there one that names it and runs daily, one
-- that names it, one that includes it and runs daily, one that includes it?
abbrev settle : View → Bool → Bool → Bool → Bool → View
settle (o, true) nd n id i = (if nd then some daily_kind else o, true)
settle (o, false) nd n id i =
    if n
    then (some (kind_if nd), true)
    else (if id then some daily_kind else if i && is_unset o then some weekly_kind else o, false)

settle-step :
    (specific : Bool) (kind : Kind) (x : View) (nd n id i : Bool)
    → (nd ≡ true → n ≡ true)
    → (id ≡ true → i ≡ true)
    → settle (mark_one specific kind x) nd n id i
      ≡ settle x
          ((specific && is_daily kind) || nd)
          (specific || n)
          ((not specific && is_daily kind) || id)
          (not specific || i)
settle-step specific kind (o, s) nd n id i hn hi = ground (arith, hn, hi)

any_and :
    (p q : Job → Bool) (jobs : List Job) → any (λ j. p j && q j) jobs ≡ true → any p jobs ≡ true
any_and p q [] h = cc
any_and p q (job ∷ jobs) h = ground (arith, h, any_and p q jobs)

settle-nothing : (x : View) → settle x false false false false ≡ x
settle-nothing (o, true) = refl
settle-nothing (o, false) = refl

view_branch :
    (b c : Bool) (v : ℕ) (m k : Kinds) (y : View)
    → view v m ≡ (if c then y else view v k)
    → view v (if b then m else k) ≡ (if b && c then y else view v k)
view_branch true c v m k y e = e
view_branch false c v m k y e = refl

view-job :
    (all_vmids : List ℕ) (v : ℕ) (job : Job) (k : Kinds)
    → view v (
        if job.enabled
        then mark_all (is_specific job) job.schedule (covered_vmids job all_vmids) k
        else k)
      ≡ (if covers all_vmids v job
          then mark_one (is_specific job) job.schedule (view v k)
          else view v k)
view-job all_vmids v job k =
    view_branch job.enabled (contains (covered_vmids job all_vmids) v) v _ k _
      (view-mark_all (is_specific job) job.schedule (covered_vmids job all_vmids) v k)

settle-job :
    (c specific : Bool) (kind : Kind) (x : View) (nd n id i : Bool)
    → (nd ≡ true → n ≡ true)
    → (id ≡ true → i ≡ true)
    → settle (if c then mark_one specific kind x else x) nd n id i
      ≡ settle x
          (((c && specific) && is_daily kind) || nd)
          ((c && specific) || n)
          (((c && not specific) && is_daily kind) || id)
          ((c && not specific) || i)
settle-job true specific kind x nd n id i hn hi = settle-step specific kind x nd n id i hn hi
settle-job false specific kind x nd n id i hn hi = refl

module _ (all_vmids : List ℕ) (v : ℕ) where
  abbrev settled : View → List Job → View
  settled x jobs =
      settle x (any (λ j. names all_vmids v j && runs_daily j) jobs) (any (names all_vmids v) jobs)
        (any (λ j. includes all_vmids v j && runs_daily j) jobs) (any (includes all_vmids v) jobs)

  view-add_jobs :
      (jobs : List Job) (k : Kinds) → view v (add_jobs all_vmids jobs k) ≡ settled (view v k) jobs
  unfolding add_jobs
  view-add_jobs [] k = sym (settle-nothing (view v k))
  view-add_jobs (job ∷ jobs) k =
      view-add_jobs jobs _
      ∙ ap (λ x. settled x jobs) (view-job all_vmids v job k)
      ∙ settle-job (covers all_vmids v job) (is_specific job) job.schedule (view v k) _ _ _ _
          (any_and (names all_vmids v) runs_daily jobs)
          (any_and (includes all_vmids v) runs_daily jobs)

  -- what is found of a guest of which nothing was known
  settled-unknown :
      (nd n id i : Bool)
      → (id ≡ true → i ≡ true)
      → (settle (none, false) nd n id i).0
        ≡ (if n then some (kind_if nd) else (if i then some (kind_if id) else none))
  settled-unknown nd n id i hi = ground (arith, hi)

-- The jobs that cover a guest decide its kind, in whatever order they come: it is daily when one
-- that names the guest runs daily, else weekly when one names it; when none names it, daily when
-- one that includes all guests runs daily, else weekly when there is one; and a guest that no
-- enabled job covers has no kind.
pub infer_backup_kind_by_vmid-precedence :
    (all_vmids : List ℕ) (v : ℕ) (jobs : List Job)
    → get v (infer_backup_kind_by_vmid all_vmids jobs) ≡ (
        if any (names all_vmids v) jobs
        then some (kind_if (any (λ j. names all_vmids v j && runs_daily j) jobs))
        else (if any (includes all_vmids v) jobs
            then some (kind_if (any (λ j. includes all_vmids v j && runs_daily j) jobs))
            else none))
unfolding infer_backup_kind_by_vmid get
infer_backup_kind_by_vmid-precedence all_vmids v jobs =
    ap (λ x. x.0) (view-add_jobs all_vmids v jobs (record { result = []; specific = [] }))
    ∙ settled-unknown all_vmids v _ _ _ _ (any_and (includes all_vmids v) runs_daily jobs)
