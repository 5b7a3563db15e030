-- ===== src/Planning/Reducer/Patches.antt =====
-- What one patch does to one task.
use bauhinia_agent.Common.{
  ◌∙◌, sym, filter, ap, String, ◌≡◌, refl, Bool, true, false, ◌&&◌, ◌||◌, not, Option, none, some,
  List, [], ◌∷◌, ◌++◌, filter_congr, ◌==◌, nat_eq, string_eq, elem, elem-append, elem-filter,
  All-of_elem, Unique, Unique-append, Unique-filter, arith, Bool-cases, inl, inr,
}
use bauhinia_agent.Planning.Values.{
  TaskStatus, Task, TaskPatch, OwnerPatch, unset, owned, status_eq,
}
use bauhinia_agent.Planning.Reducer.{
  patch_status, patch_owner, patch_dependencies, apply_patch, differs, optional_beq, texts_beq,
}

abbrev pub status_after : TaskPatch → Task → TaskStatus
status_after p t = elim p.status [ none ↦ t.status | some s ↦ s ]

abbrev pub owner_after : TaskPatch → Task → Option String
owner_after p t = elim p.owner [ unset ↦ t.owner | owned o ↦ o ]

-- The dependencies after a patch: those of the old ones that are not removed, then those of the added
-- ones that are not among these.
abbrev dependencies_after : TaskPatch → Task → List String
dependencies_after p t =
    let kept = filter (λ d. not (elem d p.remove_depends_on)) t.depends_on in
    kept ++ filter (λ d. not (elem d kept)) p.add_depends_on

abbrev pub task_after : TaskPatch → Task → Task
task_after p t = record t {
  status = status_after p t;
  owner = owner_after p t;
  depends_on = dependencies_after p t;
}

elem-dependencies :
    (remove add ds : List String) (x : String)
    → elem x (patch_dependencies remove add ds).0
      ≡ (elem x add || (elem x ds && not (elem x remove)))
unfolding patch_dependencies
elem-dependencies remove add ds x =
    let removed = filter (λ d. elem d ds) remove in
    let kept = filter (λ d. not (elem d removed)) ds in
    elem-append x kept (filter (λ d. not (elem d kept)) add)
    ∙ ground (
      arith,
      elem-filter (λ d. not (elem d kept)) x add,
      elem-filter (λ d. not (elem d removed)) x ds,
      elem-filter (λ d. elem d ds) x remove,
    )

Unique-dependencies :
    (remove add ds : List String)
    → Unique ds
    → Unique add
    → Unique (patch_dependencies remove add ds).0
unfolding patch_dependencies
Unique-dependencies remove add ds u v =
    let removed = filter (λ d. elem d ds) remove in
    let kept = filter (λ d. not (elem d removed)) ds in
    let added = filter (λ d. not (elem d kept)) add in
    Unique-append kept added (Unique-filter (λ d. not (elem d removed)) ds u)
      (Unique-filter (λ d. not (elem d kept)) add v)
      (All-of_elem (λ x. elem x added ≡ false) kept
        (λ x m. ground (arith, m, elem-filter (λ d. not (elem d kept)) x add)))

optional_beq_eq : (a b : Option String) → optional_beq a b ≡ true → a ≡ b
optional_beq_eq none none h = refl
optional_beq_eq (some a) (some b) h = ap some ((string_eq.equal_iff a b).0 h)
optional_beq_eq none (some b) h = cc
optional_beq_eq (some a) none h = cc

status-eq :
    (o : Option TaskStatus) (s : TaskStatus)
    → (patch_status o s).0 ≡ (elim o [ none ↦ s | some n ↦ n ])
unfolding patch_status
status-eq o s = ground arith

owner-eq :
    (p : OwnerPatch) (o : Option String)
    → (patch_owner p o).0 ≡ (elim p [ unset ↦ o | owned n ↦ n ])
unfolding patch_owner
owner-eq unset o = refl
owner-eq (owned n) o = elim (Bool-cases (optional_beq n o)) [
  | inl same ↦ rw same (sym (optional_beq_eq n o same))
  | inr other ↦ rw other
]

-- A patch sets the status and the owner that it gives and keeps the others, keeps the id, the
-- content and the order, and makes the dependencies the added ones and those of the old ones that
-- are not removed.
apply_patch_fields :
    (p : TaskPatch) (t : Task)
    → ((apply_patch p t).0.status ≡ status_after p t)
      × ((apply_patch p t).0.owner ≡ owner_after p t)
      × ((apply_patch p t).0.id ≡ t.id)
      × ((apply_patch p t).0.content ≡ t.content)
      × ((apply_patch p t).0.order ≡ t.order)
      × ((x : String)
          → elem x (apply_patch p t).0.depends_on ≡ (
              elem x p.add_depends_on || (elem x t.depends_on && not (elem x p.remove_depends_on))))
unfolding apply_patch
apply_patch_fields p t = (
  status-eq p.status t.status,
  owner-eq p.owner t.owner,
  refl,
  refl,
  refl,
  elem-dependencies p.remove_depends_on p.add_depends_on t.depends_on,
)

dependencies-eq :
    (remove add ds : List String)
    → (patch_dependencies remove add ds).0 ≡ (
        let kept = filter (λ d. not (elem d remove)) ds in
        kept ++ filter (λ d. not (elem d kept)) add)
unfolding patch_dependencies
dependencies-eq remove add ds =
    ap (λ kept. kept ++ filter (λ d. not (elem d kept)) add)
      (filter_congr (λ d. not (elem d (filter (λ x. elem x ds) remove))) (λ d. not (elem d remove))
        ds (All-of_elem _ ds (λ d m. ground (arith, m, elem-filter (λ x. elem x ds) d remove))))

-- A patch makes what `task_after` says of a task.
pub apply_patch-task_after : (p : TaskPatch) (t : Task) → (apply_patch p t).0 ≡ task_after p t
unfolding apply_patch
apply_patch-task_after p t = λ i. record t {
  status = status-eq p.status t.status i;
  owner = owner-eq p.owner t.owner i;
  depends_on = dependencies-eq p.remove_depends_on p.add_depends_on t.depends_on i;
}

texts_beq_eq : (a b : List String) → texts_beq a b ≡ true → a ≡ b
texts_beq_eq [] [] h = refl
texts_beq_eq (x ∷ xs) (y ∷ ys) h = cc (
  ap (λ z. z ∷ xs) ((string_eq.equal_iff x y).0 (ground arith)),
  texts_beq_eq xs ys (ground arith),
)
texts_beq_eq [] (y ∷ ys) h = cc
texts_beq_eq (x ∷ xs) [] h = cc

-- Tasks that do not differ are one task.
pub differs_eq : (t u : Task) → differs t u ≡ false → t ≡ u
unfolding differs
differs_eq t u h =
    let (a, b, c, d, e, f) =
      all_hold (t.status == u.status) (optional_beq t.owner u.owner)
        (texts_beq t.depends_on u.depends_on) (t.id == u.id) (t.content == u.content)
        (t.order == u.order) h in
    task_path ((string_eq.equal_iff _ _).0 d) ((string_eq.equal_iff _ _).0 e)
      ((status_eq.equal_iff _ _).0 a) (texts_beq_eq _ _ c) (optional_beq_eq _ _ b)
      ((nat_eq.equal_iff _ _).0 f)
  where
    all_hold :
        (a b c d e f : Bool)
        → not (a && b && c && d && e && f) ≡ false
        → (a ≡ true) × (b ≡ true) × (c ≡ true) × (d ≡ true) × (e ≡ true) × (f ≡ true)
    all_hold a b c d e f h = ground arith

    task_path :
        t.id ≡ u.id
        → t.content ≡ u.content
        → t.status ≡ u.status
        → t.depends_on ≡ u.depends_on
        → t.owner ≡ u.owner
        → t.order ≡ u.order
        → t ≡ u
    task_path a b c d e f = λ i. record {
      id = a i;
      content = b i;
      status = c i;
      depends_on = d i;
      owner = e i;
      order = f i;
    }

-- Dependencies free of repetitions stay so under a patch that adds none twice.
pub apply_patch-Unique :
    (p : TaskPatch) (t : Task)
    → Unique t.depends_on
    → Unique p.add_depends_on
    → Unique (apply_patch p t).0.depends_on
unfolding apply_patch
apply_patch-Unique p t = Unique-dependencies p.remove_depends_on p.add_depends_on t.depends_on
