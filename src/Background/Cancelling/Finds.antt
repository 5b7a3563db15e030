-- ===== src/Background/Cancelling/Finds.antt =====
-- A job of agent/background.py that is stopping is still found, and stopping, after a change of the jobs.
use mathlib.Core.Path.{subst}
use bauhinia_agent.Common.{
  ℕ, ◌≡◌, refl, sym, String, true, false, Option, none, some, List, [], ◌∷◌, ◌++◌, map, nat_eq,
  string_eq, ◌==◌, if◌then◌else◌, Result, ok, err, arith, ◌⊎◌, Bool-cases, inl, inr,
}
use bauhinia_agent.Background.Collect.{drop_waiting, Callbacks, finalize, deliver}
use bauhinia_agent.Background.{
  ToolResult, running, cancelled, executing, BackgroundJob, is_waiting, find, change,
}
use bauhinia_agent.Background.Operations.{begin_first, ended, recorded}
use bauhinia_agent.Background.Collect.{drop_waiting, Callbacks, finalize, deliver}

-- Asked to stop, or stopped.
abbrev pub IsStopping : BackgroundJob → Type 0
IsStopping j = (j.status ≡ cancelled) ⊎ ((j.status ≡ running) × (j.cancel_requested ≡ true))

abbrev pub HasStopping : ℕ → List BackgroundJob → Type 0
HasStopping id js = (j : BackgroundJob) × (find id js ≡ some j) × IsStopping j

abbrev pub Keeps : (BackgroundJob → BackgroundJob) → Type 0
Keeps f = (j : BackgroundJob) → ((f j).id ≡ j.id) × (IsStopping j → IsStopping (f j))

pub find-change :
    (id i : ℕ) (f : BackgroundJob → BackgroundJob) (js : List BackgroundJob)
    → Keeps f
    → HasStopping id js
    → HasStopping id (change i f js)
find-change id i f [] k (j, e, s) = cc
find-change id i f (x ∷ xs) k (j, e, s) = elim (Bool-cases (x.id == id)) [
  | inl here ↦
      let same : x ≡ j = cc (rw here at e) in
      let stopping : IsStopping x = subst IsStopping (sym same) s in
      elim (Bool-cases (x.id == i)) [
        | inl hit ↦ (f x, rw (hit, (k x).0, here), (k x).1 stopping)
        | inr miss ↦ (x, rw (miss, here), stopping)
      ]
  | inr there ↦
      let (y, found, t) = find-change id i f xs k (j, (rw there at e), s) in
      elim (Bool-cases (x.id == i)) [
        | inl hit ↦ (y, rw (hit, (k x).0, there) found, t)
        | inr miss ↦ (y, rw (miss, there) found, t)
      ]
]

pub find-append :
    (id : ℕ) (js ks : List BackgroundJob) → HasStopping id js → HasStopping id (js ++ ks)
find-append id [] ks (j, e, s) = cc
find-append id (x ∷ xs) ks (j, e, s) = elim (Bool-cases (x.id == id)) [
  | inl here ↦ (j, rw here (rw here at e), s)
  | inr there ↦
      let (y, found, t) = find-append id xs ks (j, (rw there at e), s) in (y, rw there found, t)
]

pub find-begin_first :
    (id : ℕ) (js ks : List BackgroundJob)
    → begin_first js ≡ some ks
    → HasStopping id js
    → HasStopping id ks
find-begin_first id [] ks b h = cc
find-begin_first id (x ∷ xs) ks b (j, e, s) = elim (Bool-cases (is_waiting x.future)) [
  | inl w ↦
      let same : (record x { future = executing } ∷ xs) ≡ ks = cc (rw w at b) in
      subst (HasStopping id) same (first (Bool-cases (x.id == id)))
  | inr w ↦ go (begin_first xs) refl (rw w at b) (λ ys f g. find-begin_first id xs ys f g)
]
  where
    first :
        ((x.id == id) ≡ true) ⊎ ((x.id == id) ≡ false)
        → HasStopping id (record x { future = executing } ∷ xs)
    first (inl here) =
        let same : x ≡ j = cc (rw here at e) in
        (record x { future = executing }, rw here, subst IsStopping (sym same) s)
    first (inr there) = (j, rw there (rw there at e), s)

    go :
        (o : Option (List BackgroundJob))
        → begin_first xs ≡ o
        → ◌≡◌ {A = Option (List BackgroundJob)}
            (elim o [ none ↦ none | some ys ↦ some (x ∷ ys) ])
            (some ks)
        → ((ys : List BackgroundJob)
            → begin_first xs ≡ some ys
            → HasStopping id xs
            → HasStopping id ys)
        → HasStopping id ks
    go none f g ih = cc
    go (some ys) f g ih =
        let same : (x ∷ ys) ≡ ks = cc g in
        subst (HasStopping id) same (elim (Bool-cases (x.id == id)) [
          | inl here ↦ (j, rw here (rw here at e), s)
          | inr there ↦
              let (y, found, t) = ih ys f (j, (rw there at e), s) in (y, rw there found, t)
        ])

pub find-drop_waiting :
    (id : ℕ) (js : List BackgroundJob) → HasStopping id js → HasStopping id (map drop_waiting js)
find-drop_waiting id [] (j, e, s) = cc
find-drop_waiting id (x ∷ xs) (j, e, s) = elim (Bool-cases (x.id == id)) [
  | inl here ↦
      let same : x ≡ j = cc (rw here at e) in
      let stopping : IsStopping x = subst IsStopping (sym same) s in
      (drop_waiting x, ground (arith, here), ground (arith, stopping))
  | inr there ↦
      let (y, found, t) = find-drop_waiting id xs (j, (rw there at e), s) in
      (y, ground (arith, there, found), t)
]

pub ended-Keeps : (outcome : Result String ToolResult) → Keeps (ended outcome)
ended-Keeps outcome j = (ground arith, λ s. stops s)
  where
    stops : IsStopping j → IsStopping (ended outcome j)
    stops (inl c) = inl (rw c refl)
    stops (inr (r, asked_before)) = inl (rw (r, asked_before) refl)

finalize-Keeps : (callback : Callbacks) → Keeps (finalize callback)
unfolding finalize
finalize-Keeps callback j = (ground arith, λ s. ground (arith, s))

pub recorded-Keeps :
    (outcome : Result String (Unit {0}))
    → Keeps (λ j. if j.has_on_cancelled then recorded outcome j else j)
recorded-Keeps (ok u) j = (ground arith, λ s. ground (arith, s))
recorded-Keeps (err e) j = (ground arith, λ s. ground (arith, s))

pub deliver-stopping :
    (id : ℕ) (callback : Callbacks) (ids : List ℕ) (jobs : List BackgroundJob)
    → HasStopping id jobs
    → HasStopping id (deliver callback ids jobs).1
unfolding deliver
deliver-stopping id callback [] jobs h = h
deliver-stopping id callback (i ∷ ids) jobs h =
    deliver-stopping id callback ids (change i (finalize callback) jobs)
      (find-change id i (finalize callback) jobs (finalize-Keeps callback) h)
