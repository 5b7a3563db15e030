-- ===== src/Background/Invariant.antt =====
-- What holds of the manager of agent/background.py between two moves of the threads.
use mathlib.Core.Path.{subst}
use bauhinia_agent.Common.{
  ℕ, ◌≤◌, ◌≡◌, refl, sym, ◌∙◌, Bool, true, false, not, some, List, [], ◌∷◌, ◌++◌, map, elem, All,
  Unique, nat_eq, string_eq, ◌==◌, nat_beq_iff, arith, Bool-cases, inl, inr,
}
use bauhinia_agent.Background.{
  Future, waiting, executing, BackgroundJob, Manager, is_running, is_executing, new, find, change,
  active, executing_jobs,
}

abbrev pub live : Future → Bool
live waiting = true
live executing = true
live _ = false

-- A job is running exactly if nobody has been told, or will be told, of its end; and what the pool
-- has still to run is running. `told` holds the jobs of the notifications so far.
pub record JobOk (told : List ℕ) (m : Manager) (j : BackgroundJob) : Type 0 where
  pub reported : elem j.id (told ++ m.completed) ≡ not (is_running j.status)
  pub live_running : live j.future ≡ true → is_running j.status ≡ true
  pub open_live : m.closed ≡ false → is_running j.status ≡ true → live j.future ≡ true

abbrev pub job_ids : List BackgroundJob → List ℕ
job_ids js = map (λ (j : BackgroundJob). j.id) js

pub record Inv (told : List ℕ) (m : Manager) : Type 0 where
  pub jobs_ok : All (JobOk told m) m.jobs
  pub once : Unique (told ++ m.completed)
  pub known : All (λ id. elem id (job_ids m.jobs) ≡ true) (told ++ m.completed)
  pub distinct : Unique (job_ids m.jobs)
  pub numbered : All (λ id. id ≤ m.counter) (job_ids m.jobs)
  pub active_capped : active m.jobs ≤ m.max_jobs
  pub workers_capped : executing_jobs m.jobs ≤ m.max_workers

pub new-Inv : (max_jobs max_workers : ℕ) → Inv [] (new max_jobs max_workers)
new-Inv a b = record {
  jobs_ok = tt;
  once = tt;
  known = tt;
  distinct = tt;
  numbered = tt;
  active_capped = omega arith;
  workers_capped = omega arith;
}

-- `change` leaves the identifiers.
abbrev pub KeepsId : (BackgroundJob → BackgroundJob) → Type 0
KeepsId f = (j : BackgroundJob) → (f j).id ≡ j.id

pub job_ids-change :
    (id : ℕ) (f : BackgroundJob → BackgroundJob) (js : List BackgroundJob)
    → KeepsId f
    → job_ids (change id f js) ≡ job_ids js
job_ids-change id f [] k = refl
job_ids-change id f (j ∷ js) k = elim (Bool-cases (j.id == id)) [
  | inl e ↦ rw (e, k j, job_ids-change id f js k)
  | inr e ↦ rw (e, job_ids-change id f js k)
]

-- What holds of every job after a change of one.
pub All-change {κ μ} :
    (P : BackgroundJob → Type κ) (Q : BackgroundJob → Type μ) (id : ℕ)
    (f : BackgroundJob → BackgroundJob) (js : List BackgroundJob)
    → ((j : BackgroundJob) → j.id ≡ id → P j → Q (f j))
    → ((j : BackgroundJob) → (j.id == id) ≡ false → P j → Q j)
    → All P js
    → All Q (change id f js)
All-change P Q id f [] here there h = tt
All-change P Q id f (j ∷ js) here there h = elim (Bool-cases (j.id == id)) [
  | inl e ↦ rw e (here j ((nat_beq_iff j.id id).0 e) h.0, All-change P Q id f js here there h.1)
  | inr e ↦ rw e (there j e h.0, All-change P Q id f js here there h.1)
]

-- The job that is found has the identifier, and what holds of all holds of it.
pub find-All {κ} :
    (P : BackgroundJob → Type κ) (id : ℕ) (js : List BackgroundJob) {j : BackgroundJob}
    → find id js ≡ some j
    → All P js
    → (j.id ≡ id) × P j
find-All P id [] h a = cc
find-All P id (k ∷ ks) {j} h a = elim (Bool-cases (k.id == id)) [
  | inl e ↦ let same : k ≡ j = cc (rw e at h) in rw (sym same) ((nat_beq_iff k.id id).0 e, a.0)
  | inr e ↦ find-All P id ks (rw e at h) a.1
]

-- The job that is found is the only one with its identifier.
pub found-All :
    (id : ℕ) (js : List BackgroundJob) {found : BackgroundJob}
    → find id js ≡ some found
    → Unique (job_ids js)
    → All (λ j. j.id ≡ id → j ≡ found) js
found-All id [] h u = tt
found-All id (k ∷ ks) {found} h u = elim (Bool-cases (k.id == id)) [
  | inl e ↦
      let same : k ≡ found = cc (rw e at h) in
      let eq = (nat_beq_iff k.id id).0 e in
      ((λ _. same), others ks (subst (λ i. elem i (job_ids ks) ≡ false) eq u.0))
  | inr e ↦ (
    (λ same. absurd (cc (sym e ∙ (nat_beq_iff k.id id).1 same))),
    found-All id ks (rw e at h) u.1,
  )
]
  where
    others :
        (ks : List BackgroundJob)
        → elem id (job_ids ks) ≡ false
        → All (λ j. j.id ≡ id → j ≡ found) ks
    others [] n = tt
    others (j ∷ js) n = (
      (λ same. absurd (ground (arith, n, same, nat_beq_iff j.id id))),
      others js (ground (arith, n)),
    )

abbrev pub IsQuiet : (BackgroundJob → BackgroundJob) → Type 0
IsQuiet f =
    (j : BackgroundJob)
    → ((is_running (f j).status ≡ true) → is_running j.status ≡ true)
      × ((is_executing (f j).future ≡ true) → is_executing j.future ≡ true)

-- A change that starts nothing leaves at most as many jobs running and executing.
pub active-change :
    (id : ℕ) (f : BackgroundJob → BackgroundJob) (js : List BackgroundJob)
    → IsQuiet f
    → active (change id f js) ≤ active js
active-change id f [] q = omega arith
active-change id f (j ∷ js) q = ground (arith, active-change id f js q, (q j).0)

pub executing_jobs-change :
    (id : ℕ) (f : BackgroundJob → BackgroundJob) (js : List BackgroundJob)
    → IsQuiet f
    → executing_jobs (change id f js) ≤ executing_jobs js
executing_jobs-change id f [] q = omega arith
executing_jobs-change id f (j ∷ js) q = ground (arith, executing_jobs-change id f js q, (q j).1)

pub find-elem :
    (id : ℕ) (js : List BackgroundJob) {j : BackgroundJob}
    → find id js ≡ some j
    → elem id (job_ids js) ≡ true
find-elem id [] h = cc
find-elem id (k ∷ ks) h = elim (Bool-cases (k.id == id)) [
  | inl e ↦ rw e
  | inr e ↦ rw e (find-elem id ks (rw e at h))
]

pub elem-find :
    (id : ℕ) (js : List BackgroundJob)
    → elem id (job_ids js) ≡ true
    → (j : BackgroundJob) × (find id js ≡ some j)
elem-find id [] h = cc
elem-find id (k ∷ ks) h = elim (Bool-cases (k.id == id)) [
  | inl e ↦ (k, rw e)
  | inr e ↦ rw e (elem-find id ks (rw e at h))
]
