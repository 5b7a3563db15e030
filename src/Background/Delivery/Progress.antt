-- ===== src/Background/Delivery/Progress.antt =====
-- What the thread pool of agent/background.py does by itself, and when it can go on.
use bauhinia_agent.Common.{
  ◌*◌, ℕ, suc, ◌+◌, ◌≤◌, ◌<◌, ◌≡◌, refl, sym, ap, ◌∙◌, String, true, false, Option, none, some,
  List, [], ◌∷◌, ◌++◌, elem, All, Unique, nat_eq, string_eq, ◌==◌, beq_refl, nat_beq_iff, ltb,
  if◌then◌else◌, Result, err, arith, ◌*◌, Bool-cases, inl, inr,
}
use mathlib.Core.Path.{subst}
use bauhinia_agent.Background.Invariant.{live, JobOk, job_ids, Inv, job_ids-change, find-elem}
use bauhinia_agent.Background.{
  ToolResult, Future, unsubmitted, waiting, executing, withdrawn, done, BackgroundJob, Manager,
  is_running, is_cancelled, is_waiting, is_executing, find, change, remove, active, executing_jobs,
}
use bauhinia_agent.Background.Operations.{begin, begin_first, finish, ended}
use bauhinia_agent.Background.Steps.{Move, begins, finishes, run}
use bauhinia_agent.Background.Kept.Begins.{begin_first-Begun}

-- What the pool does by itself, in any order: threads take functions, and functions return or raise.
pub data Works : Manager → ℕ → Manager → Type 0 where
  rest : {m : Manager} → Works m 0 m
  takes : {m n k : Manager} {count : ℕ} → begin m ≡ some n → Works n count k → Works m (suc count) k
  ends :
      {m n k : Manager} {count : ℕ} (id : ℕ) (outcome : Result String ToolResult)
      → finish id outcome m ≡ some n
      → Works n count k
      → Works m (suc count) k

-- Two moves for each function in the queue, and one for each that is executed.
abbrev pub work : List BackgroundJob → ℕ
work [] = 0
work (j ∷ js) =
    let more = work js in
    if is_waiting j.future then suc (suc more) else if is_executing j.future then suc more else more

work-begin_first : (js ks : List BackgroundJob) → begin_first js ≡ some ks → work ks < work js
work-begin_first [] ks h = cc
work-begin_first (j ∷ js) ks h = elim (Bool-cases (is_waiting j.future)) [
  | inl w ↦
      let e : (record j { future = executing } ∷ js) ≡ ks = cc (rw w at h) in
      rw (sym e, w) (omega arith)
  | inr w ↦ go (begin_first js) refl (rw w at h) (work-begin_first js)
]
  where
    go :
        (o : Option (List BackgroundJob))
        → begin_first js ≡ o
        → ◌≡◌ {A = Option (List BackgroundJob)}
            (elim o [ none ↦ none | some xs ↦ some (j ∷ xs) ])
            (some ks)
        → ((xs : List BackgroundJob) → begin_first js ≡ some xs → work xs < work js)
        → work ks < work (j ∷ js)
    go none e g ih = cc
    go (some xs) e g ih =
        let less = ih xs e in let eq : (j ∷ xs) ≡ ks = cc g in rw (sym eq) (ground (arith, less))

ended-id : (outcome : Result String ToolResult) (k : BackgroundJob) → (ended outcome k).id ≡ k.id
ended-id outcome k = ground arith

ended-done :
    (outcome : Result String ToolResult) (j : BackgroundJob) → (ended outcome j).future ≡ done
ended-done outcome j = ground arith

work-change :
    (id : ℕ) (outcome : Result String ToolResult) (js : List BackgroundJob)
    → work (change id (ended outcome) js) ≤ work js
work-change id outcome [] = omega arith
work-change id outcome (j ∷ js) = elim (Bool-cases (j.id == id)) [
  | inl e ↦ rw (e, ended-done outcome j) (ground (arith, work-change id outcome js))
  | inr e ↦ rw e (ground (arith, work-change id outcome js))
]

work-finish :
    (id : ℕ) (outcome : Result String ToolResult) (js : List BackgroundJob) {j : BackgroundJob}
    → find id js ≡ some j
    → is_executing j.future ≡ true
    → work (change id (ended outcome) js) < work js
work-finish id outcome [] h x = cc
work-finish id outcome (k ∷ ks) {j} h x = elim (Bool-cases (k.id == id)) [
  | inl e ↦
      let same : k ≡ j = cc (rw e at h) in
      let busy : is_executing k.future ≡ true =
        ap (λ (i : BackgroundJob). is_executing i.future) same ∙ x in
      rw (e, ended-done outcome k) (ground (arith, busy, work-change id outcome ks))
  | inr e ↦ rw e (ground (arith, work-finish id outcome ks (rw e at h) x))
]

begin_less : (m n : Manager) → begin m ≡ some n → work n.jobs < work m.jobs
unfolding begin
begin_less m n h = elim (Bool-cases (ltb (executing_jobs m.jobs) m.max_workers)) [
  | inr busy ↦ absurd (cc (rw busy at h))
  | inl free ↦ go (begin_first m.jobs) refl (rw free at h)
]
  where
    go :
        (o : Option (List BackgroundJob))
        → begin_first m.jobs ≡ o
        → ◌≡◌ {A = Option Manager}
            (elim o [ none ↦ none | some js ↦ some (record m { jobs = js }) ])
            (some n)
        → work n.jobs < work m.jobs
    go none e g = cc
    go (some js) e g =
        let same : record m { jobs = js } ≡ n = cc g in
        subst (λ (x : Manager). work x.jobs < work m.jobs) same (work-begin_first m.jobs js e)

abbrev after : ℕ → Result String ToolResult → Manager → BackgroundJob → Manager
after id outcome m j = record m {
  jobs = change id (ended outcome) m.jobs;
  futures = remove id m.futures;
  completed = if is_cancelled j.status then m.completed else m.completed ++ id ∷ [];
}

finish_less :
    (id : ℕ) (outcome : Result String ToolResult) (m n : Manager)
    → finish id outcome m ≡ some n
    → work n.jobs < work m.jobs
unfolding finish
finish_less id outcome m n h = go (find id m.jobs) refl h
  where
    go :
        (o : Option BackgroundJob)
        → find id m.jobs ≡ o
        → ◌≡◌ {A = Option Manager}
            (elim o [
              | none ↦ none
              | some j ↦ if is_executing j.future then some (after id outcome m j) else none
            ])
            (some n)
        → work n.jobs < work m.jobs
    go none e g = cc
    go (some j) e g = elim (Bool-cases (is_executing j.future)) [
      | inr idle ↦ absurd (cc (rw idle at g))
      | inl busy ↦
          let same : after id outcome m j ≡ n = cc (rw busy at g) in
          subst (λ (x : Manager). work x.jobs < work m.jobs) same
            (work-finish id outcome m.jobs e busy)
    ]

-- The moves of the pool are among those of `run`.
pub less_of_Works :
    (m : Manager) (count : ℕ) (n : Manager) → Works m count n → count + work n.jobs ≤ work m.jobs
less_of_Works m _ _ rest = omega arith
less_of_Works m _ n (takes {n = k} {count = c} h w) =
    omega (arith, begin_less m k h, less_of_Works k c n w)
less_of_Works m _ n (ends {n = k} {count = c} id outcome h w) =
    omega (arith, finish_less id outcome m k h, less_of_Works k c n w)

pub moves_of_Works :
    (m : Manager) (count : ℕ) (n : Manager)
    → Works m count n
    → (moves : List Move) × (run m moves ≡ ([], n))
unfolding run
moves_of_Works m _ _ rest = ([], refl)
moves_of_Works m _ n (takes {n = k} {count = c} h w) =
    let (moves, e) = moves_of_Works k c n w in (begins ∷ moves, rw (h, run, e) refl)
moves_of_Works m _ n (ends {n = k} {count = c} id outcome h w) =
    let (moves, e) = moves_of_Works k c n w in (finishes id outcome ∷ moves, rw (h, run, e) refl)

-- The pool's moves keep the list of jobs, and do not shut it down.
pub record Same (m n : Manager) : Type 0 where
  pub same_jobs : job_ids n.jobs ≡ job_ids m.jobs
  pub same_closed : n.closed ≡ m.closed

begin-Same : (m n : Manager) → begin m ≡ some n → Same m n
unfolding begin
begin-Same m n h = elim (Bool-cases (ltb (executing_jobs m.jobs) m.max_workers)) [
  | inr busy ↦ absurd (cc (rw busy at h))
  | inl free ↦ go (begin_first m.jobs) refl (rw free at h)
]
  where
    go :
        (o : Option (List BackgroundJob))
        → begin_first m.jobs ≡ o
        → ◌≡◌ {A = Option Manager}
            (elim o [ none ↦ none | some js ↦ some (record m { jobs = js }) ])
            (some n)
        → Same m n
    go none e g = cc
    go (some js) e g =
        let same : record m { jobs = js } ≡ n = cc g in
        rw (sym same)
          (record { same_jobs = (begin_first-Begun m.jobs js e).same_ids; same_closed = refl })

finish-Same :
    (id : ℕ) (outcome : Result String ToolResult) (m n : Manager)
    → finish id outcome m ≡ some n
    → Same m n
unfolding finish
finish-Same id outcome m n h = go (find id m.jobs) refl h
  where
    go :
        (o : Option BackgroundJob)
        → find id m.jobs ≡ o
        → ◌≡◌ {A = Option Manager}
            (elim o [
              | none ↦ none
              | some j ↦ if is_executing j.future then some (after id outcome m j) else none
            ])
            (some n)
        → Same m n
    go none e g = cc
    go (some j) e g = elim (Bool-cases (is_executing j.future)) [
      | inr idle ↦ absurd (cc (rw idle at g))
      | inl busy ↦
          let same : after id outcome m j ≡ n = cc (rw busy at g) in
          rw (sym same) (record {
            same_jobs = job_ids-change id (ended outcome) m.jobs (λ k. ended-id outcome k);
            same_closed = refl;
          })
    ]

pub Same-of_Works : (m : Manager) (count : ℕ) (n : Manager) → Works m count n → Same m n
Same-of_Works m _ _ rest = record { same_jobs = refl; same_closed = refl }
Same-of_Works m _ n (takes {n = k} {count = c} h w) =
    then_same (begin-Same m k h) (Same-of_Works k c n w)
  where
    then_same : Same m k → Same k n → Same m n
    then_same a b = record {
      same_jobs = b.same_jobs ∙ a.same_jobs;
      same_closed = b.same_closed ∙ a.same_closed;
    }
Same-of_Works m _ n (ends {n = k} {count = c} id outcome h w) =
    let a = finish-Same id outcome m k h in
    let b = Same-of_Works k c n w in
    record { same_jobs = b.same_jobs ∙ a.same_jobs; same_closed = b.same_closed ∙ a.same_closed }

-- While a job runs the pool can move.
first_executing :
    (js : List BackgroundJob)
    → Unique (job_ids js)
    → 0 < executing_jobs js
    → (j : BackgroundJob) × (find j.id js ≡ some j) × (is_executing j.future ≡ true)
first_executing [] u h = absurd (omega (arith, h))
first_executing (j ∷ js) u h = elim (Bool-cases (is_executing j.future)) [
  | inl busy ↦ (j, rw (beq_refl j.id), busy)
  | inr idle ↦
      let (k, found, busy) = first_executing js u.1 (rw idle at h) in
      let other : (j.id == k.id) ≡ false = ground (
        arith,
        u.0,
        find-elem k.id js found,
        nat_beq_iff j.id k.id,
        ap (λ (x : ℕ). elem x (job_ids js)),
      ) in
      (k, rw other found, busy)
]

dead : (u : Future) → is_waiting u ≡ false → is_executing u ≡ false → live u ≡ false
dead waiting w x = cc
dead executing w x = cc
dead unsubmitted w x = refl
dead withdrawn w x = refl
dead done w x = refl

can_begin :
    (told : List ℕ) (m : Manager) (js : List BackgroundJob)
    → All (JobOk told m) js
    → m.closed ≡ false
    → executing_jobs js ≡ 0
    → 0 < active js
    → (ks : List BackgroundJob) × (begin_first js ≡ some ks)
can_begin told m [] h c idle on = absurd (omega (arith, on))
can_begin told m (j ∷ js) h c idle on = elim (Bool-cases (is_waiting j.future)) [
  | inl w ↦ (record j { future = executing } ∷ js, rw w)
  | inr w ↦
      let idle_here : is_executing j.future ≡ false = ground (arith, idle) in
      let stopped : is_running j.status ≡ false =
        ground (arith, h.0.open_live c, dead j.future w idle_here) in
      let (ks, e) =
        can_begin told m js h.1 c (ground (arith, idle)) (ground (arith, on, stopped)) in
      (j ∷ ks, rw (w, e))
]

pub progress :
    (told : List ℕ) (m : Manager)
    → Inv told m
    → m.closed ≡ false
    → 0 < m.max_workers
    → 0 < active m.jobs
    → (n : Manager) × Works m 1 n
unfolding begin finish
progress told m i c workers on = elim (Bool-cases (executing_jobs m.jobs == 0)) [
  | inl idle ↦
      let none_busy : executing_jobs m.jobs ≡ 0 = (nat_beq_iff (executing_jobs m.jobs) 0).0 idle in
      let (ks, e) = can_begin told m m.jobs i.jobs_ok c none_busy on in
      let free : ltb (executing_jobs m.jobs) m.max_workers ≡ true =
        ground (arith, none_busy, workers) in
      (record m { jobs = ks }, takes (rw (begin, free, e) refl) rest)
  | inr busy ↦
      let (j, found, b) = first_executing m.jobs i.distinct (ground (arith, busy)) in
      let outcome : Result String ToolResult = err "" in
      (after j.id outcome m j, ends j.id outcome (rw (finish, found, b) refl) rest)
]

pub work_bound :
    (told : List ℕ) (m : Manager) (js : List BackgroundJob)
    → All (JobOk told m) js
    → work js ≤ 2 * active js
work_bound told m [] h = omega arith
work_bound told m (j ∷ js) h =
    ground (arith, work_bound told m js h.1, h.0.live_running, dead j.future)

pub none_active :
    (js : List BackgroundJob) → active js ≡ 0 → All (λ j. is_running j.status ≡ false) js
none_active [] h = tt
none_active (j ∷ js) h = (ground (arith, h), none_active js (ground (arith, h)))
