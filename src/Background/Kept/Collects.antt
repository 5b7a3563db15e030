-- ===== src/Background/Kept/Collects.antt =====
-- Collecting the ended jobs of agent/background.py hands each out once, and keeps the invariant.
use bauhinia_agent.Common.{
  All-right, filter-All, All-pure, All-of_elem, ℕ, ◌≡◌, refl, sym, ap, ◌∙◌, String, Bool, true, not,
  ◌||◌, Option, List, [], ◌∷◌, ◌++◌, filter, elem, elem-append, elem-filter, All, All-map,
  All-filter, All-elem, Unique, Unique-append, Unique-filter, nat_eq, string_eq, ◌==◌, arith,
}
use mathlib.Core.Path.{subst}
use mathlib.Core.List.{append-nil, append_assoc}
use bauhinia_agent.Background.{BackgroundJob, BackgroundNotification, Manager, change}
use bauhinia_agent.Background.Collect.{
  Callbacks, finalize, deliver, wanted, collect_completed, take_completed, tell_next, chosen,
  kept_back,
}
use bauhinia_agent.Background.Steps.{told_ids}
use bauhinia_agent.Background.Invariant.{JobOk, job_ids, Inv, job_ids-change, find-All, elem-find}
use bauhinia_agent.Background.Kept.Changes.{IsMild, change-Inv}
use bauhinia_agent.Background.Report.{notification_for}

elem-split :
    (p : ℕ → Bool) (x : ℕ) (xs : List ℕ)
    → elem x (filter p xs ++ filter (λ y. not (p y)) xs) ≡ elem x xs
elem-split p x xs =
    elem-append x (filter p xs) (filter (λ y. not (p y)) xs)
    ∙ ground (arith, elem-filter p x xs, elem-filter (λ y. not (p y)) x xs)

Unique-split :
    (p : ℕ → Bool) (xs : List ℕ) → Unique xs → Unique (filter p xs ++ filter (λ y. not (p y)) xs)
Unique-split p xs u =
    Unique-append (filter p xs) (filter (λ y. not (p y)) xs) (Unique-filter p xs u)
      (Unique-filter (λ y. not (p y)) xs u)
      (All-map _ _ (filter p xs) (λ x h. ground (arith, h, elem-filter (λ y. not (p y)) x xs))
        (filter-All p xs))

-- To move the chosen items to the end of what stands before keeps the items and their number.
pub elem-regroup :
    (p : ℕ → Bool) (x : ℕ) (told xs : List ℕ)
    → elem x ((told ++ filter p xs) ++ filter (λ y. not (p y)) xs) ≡ elem x (told ++ xs)
elem-regroup p x [] xs = elem-split p x xs
elem-regroup p x (t ∷ told) xs = ap (λ b. t == x || b) (elem-regroup p x told xs)

Unique-regroup :
    (p : ℕ → Bool) (told xs : List ℕ)
    → Unique (told ++ xs)
    → Unique ((told ++ filter p xs) ++ filter (λ y. not (p y)) xs)
Unique-regroup p [] xs u = Unique-split p xs u
Unique-regroup p (t ∷ told) xs u = (elem-regroup p t told xs ∙ u.0, Unique-regroup p told xs u.1)

handed-Inv :
    (told : List ℕ) (m : Manager) (p : ℕ → Bool)
    → Inv told m
    → Inv
        (told ++ filter p m.completed)
        (record m { completed = filter (λ x. not (p x)) m.completed })
handed-Inv told m p i = record {
  jobs_ok =
      All-map (JobOk told m) (JobOk _ _) m.jobs
        (λ j h. record {
          reported = elem-regroup p j.id told m.completed ∙ h.reported;
          live_running = h.live_running;
          open_live = h.open_live;
        })
        i.jobs_ok;
  once = Unique-regroup p told m.completed i.once;
  known =
      All-of_elem (λ x. elem x (job_ids m.jobs) ≡ true)
        ((told ++ filter p m.completed) ++ filter (λ x. not (p x)) m.completed)
        (λ x h.
          All-elem (λ y. elem y (job_ids m.jobs) ≡ true) x (told ++ m.completed) i.known
            (sym (elem-regroup p x told m.completed) ∙ h));
  distinct = i.distinct;
  numbered = i.numbered;
  active_capped = i.active_capped;
  workers_capped = i.workers_capped;
}

finalize-IsMild : (callback : Callbacks) → IsMild (finalize callback)
unfolding finalize
finalize-IsMild callback j = ground arith

deliver-Inv :
    (told : List ℕ) (m : Manager) (callback : Callbacks) (ids : List ℕ)
    → Inv told m
    → Inv told (record m { jobs = (deliver callback ids m.jobs).1 })
unfolding deliver
deliver-Inv told m callback [] i = i
deliver-Inv told m callback (id ∷ ids) i =
    deliver-Inv told (record m { jobs = change id (finalize callback) m.jobs }) callback ids
      (change-Inv told m id (finalize callback) i (finalize-IsMild callback))

-- There is a notification for each job taken, in their order.
pub told_ids-deliver :
    (callback : Callbacks) (ids : List ℕ) (jobs : List BackgroundJob)
    → All (λ id. elem id (job_ids jobs) ≡ true) ids
    → told_ids (deliver callback ids jobs).0 ≡ ids
unfolding deliver notification_for
told_ids-deliver callback [] jobs h = refl
told_ids-deliver callback (id ∷ ids) jobs h =
    let same = job_ids-change id (finalize callback) jobs (λ j. (finalize-IsMild callback j).0) in
    let (j, found) =
      elem-find id (change id (finalize callback) jobs)
        (ap (λ (xs : List ℕ). elem id xs) same ∙ h.0) in
    let named : j.id ≡ id =
      (find-All (λ _. Unit {0}) id (change id (finalize callback) jobs) found
        (All-pure _ _ (λ _. tt))).0 in
    rw (deliver, found, named)
      (ap (λ (r : List ℕ). id ∷ r)
        (told_ids-deliver callback ids (change id (finalize callback) jobs) (rw same (h.1))))

-- Of every job that is queued for the session, and of no other, a collection tells.
pub told_ids-collect_completed :
    (told : List ℕ) (m : Manager) (session : Option String) (callback : Callbacks)
    → Inv told m
    → told_ids (collect_completed session callback m).0 ≡ chosen session m
unfolding collect_completed
told_ids-collect_completed told m session callback i =
    told_ids-deliver callback (chosen session m) m.jobs (
      All-filter _ (wanted session m.jobs) m.completed
        (All-right (λ id. elem id (job_ids m.jobs) ≡ true) told m.completed i.known))

-- What a thread has still to tell of is no part of the invariant.
collecting-Inv :
    (told : List ℕ) (m : Manager) (ids : List ℕ)
    → Inv told m
    → Inv told (record m { collecting = ids })
collecting-Inv told m ids i = record {
  jobs_ok =
      All-map (JobOk told m) (JobOk told (record m { collecting = ids })) m.jobs
        (λ j h. record {
          reported = h.reported;
          live_running = h.live_running;
          open_live = h.open_live;
        })
        i.jobs_ok;
  once = i.once;
  known = i.known;
  distinct = i.distinct;
  numbered = i.numbered;
  active_capped = i.active_capped;
  workers_capped = i.workers_capped;
}

-- The jobs that are taken from the queue leave it for the thread.
pub take-Inv :
    (told : List ℕ) (m : Manager) (session : Option String)
    → Inv (told ++ m.collecting) m
    → Inv (told ++ (take_completed session m).collecting) (take_completed session m)
unfolding take_completed
take-Inv told m session i =
    subst (λ ids. Inv ids (take_completed session m))
      (append_assoc told m.collecting (chosen session m))
      (collecting-Inv _ (record m { completed = kept_back session m })
        (m.collecting ++ chosen session m)
        (handed-Inv (told ++ m.collecting) m (wanted session m.jobs) i))

pub tell-Inv :
    (told : List ℕ) (m : Manager) (callback : Callbacks)
    → Inv (told ++ m.collecting) m
    → Inv
        ((told ++ told_ids (tell_next callback m).0) ++ (tell_next callback m).1.collecting)
        (tell_next callback m).1
unfolding tell_next
tell-Inv told m callback i = go m.collecting refl i
  where
    go :
        (ids : List ℕ)
        → m.collecting ≡ ids
        → Inv (told ++ ids) m
        → let out : List BackgroundNotification × Manager = elim ids [
          | [] ↦ ([], m)
          | id ∷ ids ↦
              let (notifications, jobs) = deliver callback (id ∷ []) m.jobs in
              (notifications, record m { jobs = jobs; collecting = ids })
        ] in
          Inv ((told ++ told_ids out.0) ++ out.1.collecting) out.1
    go [] e k =
        subst (λ ids. Inv ids m)
          (ap (λ (c : List ℕ). told ++ c) (sym e)
            ∙ ap (λ (t : List ℕ). t ++ m.collecting) (sym (append-nil told)))
          k
    go (id ∷ ids) e k =
        let here : elem id (job_ids m.jobs) ≡ true =
          (All-right (λ x. elem x (job_ids m.jobs) ≡ true) told (id ∷ ids ++ m.completed)
            (rw (append_assoc told (id ∷ ids) m.completed) at k.known)).0 in
        let jobs = (deliver callback (id ∷ []) m.jobs).1 in
        subst
          (λ (xs : List ℕ). Inv ((told ++ xs) ++ ids) (record m { jobs = jobs; collecting = ids }))
          (sym (told_ids-deliver callback (id ∷ []) m.jobs (here, tt)))
          (subst (λ (xs : List ℕ). Inv xs (record m { jobs = jobs; collecting = ids }))
            (sym (append_assoc told (id ∷ []) ids))
            (collecting-Inv _ (record m { jobs = jobs }) ids
              (deliver-Inv (told ++ id ∷ ids) m callback (id ∷ []) k)))
