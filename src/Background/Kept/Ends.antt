-- ===== src/Background/Kept/Ends.antt =====
-- A job of agent/background.py that ends leaves the invariant.
use mathlib.Core.Path.{subst}
use mathlib.Core.List.{append_assoc}
use bauhinia_agent.Common.{
  ℕ, ◌≡◌, refl, sym, ap, ◌∙◌, true, false, ◌||◌, some, List, [], ◌∷◌, ◌++◌, elem, elem-append, All,
  All-append, All-and, Unique, Unique-append, nat_eq, string_eq, ◌==◌, nat_beq_iff, arith,
}
use bauhinia_agent.Background.{BackgroundJob, Manager, is_running, find, change}
use bauhinia_agent.Background.Invariant.{
  live, JobOk, job_ids, Inv, KeepsId, job_ids-change, All-change, find-All, found-All, IsQuiet,
  active-change, executing_jobs-change, find-elem,
}

All-subst {κ} : (P : ℕ → Type κ) {xs ys : List ℕ} → xs ≡ ys → All P xs → All P ys
All-subst P e h = subst (All P) e h

pub elem-snoc :
    (x id : ℕ) (told queue : List ℕ)
    → elem x (told ++ (queue ++ id ∷ [])) ≡ (elem x (told ++ queue) || id == x)
elem-snoc x id told queue =
    rw
      (
        elem-append x told (queue ++ id ∷ []),
        elem-append x queue (id ∷ []),
        elem-append x told queue,
      )
      (ground arith)

-- A running job ends: it leaves the pool, and joins the queue of those that ended.
pub settle-Inv :
    (told : List ℕ) (m : Manager) (id : ℕ) (f : BackgroundJob → BackgroundJob) (futures : List ℕ)
    (found : BackgroundJob)
    → Inv told m
    → find id m.jobs ≡ some found
    → is_running found.status ≡ true
    → KeepsId f
    → IsQuiet f
    → is_running (f found).status ≡ false
    → live (f found).future ≡ false
    → Inv told (record m {
      jobs = change id f m.jobs;
      futures = futures;
      completed = m.completed ++ id ∷ [];
    })
settle-Inv told m id f futures found i e r k q stopped dead = record {
  jobs_ok =
      All-change (λ j. JobOk told m j × (j.id ≡ id → j ≡ found)) (JobOk told _) id f m.jobs
        (λ j same h. ended_ok j same (h.1 same)) (λ j other h. other_ok j other h.0)
        (All-and _ _ m.jobs i.jobs_ok (found-All id m.jobs e i.distinct));
  once = subst Unique (append_assoc told m.completed (id ∷ [])) (
      Unique-append (told ++ m.completed) (id ∷ []) i.once (refl, tt)
        (not_yet (told ++ m.completed) fresh));
  known = subst (All _) (append_assoc told m.completed (id ∷ [])) (
      All-append _ (told ++ m.completed) (id ∷ []) (rw (job_ids-change id f m.jobs k) i.known)
        (rw (job_ids-change id f m.jobs k) known_found, tt));
  distinct = rw (job_ids-change id f m.jobs k) i.distinct;
  numbered = rw (job_ids-change id f m.jobs k) i.numbered;
  active_capped = omega (arith, active-change id f m.jobs q, i.active_capped);
  workers_capped = omega (arith, executing_jobs-change id f m.jobs q, i.workers_capped);
}
  where
    found_ok : (found.id ≡ id) × JobOk told m found
    found_ok = find-All (JobOk told m) id m.jobs e i.jobs_ok

    fresh : elem id (told ++ m.completed) ≡ false
    fresh = ground (arith, found_ok.1.reported, ap (λ x. elem x (told ++ m.completed)) found_ok.0)

    known_found : elem id (job_ids m.jobs) ≡ true
    known_found = find-elem id m.jobs e

    not_yet : (xs : List ℕ) → elem id xs ≡ false → All (λ x. elem x (id ∷ []) ≡ false) xs
    not_yet [] h = tt
    not_yet (x ∷ xs) h =
        (ground (arith, nat_beq_iff x id, nat_beq_iff id x), not_yet xs (ground arith))

    ended_ok :
        (j : BackgroundJob)
        → j.id ≡ id
        → j ≡ found
        → JobOk told
            (record m {
              jobs = change id f m.jobs;
              futures = futures;
              completed = m.completed ++ id ∷ [];
            })
            (f j)
    ended_ok j same eq = record {
      reported =
          elem-snoc (f j).id id told m.completed
          ∙ ground (
            arith,
            k j ∙ same,
            ap (λ x. is_running (f x).status) eq ∙ stopped,
            nat_beq_iff id (f j).id,
          );
      live_running = λ l. absurd (cc (sym l ∙ ap (λ x. live (f x).future) eq ∙ dead));
      open_live = λ c l. absurd (cc (sym l ∙ ap (λ x. is_running (f x).status) eq ∙ stopped));
    }

    other_ok :
        (j : BackgroundJob)
        → (j.id == id) ≡ false
        → JobOk told m j
        → JobOk told
            (record m {
              jobs = change id f m.jobs;
              futures = futures;
              completed = m.completed ++ id ∷ [];
            })
            j
    other_ok j other h = record {
      reported =
          rw (elem-snoc j.id id told m.completed, h.reported)
            (ground (arith, other, nat_beq_iff j.id id, nat_beq_iff id j.id));
      live_running = h.live_running;
      open_live = h.open_live;
    }
