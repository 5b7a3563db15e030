-- ===== src/Artifacts/Registry/Reviews.antt =====
-- The reviews of evolution/candidate_artifacts.py: a candidate is accepted by its latest review.
use bauhinia_agent.Common.Dict.{Dict, get, put, get-put, insert_all, of_list}
use bauhinia_agent.Artifacts.Registry.{review_of, reviews_in, is_accepted}
use text.Mathlib.TextEquality.{eq_iff}
use bauhinia_agent.Common.{
  ◌≡◌, refl, sym, ap, ◌∙◌, ◌⊎◌, inl, inr, String, Bool, true, false, Option, none, some, [], ◌∷◌,
  ◌++◌, All, ◌==◌, string_eq, if◌then◌else◌, Bool-cases,
}
use bauhinia_agent.Promotion.{Review, EvoEvent, Log}

abbrev concerns : Option Review → String → Bool
concerns none id = false
concerns (some r) id = r.candidate_id == id

-- The review is the latest one of the candidate.
pub record IsLatest (events : Log) (id : String) (r : Review) : Type 0 where
  pub before : Log
  pub event : EvoEvent
  pub after : Log
  pub is_split : events ≡ before ++ event ∷ after
  pub is_review : review_of event.payload ≡ some r
  pub is_own : r.candidate_id ≡ id
  pub no_later : All (λ e. concerns (review_of e.payload) id ≡ false) after

later :
    {events : Log} {id : String} {r : Review} (e : EvoEvent)
    → IsLatest events id r
    → IsLatest (e ∷ events) id r
later e l = record {
  before = e ∷ l.before;
  event = l.event;
  after = l.after;
  is_split = ap (λ (es : Log). e ∷ es) l.is_split;
  is_review = l.is_review;
  is_own = l.is_own;
  no_later = l.no_later;
}

some_inj : {x y : Review} → ◌≡◌ {A = Option Review} (some x) (some y) → x ≡ y
some_inj h = cc

-- What the dictionary of reviews holds is the latest review, or what it held before them.
get-reviews :
    (id : String) (d : Dict Review) (events : Log) (r : Review)
    → get id (insert_all d (reviews_in events)) ≡ some r
    → IsLatest events id r
      ⊎ ((get id d ≡ some r) × All (λ e. concerns (review_of e.payload) id ≡ false) events)
unfolding insert_all
get-reviews id d [] r h = inr (h, tt)
get-reviews id d (e ∷ events) r h = go (λ d. get-reviews id d events r) (review_of e.payload) refl h
  where
    go :
        ((d : Dict Review)
          → get id (insert_all d (reviews_in events)) ≡ some r
          → IsLatest events id r
            ⊎ ((get id d ≡ some r) × All (λ e. concerns (review_of e.payload) id ≡ false) events))
        → (o : Option Review) → review_of e.payload ≡ o
        → get id (
            insert_all d (elim o [
              | none ↦ reviews_in events
              | some w ↦ (w.candidate_id, w) ∷ reviews_in events
            ]))
          ≡ some r
        → IsLatest (e ∷ events) id r
          ⊎ ((get id d ≡ some r)
              × All (λ x. concerns (review_of x.payload) id ≡ false) (e ∷ events))
    go ih none is_none k = elim (ih d k) [
      | inl found ↦ inl (later e found)
      | inr (old, quiet) ↦ inr (old, (ap (λ o. concerns o id) is_none, quiet))
    ]
    go ih (some w) is_w k = elim (ih (put w.candidate_id w d) k) [
      | inl found ↦ inl (later e found)
      | inr (old, quiet) ↦ elim (Bool-cases (w.candidate_id == id)) [
        | inl own ↦
            let same : w ≡ r = some_inj (
              ap (λ b. if b then some w else get id d) (sym own)
              ∙ sym (get-put w.candidate_id id w d)
              ∙ old) in
            inl (record {
              before = [];
              event = e;
              after = events;
              is_split = refl;
              is_review = is_w ∙ ap some same;
              is_own =
                  ap (λ (x : Review). x.candidate_id) (sym same) ∙ (eq_iff w.candidate_id id).0 own;
              no_later = quiet;
            })
        | inr differs ↦ inr (
          ap (λ b. if b then some w else get id d) (sym differs)
              ∙ sym (get-put w.candidate_id id w d)
              ∙ old,
          (ap (λ o. concerns o id) is_w ∙ differs, quiet),
        )
      ]
    ]

-- The latest review of the candidate accepts it.
abbrev pub AcceptedBy : Log → String → Type 0
AcceptedBy events id = (r : Review) × IsLatest events id r × (r.decision ≡ "accept")

pub is_accepted-AcceptedBy :
    (events : Log) (id : String) → is_accepted events id ≡ true → AcceptedBy events id
unfolding is_accepted of_list get
is_accepted-AcceptedBy events id h = go (get id (of_list (reviews_in events))) refl h
  where
    go :
        (o : Option Review)
        → get id (of_list (reviews_in events)) ≡ o
        → (elim o [ none ↦ false | some r ↦ r.decision == "accept" ]) ≡ true
        → AcceptedBy events id
    go none found k = cc
    go (some r) found k = elim (get-reviews id [] events r found) [
      | inl l ↦ (r, l, (eq_iff r.decision "accept").0 k)
      | inr (old, quiet) ↦ cc old
    ]
