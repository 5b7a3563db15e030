-- ===== src/Artifacts/Registry/Sources.antt =====
-- The sources of an artifact in evolution/candidate_artifacts.py, and their roles.
use bauhinia_agent.Artifacts.{
  or_sources, confidence_of, candidate, content_of, lifecycle_text, roles_incomplete, ℕ, require,
  source_ids, Source, Raises, Draft, Texts, repeats, check_roles, artifact_payload,
}
use bauhinia_agent.Common.{
  elem-append, ◌≡◌, refl, sym, ap, ◌∙◌, inl, inr, String, Bool, true, false, not, ◌&&◌, ◌||◌,
  Option, none, some, List, [], ◌∷◌, ◌++◌, elem, All, ok, string_eq, if◌then◌else◌, >>=-eq-ok,
  require-eq-ok, Bool-cases, arith, is_empty, filter, any, all, all_iff, All-elem,
}
use bauhinia_agent.Common.Dict.{get-All, All-insert_all, Dict, get, of_list}
use bauhinia_agent.Artifacts.Registry.{
  experience_of, picked, source_of, is_known, source_candidates, candidates_in,
}
use mathlib.Core.Path.{subst}
use bauhinia_agent.Promotion.{Artifact, Log}

-- A candidate stands under its identifier.
abbrev IsOwn : String × Source → Type 0
IsOwn (id, s) = s.candidate_id ≡ id

candidates_in-IsOwn : (events : Log) → All IsOwn (candidates_in events)
candidates_in-IsOwn [] = tt
candidates_in-IsOwn (e ∷ events) =
    go (source_of e e.candidate_id (experience_of e.payload)) (candidates_in-IsOwn events)
  where
    go :
        (o : Option Source)
        → All IsOwn (candidates_in events)
        → All IsOwn (elim o [
          | none ↦ candidates_in events
          | some s ↦ (s.candidate_id, s) ∷ candidates_in events
        ])
    go none ih = ih
    go (some s) ih = (refl, ih)

-- The candidates that are picked are those of the identifiers, if none is missing.
source_ids-picked :
    (d : Dict Source) (ids : List String)
    → All IsOwn d
    → is_empty (filter (λ id. not (is_known d id)) ids) ≡ true
    → source_ids (picked d ids) ≡ ids
source_ids-picked d [] own h = refl
source_ids-picked d (id ∷ ids) own h = go (get id d) refl h (source_ids-picked d ids own)
  where
    go :
        (o : Option Source)
        → get id d ≡ o
        → is_empty (
            if not (elim o [ none ↦ false | some s ↦ true ])
            then id ∷ filter (λ i. not (is_known d i)) ids
            else filter (λ i. not (is_known d i)) ids)
          ≡ true
        → (is_empty (filter (λ i. not (is_known d i)) ids) ≡ true → source_ids (picked d ids) ≡ ids)
        → source_ids (elim o [ none ↦ picked d ids | some s ↦ s ∷ picked d ids ]) ≡ id ∷ ids
    go none found k ih = cc
    go (some s) found k ih =
        ap (λ i. i ∷ source_ids (picked d ids)) (get-All IsOwn id d s own found)
        ∙ ap (λ (is : List String). id ∷ is) (ih k)

pub source_candidates-ids :
    (events : Log) (ids : List String) (sources : List Source)
    → source_candidates events ids ≡ ok sources
    → source_ids sources ≡ ids
unfolding source_candidates of_list
source_candidates-ids events ids sources h =
    let d = of_list (candidates_in events) in
    let (some_ids, h1) = require-eq-ok (not (is_empty ids)) _ _ h in
    let (once, h2) = require-eq-ok (not (repeats ids)) _ _ h1 in
    let (known, h3) = require-eq-ok (is_empty (filter (λ id. not (is_known d id)) ids)) _ _ h2 in
    ap source_ids (sources_ok_inj (sym h3))
    ∙ source_ids-picked d ids
        (All-insert_all IsOwn [] (candidates_in events) tt (candidates_in-IsOwn events)) known
  where
    sources_ok_inj : {x y : List Source} → ◌≡◌ {A = Raises (List Source)} (ok x) (ok y) → x ≡ y
    sources_ok_inj h = cc

-- Every source is a support or a counterexample, and none is both.
abbrev pub AreRoles : (sources support counterexamples : List String) → Type 0
AreRoles sources support counterexamples =
    ((id : String) → elem id sources ≡ (elem id support || elem id counterexamples))
    × All (λ id. elem id counterexamples ≡ false) support

check_roles-AreRoles :
    (sources support counterexamples : List String)
    → check_roles sources support counterexamples ≡ ok tt
    → AreRoles sources support counterexamples
unfolding check_roles
check_roles-AreRoles sources support counterexamples h =
    let (some_support, h1) = require-eq-ok (not (is_empty support)) _ _ h in
    let (once, h2) = require-eq-ok (not (repeats support || repeats counterexamples)) _ _ h1 in
    let (apart, h3) = require-eq-ok (not (any (λ x. elem x counterexamples) support)) _ _ h2 in
    let both =
      all (λ x. elem x sources) (support ++ counterexamples)
      && all (λ x. elem x (support ++ counterexamples)) sources in
    let whole : both ≡ true = passed both h3 in
    let inside =
      (all_iff (λ x. elem x sources) (support ++ counterexamples)).0 (ground (arith, whole)) in
    let covered =
      (all_iff (λ x. elem x (support ++ counterexamples)) sources).0 (ground (arith, whole)) in
    (
      λ id. elim (Bool-cases (elem id sources)) [
        | inl there ↦
            there
            ∙ sym (All-elem _ id sources covered there)
            ∙ elem-append id support counterexamples
        | inr missing ↦ elim (Bool-cases (elem id (support ++ counterexamples))) [
          | inl there ↦ cc (sym missing ∙ All-elem _ id (support ++ counterexamples) inside there)
          | inr absent ↦ missing ∙ sym absent ∙ elem-append id support counterexamples
        ]
      ],
      none_of support apart,
    )
  where
    passed : (b : Bool) → require b roles_incomplete ≡ ok tt → b ≡ true
    passed true k = refl
    passed false k = cc

    none_of :
        (xs : List String)
        → not (any (λ x. elem x counterexamples) xs) ≡ true
        → All (λ x. elem x counterexamples ≡ false) xs
    none_of [] k = tt
    none_of (x ∷ xs) k = (ground (arith, k), none_of xs (ground (arith, k)))

-- What `artifact_payload` makes.
pub record Made (sources : List Source) (lineage_id : String) (version : ℕ) (a : Artifact)
    : Type 0 where
  pub lineage : a.lineage_id ≡ lineage_id
  pub numbered : a.artifact_version ≡ version
  pub ids : a.source_candidate_ids ≡ source_ids sources
  pub roles : AreRoles a.source_candidate_ids a.support_candidate_ids a.counterexample_candidate_ids
  pub begins : a.lifecycle_state ≡ lifecycle_text candidate

pub artifact_payload-Made :
    (texts : Texts) (draft : Draft) (sources : List Source) (lineage_id : String) (version : ℕ)
    (a : Artifact)
    → artifact_payload texts draft sources lineage_id version ≡ ok a
    → Made sources lineage_id version a
unfolding artifact_payload
artifact_payload-Made texts draft sources lineage_id version a h =
    let (content, clean, h1) = >>=-eq-ok (content_of texts draft) _ h in
    let (confidence, sure, h2) = >>=-eq-ok (confidence_of draft.confidence) _ h1 in
    let ids = source_ids sources in
    let (u, split, h3) =
      >>=-eq-ok
        (check_roles ids (or_sources draft.support_candidate_ids ids)
          draft.counterexample_candidate_ids)
        _ h2 in
    subst (Made sources lineage_id version) (artifact_ok_inj h3) (record {
      lineage = refl;
      numbered = refl;
      ids = refl;
      roles = check_roles-AreRoles _ _ _ split;
      begins = refl;
    })
  where
    artifact_ok_inj : {x y : Artifact} → ◌≡◌ {A = Raises Artifact} (ok x) (ok y) → x ≡ y
    artifact_ok_inj h = cc
