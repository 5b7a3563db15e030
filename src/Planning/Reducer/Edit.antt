-- ===== src/Planning/Reducer/Edit.antt =====
-- The replacements that the loops of `update_tasks` and `revise_tasks` collect.
use bauhinia_agent.Common.{
  ◌&&◌, String, ◌≡◌, refl, Bool, true, false, none, List, [], ◌∷◌, ◌++◌, ◌==◌, string_eq,
  if◌then◌else◌, Bool-cases, inl, inr,
}
use bauhinia_agent.Common.Dict.{Dict, get, put, get-put}
use bauhinia_agent.Planning.Values.{Task}
use bauhinia_agent.Planning.Reducer.{Change, Edits, record_if, replacement}

-- The replacement of a task, after one more.
replacement-put :
    (k : String) (u t : Task) (replacements : Dict Task)
    → replacement (put k u replacements) t ≡ (if k == t.id then u else replacement replacements t)
unfolding replacement
replacement-put k u t replacements = elim (Bool-cases (k == t.id)) [
  | inl same ↦ rw (get-put k t.id u replacements, replacement, same)
  | inr other ↦ rw (get-put k t.id u replacements, replacement, other)
]

pub replacement-none :
    (t : Task) (replacements : Dict Task)
    → get t.id replacements ≡ none
    → replacement replacements t ≡ t
unfolding replacement
replacement-none t replacements h = rw (h, replacement)

module _ (k : String) (u : Task) (c : Change) (edits : Edits) where
  pub replacement-edit :
      (b : Bool) (t : Task)
      → replacement (record_if b k u c edits).0 t
        ≡ (if b && k == t.id then u else replacement edits.0 t)
  replacement-edit true t = replacement-put k u t edits.0
  replacement-edit false t = refl

  -- Another id stays without a replacement.
  pub fresh-edit :
      (b : Bool) (x : String)
      → (k == x) ≡ false
      → get x edits.0 ≡ none
      → get x (record_if b k u c edits).0 ≡ none
  fresh-edit true x other h = rw (get-put k x u edits.0) (rw other h)
  fresh-edit false x other h = h

  some_change : (cs : List Change) → ¬ (cs ++ c ∷ [] ≡ [])
  some_change [] e = cc
  some_change (x ∷ cs) e = cc

  -- As long as no change is reported no task is replaced.
  pub unreported-edit :
      (b : Bool)
      → (edits.1 ≡ [] → edits.0 ≡ [])
      → (record_if b k u c edits).1 ≡ []
      → (record_if b k u c edits).0 ≡ []
  unreported-edit true keep e = absurd (some_change edits.1 e)
  unreported-edit false keep e = keep e
