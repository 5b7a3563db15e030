-- ===== src/Planning/Validation/Checks.antt =====
-- The checks of `validate_plan`, one by one.
use bauhinia_agent.Common.{
  String, ◌≡◌, ◌≢◌, refl, true, false, List, [], ◌∷◌, string_eq, elem, All, Unique, arith, ok,
  require-eq-ok, not, ◌==◌,
}
use bauhinia_agent.Planning.Validation.{check_dependencies}

-- What the loop over a task's dependencies has established when it ends.
abbrev pub Checked : List String → String → List String → List String → Type 0
Checked known id seen ds =
    All (λ x. (x ≢ id) × (elem x known ≡ true)) ds × All (λ x. elem x seen ≡ false) ds × Unique ds

pub not_seen :
    (d : String) (seen ds : List String)
    → All (λ x. elem x (d ∷ seen) ≡ false) ds
    → All (λ x. elem x seen ≡ false) ds × (elem d ds ≡ false)
not_seen d seen [] h = (tt, refl)
not_seen d seen (x ∷ ds) h =
    let rest = not_seen d seen ds h.1 in
    (
      (ground (arith, h.0), rest.0),
      ground (arith, h.0, rest.1, string_eq.equal_iff d x, string_eq.equal_iff x d),
    )

seen_next :
    (d : String) (seen ds : List String)
    → All (λ x. elem x seen ≡ false) ds
    → elem d ds ≡ false
    → All (λ x. elem x (d ∷ seen) ≡ false) ds
seen_next d seen [] h n = tt
seen_next d seen (x ∷ ds) h n = (
  ground (arith, h.0, string_eq.equal_iff d x, string_eq.equal_iff x d),
  seen_next d seen ds h.1 (ground arith),
)

pub check_dependencies_sound :
    (known : List String) (id : String) (seen ds : List String)
    → check_dependencies known id seen ds ≡ ok tt
    → Checked known id seen ds
unfolding check_dependencies
check_dependencies_sound known id seen [] h = (tt, tt, tt)
check_dependencies_sound known id seen (d ∷ ds) h =
    let (other, h1) = require-eq-ok (not (d == id)) _ _ h in
    let (there, h2) = require-eq-ok (elem d known) _ _ h1 in
    let (fresh, h3) = require-eq-ok (not (elem d seen)) _ _ h2 in
    let (all_fit, all_fresh, once) = check_dependencies_sound known id (d ∷ seen) ds h3 in
    let (rest_fresh, not_again) = not_seen d seen ds all_fresh in
    (
      (((λ e. ground (arith, string_eq.equal_iff d id)), there), all_fit),
      (ground arith, rest_fresh),
      (not_again, once),
    )

pub check_dependencies_complete :
    (known : List String) (id : String) (seen ds : List String)
    → Checked known id seen ds
    → check_dependencies known id seen ds ≡ ok tt
unfolding check_dependencies
check_dependencies_complete known id seen [] h = refl
check_dependencies_complete known id seen (d ∷ ds) (fit, fresh, once) =
    let other : not (d == id) ≡ true = ground (arith, string_eq.equal_iff d id, fit.0.0) in
    rw (other, fit.0.1, fresh.0)
      (check_dependencies_complete known id (d ∷ seen) ds
        (fit.1, seen_next d seen ds fresh.1 once.0, once.1))
