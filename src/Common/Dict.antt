-- ===== src/Common/Dict.antt =====
-- Python's `dict` with text keys: an association list in insertion order.
use Prim.Native.Nat.{◌+◌, ◌≤◌}
use Prim.Native.String.{String}
use mathlib.Core.Path.{subst, ◌≡◌, refl, ap, sym, ◌∙◌}
use mathlib.Core.Logic.{inl, inr, ◌↔◌}
use mathlib.Core.Bool.{false}
use mathlib.Core.Option.{Option, none, some}
use mathlib.Core.List.{List, [], ◌∷◌, ◌++◌, append-nil, append_assoc}
use native.Mathlib.Omega.{arith}
use text.Mathlib.TextEquality.{eq_iff}
use bauhinia_agent.Common.Tests.{Bool-cases, ◌==◌, string_eq, if◌then◌else◌}
use bauhinia_agent.Common.Lists.{length, elem, elem-append, Unique, All}

abbrev pub Dict {ℓ} : Type ℓ → Type ℓ
Dict V = List (String × V)

module _ {ℓ} {V : Type ℓ} where
  unfoldable pub get : String → Dict V → Option V
  get k [] = none
  get k ((j, v) ∷ d) = if j == k then some v else get k d

  -- `d[k] = v` keeps the place of a key that is there.
  unfoldable pub put : String → V → Dict V → Dict V
  put k v [] = (k, v) ∷ []
  put k v ((j, w) ∷ d) = if j == k then (j, v) ∷ d else (j, w) ∷ put k v d

  abbrev pub keys : Dict V → List String
  keys [] = []
  keys ((k, v) ∷ d) = k ∷ keys d

  unfoldable pub insert_all : Dict V → List (String × V) → Dict V
  unfolding put
  insert_all d [] = d
  insert_all d ((k, v) ∷ xs) = insert_all (put k v d) xs

  -- `{k: v for k, v in xs}`: of two items with one key the later is kept.
  unfoldable pub of_list : List (String × V) → Dict V
  unfolding insert_all
  of_list xs = insert_all [] xs

  pub get-put :
      (k j : String) (v : V) (d : Dict V) → get j (put k v d) ≡ (if k == j then some v else get j d)
  unfolding get put
  get-put k j v [] = refl
  get-put k j v ((i, w) ∷ d) = ground (arith, eq_iff k j, eq_iff i k, eq_iff i j, get-put k j v d)

  put_new :
      (k : String) (v : V) (d : Dict V) → elem k (keys d) ≡ false → put k v d ≡ d ++ (k, v) ∷ []
  unfolding put
  put_new k v [] h = refl
  put_new k v ((j, w) ∷ d) h = ground (arith, put_new k v d)

  All-put {κ} :
      (P : String × V → Type κ) (k : String) (v : V) (d : Dict V)
      → P (k, v)
      → All P d
      → All P (put k v d)
  unfolding put
  All-put P k v [] p h = (p, tt)
  All-put P k v ((j, w) ∷ d) p h = elim (Bool-cases (j == k)) [
    | inl same ↦ rw same (subst (λ i. P (i, v)) (sym ((eq_iff j k).0 same)) p, h.1)
    | inr differs ↦ rw differs (h.0, All-put P k v d p h.1)
  ]

  -- What holds of all items holds of the dictionary of them.
  pub All-insert_all {κ} :
      (P : String × V → Type κ) (d xs : List (String × V))
      → All P d
      → All P xs
      → All P (insert_all d xs)
  unfolding insert_all
  All-insert_all P d [] h k = h
  All-insert_all P d ((i, v) ∷ xs) h k = All-insert_all P (put i v d) xs (All-put P i v d k.0 h) k.1

  some_inj : {x y : V} → ◌≡◌ {A = Option V} (some x) (some y) → x ≡ y
  some_inj h = cc

  -- An item that is found is one of the dictionary.
  pub get-All {κ} :
      (P : String × V → Type κ) (k : String) (d : Dict V) (v : V)
      → All P d
      → get k d ≡ some v
      → P (k, v)
  unfolding get
  get-All P k [] v h found = cc
  get-All P k ((j, w) ∷ d) v h found = elim (Bool-cases (j == k)) [
    | inl same ↦
        subst (λ i. P (i, v)) ((eq_iff j k).0 same)
          (subst (λ u. P (j, u)) (some_inj (rw same at found)) h.0)
    | inr differs ↦ get-All P k d v h.1 (rw differs at found)
  ]

  length-put :
      (k : String) (v : V) (d : Dict V)
      → length (put k v d) ≡ (if elem k (keys d) then length d else length d + 1)
  unfolding put
  length-put k v [] = ground arith
  length-put k v ((j, w) ∷ d) = ground (arith, length-put k v d)

  pub keys-append : (d e : Dict V) → keys (d ++ e) ≡ keys d ++ keys e
  keys-append [] e = refl
  keys-append (x ∷ d) e = ap (λ r. x.0 ∷ r) (keys-append d e)

  abbrev Fresh : Dict V → List (String × V) → Type 0
  Fresh d [] = Unit
  Fresh d (x ∷ xs) = (elem x.0 (keys d) ≡ false) × Fresh d xs

  Fresh-snoc :
      (d : Dict V) (k : String) (v : V) (xs : List (String × V))
      → Fresh d xs
      → elem k (keys xs) ≡ false
      → Fresh (d ++ (k, v) ∷ []) xs
  Fresh-snoc d k v [] h n = tt
  Fresh-snoc d k v ((j, w) ∷ xs) h n = (
    rw (keys-append d ((k, v) ∷ []), elem-append j (keys d) (k ∷ []))
        (ground (arith, h.0, eq_iff k j, eq_iff j k)),
    Fresh-snoc d k v xs h.1 (ground arith),
  )

  insert_all-Unique :
      (d : Dict V) (xs : List (String × V))
      → Unique (keys xs)
      → Fresh d xs
      → insert_all d xs ≡ d ++ xs
  unfolding insert_all
  insert_all-Unique d [] u f = sym (append-nil d)
  insert_all-Unique d ((k, v) ∷ xs) u f = rw (put_new k v d f.0) (
      insert_all-Unique (d ++ (k, v) ∷ []) xs u.1 (Fresh-snoc d k v xs f.1 u.0)
      ∙ append_assoc d ((k, v) ∷ []) xs)

  Fresh-nil : (xs : List (String × V)) → Fresh [] xs
  Fresh-nil [] = tt
  Fresh-nil (x ∷ xs) = (refl, Fresh-nil xs)

  -- With no key twice the dictionary is the list of its items.
  pub of_list-Unique : (xs : List (String × V)) → Unique (keys xs) → of_list xs ≡ xs
  unfolding of_list
  of_list-Unique xs u = insert_all-Unique [] xs u (Fresh-nil xs)

  length-insert_all :
      (d : Dict V) (xs : List (String × V)) → length (insert_all d xs) ≤ length d + length xs
  unfolding insert_all
  length-insert_all d [] = omega arith
  length-insert_all d ((k, v) ∷ xs) =
      ground (arith, length-insert_all (put k v d) xs, length-put k v d)

  put_keeps_keys :
      (j k : String) (v : V) (d : Dict V)
      → elem j (keys (put k v d)) ≡ false
      → (elem j (keys d) ≡ false) × ((k == j) ≡ false)
  unfolding put
  put_keeps_keys j k v [] h = ground arith
  put_keeps_keys j k v ((i, w) ∷ d) h =
      ground (arith, put_keeps_keys j k v d, eq_iff i k, eq_iff i j, eq_iff k j)

  Fresh-put :
      (k : String) (v : V) (d : Dict V) (xs : List (String × V))
      → Fresh (put k v d) xs
      → Fresh d xs × (elem k (keys xs) ≡ false)
  Fresh-put k v d [] h = (tt, refl)
  Fresh-put k v d ((j, w) ∷ xs) h =
      let old = put_keeps_keys j k v d h.0 in
      let rest = Fresh-put k v d xs h.1 in
      ((old.0, rest.0), ground (arith, old.1, rest.1, eq_iff j k, eq_iff k j))

  insert_all_full :
      (d : Dict V) (xs : List (String × V))
      → length (insert_all d xs) ≡ length d + length xs
      → Unique (keys xs) × Fresh d xs
  unfolding insert_all
  insert_all_full d [] h = (tt, tt)
  insert_all_full d ((k, v) ∷ xs) h =
      let rest =
        insert_all_full (put k v d) xs
          (ground (arith, length-put k v d, length-insert_all (put k v d) xs)) in
      let was = Fresh-put k v d xs rest.1 in
      ((was.1, rest.0), (ground (arith, length-put k v d, length-insert_all (put k v d) xs), was.0))

  -- A dictionary as long as the list of its items had no key twice.
  pub of_list_full : (xs : List (String × V)) → length (of_list xs) ≡ length xs → Unique (keys xs)
  unfolding of_list
  of_list_full xs h = (insert_all_full [] xs (omega (arith, h))).0

  get-none_iff : (k : String) (d : Dict V) → (get k d ≡ none) ↔ (elem k (keys d) ≡ false)
  unfolding get
  get-none_iff k [] = (λ _. refl, λ _. refl)
  get-none_iff k ((j, v) ∷ d) = ground (arith, get-none_iff k d)
