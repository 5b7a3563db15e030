-- ===== src/Planning/Values.antt =====
-- The data of planning/models.py and planning/reducer.py, and the Python objects that the
-- commands are parsed from.
use bauhinia_agent.Common.{
  ℕ, String, Bool, true, false, ◌≡◌, ◌↔◌, Option, none, some, List, [], ◌∷◌, arith, Eq, ◌==◌,
  string_eq, if◌then◌else◌,
}
use bauhinia_agent.Common.Int.{ℤ}

pub data TaskStatus : Type 0 where
  pending in_progress completed cancelled : TaskStatus

pub data TaskPlanMode : Type 0 where
  linear dag : TaskPlanMode

pub record Task : Type 0 where
  pub id : String
  pub content : String
  pub status : TaskStatus
  pub depends_on : List String
  pub owner : Option String
  pub order : ℕ

pub record TaskPlan : Type 0 where
  pub mode : TaskPlanMode
  pub revision : ℕ
  pub tasks : List Task

-- The field `owner` of a patch; `unset` is the sentinel `UNSET`.
pub data OwnerPatch : Type 0 where
  unset : OwnerPatch
  owned : Option String → OwnerPatch

pub record TaskPatch : Type 0 where
  pub id : String
  pub status : Option TaskStatus
  pub owner : OwnerPatch
  pub add_depends_on : List String
  pub remove_depends_on : List String

pub record TaskRevision : Type 0 where
  pub id : String
  pub content : String

-- A key of a Python mapping: a text, or some other object.
pub data Key : Type 0 where
  name : String → Key
  other : ℕ → Key

-- A Python object, as far as the parsers tell objects apart. An `opaque` one is of a type that
-- none of them names.
mutual
  pub data Value : Type 0 where
    null : Value
    bool : Bool → Value
    int : ℤ → Value
    str : String → Value
    list : Items → Value
    tuple : Items → Value
    object : Fields → Value
    task : Task → Value
    patch : TaskPatch → Value
    revision : TaskRevision → Value
    opaque : ℕ → Value

  pub data Items : Type 0 where
    nil : Items
    cons : Value → Items → Items

  pub data Fields : Type 0 where
    end : Fields
    field : Key → Value → Fields → Fields

abbrev pub items : Items → List Value
items nil = []
items (cons v vs) = v ∷ items vs

abbrev pub of_items : List Value → Items
of_items [] = nil
of_items (v ∷ vs) = cons v (of_items vs)

abbrev pub field_keys : Fields → List Key
field_keys end = []
field_keys (field k v fs) = k ∷ field_keys fs

-- `payload.get(name)`, with `none` for a missing key.
unfoldable pub find : String → Fields → Option Value
find n end = none
find n (field (name k) v fs) = if k == n then some v else find n fs
find n (field (other k) v fs) = find n fs

abbrev pub get_or : Value → String → Fields → Value
get_or d n fs = elim (find n fs) [ none ↦ d | some v ↦ v ]

abbrev status_beq : TaskStatus → TaskStatus → Bool
status_beq pending pending = true
status_beq in_progress in_progress = true
status_beq completed completed = true
status_beq cancelled cancelled = true
status_beq _ _ = false

pub status_beq_iff : (a b : TaskStatus) → (status_beq a b ≡ true) ↔ (a ≡ b)
status_beq_iff a b = ground arith

instance abbrev pub status_eq : Eq TaskStatus
status_eq = record { equal = status_beq; equal_iff = status_beq_iff }

abbrev mode_beq : TaskPlanMode → TaskPlanMode → Bool
mode_beq linear linear = true
mode_beq dag dag = true
mode_beq _ _ = false

pub mode_beq_iff : (a b : TaskPlanMode) → (mode_beq a b ≡ true) ↔ (a ≡ b)
mode_beq_iff a b = ground arith

instance abbrev pub mode_eq : Eq TaskPlanMode
mode_eq = record { equal = mode_beq; equal_iff = mode_beq_iff }

abbrev pub status_text : TaskStatus → String
status_text pending = "pending"
status_text in_progress = "in_progress"
status_text completed = "completed"
status_text cancelled = "cancelled"

abbrev pub mode_text : TaskPlanMode → String
mode_text linear = "linear"
mode_text dag = "dag"

-- Membership in the frozen set of names, with the value that the name stands for.
unfoldable pub status_of_text : String → Option TaskStatus
status_of_text s =
    if s == "pending"
    then some pending
    else if s == "in_progress"
    then some in_progress
    else if s == "completed"
    then some completed
    else if s == "cancelled"
    then some cancelled
    else none

unfoldable pub mode_of_text : String → Option TaskPlanMode
mode_of_text s = if s == "linear" then some linear else if s == "dag" then some dag else none
