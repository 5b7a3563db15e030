-- ===== src/Artifacts.antt =====
-- evolution/candidate_artifacts.py: what is made of the draft of an artifact. Redaction, the lower case
-- of a text and the hash of a content are arguments.
pub mod Registry
use Prim.Native.Char.{code}
use Prim.Native.Nat.{Ordering}
use Prim.Native.String.{compare, count, ◌++◌ as append_text}
use bauhinia_agent.Common.{
  ℕ, ◌+◌, String, Bool, true, false, not, ◌&&◌, ◌||◌, Option, none, some, List, [], ◌∷◌, ◌++◌, map,
  any, elem, all, is_empty, leb, ◌==◌, nat_eq, string_eq, if◌then◌else◌, Result, ok, err, ◌>>=◌,
  ◌>>◌, require, each, strip, is_blank,
}
use bauhinia_agent.Common.Int.{pos, negsuc}
use bauhinia_agent.Planning.Values.{bool, str}
use bauhinia_agent.Evo.Graph.{EvoError}
use bauhinia_agent.Promotion.{Content, Fraction, Artifact, Experience, candidate, lifecycle_text}

-- What the registry raises: CandidateArtifactError, or the error of an identifier.
pub data ArtifactError : Type 0 where
  no_sources repeated_sources : ArtifactError
  unknown_sources not_accepted : List String → ArtifactError
  bad_identifier : EvoError → ArtifactError
  unknown_superseded : String → ArtifactError
  not_latest bad_name bad_confidence : ArtifactError
  blank_field empty_field repeated_field : (field : String) → ArtifactError
  no_support roles_not_unique roles_overlap roles_incomplete : ArtifactError
  changes_identity same_content : ArtifactError

abbrev pub Raises : Type 0 → Type 0
Raises A = Result ArtifactError A

-- CandidateArtifactKind
pub data Kind : Type 0 where
  plan_template skill_draft tool_invocation_policy memory_rule : Kind

abbrev kind_text : Kind → String
kind_text plan_template = "plan_template"
kind_text skill_draft = "skill_draft"
kind_text tool_invocation_policy = "tool_invocation_policy"
kind_text memory_rule = "memory_rule"

-- CandidateArtifactDraft, whose fields have their declared types
pub record Draft : Type 0 where
  pub kind : Kind
  pub name : String
  pub description : String
  pub instructions : String
  pub inputs : List String
  pub outputs : List String
  pub dependencies : List String
  pub effects : List String
  pub scope : String
  pub applicability : String
  pub risks : List String
  pub source_candidate_ids : List String
  pub confidence : Fraction
  pub triggers : List String
  pub support_candidate_ids : List String
  pub counterexample_candidate_ids : List String
  pub supersedes_artifact_id : Option String

pub record Texts : Type 0 where
  pub redact : String → String
  pub lower : String → String
  pub content_hash : Content → String

-- An event of ExperienceCandidateCreated with its candidate
pub record Source : Type 0 where
  pub event_id : String
  pub candidate_id : String
  pub run_id : String
  pub payload : Experience

abbrev pub repeats : List String → Bool
repeats [] = false
repeats (x ∷ xs) = elem x xs || repeats xs

abbrev is_above : String → String → Bool
is_above a b = elim (compare a b) [ Ordering.gt ↦ true | _ ↦ false ]

abbrev insert_text : String → List String → List String
insert_text x [] = x ∷ []
insert_text x (y ∷ ys) =
    let rest = insert_text x ys in if is_above x y then y ∷ rest else x ∷ y ∷ ys

-- `sorted({...})`
abbrev pub sorted_set : List String → List String
sorted_set [] = []
sorted_set (x ∷ xs) = let rest = sorted_set xs in if elem x xs then rest else insert_text x rest

abbrev is_first : ℕ → Bool
is_first c = (leb 97 c && leb c 122) || (leb 48 c && leb c 57)

abbrev are_rest : String → Bool
are_rest String.[] = true
are_rest (String.◌∷◌ c s) = (is_first (code c) || code c == 95 || code c == 45) && are_rest s

-- `_SAFE_NAME.fullmatch`
abbrev is_safe_name : String → Bool
is_safe_name String.[] = false
is_safe_name (String.◌∷◌ c s) = is_first (code c) && are_rest s && leb (count s) 63

unfoldable pub safe_name : String → Raises String
safe_name s = do require (is_safe_name s) bad_name; ok s

unfoldable pub confidence_of : Fraction → Raises Fraction
confidence_of c = elim c.numerator [
  | pos n ↦ do require (leb n c.denominator) bad_confidence; ok c
  | negsuc n ↦ err bad_confidence
]

-- `_validate_source_roles`
unfoldable pub check_roles : (sources support counterexamples : List String) → Raises (Unit {0})
check_roles sources support counterexamples = do
  require (not (is_empty support)) no_support
  require (not (repeats support || repeats counterexamples)) roles_not_unique
  require (not (any (λ x. elem x counterexamples) support)) roles_overlap
  require
      (all (λ x. elem x sources) (support ++ counterexamples)
        && all (λ x. elem x (support ++ counterexamples)) sources)
      roles_incomplete

abbrev run_ids : List Source → List String
run_ids [] = []
run_ids (s ∷ ss) = s.payload.source_run_ids ++ s.run_id ∷ run_ids ss

abbrev gathered : (Experience → List String) → List Source → List String
gathered f [] = []
gathered f (s ∷ ss) = f s.payload ++ gathered f ss

-- `draft.support_candidate_ids or source_candidate_ids`
abbrev pub or_sources : List String → List String → List String
or_sources [] sources = sources
or_sources (x ∷ xs) sources = x ∷ xs

abbrev pub source_ids : List Source → List String
source_ids = map (λ (s : Source). s.candidate_id)

module _ (texts : Texts) where
  unfoldable pub redacted : String → (field : String) → Raises String
  redacted value field = do
    require (not (is_blank value)) (blank_field field)
    ok (texts.redact (strip value))

  abbrev redacted_each : List String → (field : String) → Raises (List String)
  redacted_each [] field = ok []
  redacted_each (v ∷ vs) field = do
    first ← redacted v (append_text field "[]")
    rest ← redacted_each vs field
    ok (first ∷ rest)

  unfoldable pub redacted_items :
      List String → (field : String) → (required lowercase : Bool) → Raises (List String)
  unfolding redacted
  redacted_items values field required lowercase = do
    clean ← redacted_each values field
    let result = if lowercase then map texts.lower clean else clean
    require (not (required && is_empty result)) (empty_field field)
    require (not (repeats result)) (repeated_field field)
    ok result

  -- The checked fields, in the order of `_artifact_payload`.
  unfoldable pub content_of : Draft → Raises Content
  unfolding safe_name redacted redacted_items
  content_of draft = do
    name ← safe_name draft.name
    description ← redacted draft.description "description"
    instructions ← redacted draft.instructions "instructions"
    inputs ← redacted_items draft.inputs "inputs" true false
    outputs ← redacted_items draft.outputs "outputs" true false
    dependencies ← redacted_items draft.dependencies "dependencies" false false
    effects ← redacted_items draft.effects "effects" true true
    triggers ← redacted_items draft.triggers "triggers" false false
    scope ← redacted draft.scope "scope"
    applicability ← redacted draft.applicability "applicability"
    risks ← redacted_items draft.risks "risks" true false
    ok (record {
      kind = kind_text draft.kind;
      name = name;
      description = description;
      instructions = instructions;
      inputs = inputs;
      outputs = outputs;
      dependencies = dependencies;
      effects = effects;
      triggers = triggers;
      scope = scope;
      applicability = applicability;
      risks = risks;
    })

  -- `_artifact_payload`
  unfoldable pub artifact_payload :
      Draft → List Source → (lineage_id : String) (artifact_version : ℕ) → Raises Artifact
  unfolding content_of confidence_of check_roles
  artifact_payload draft sources lineage_id artifact_version = do
    content ← content_of draft
    confidence ← confidence_of draft.confidence
    let ids = source_ids sources
    let support = or_sources draft.support_candidate_ids ids
    check_roles ids support draft.counterexample_candidate_ids
    ok (record {
      artifact_schema_version = "v1";
      lineage_id = lineage_id;
      artifact_version = artifact_version;
      content = content;
      source_candidate_ids = ids;
      support_candidate_ids = support;
      counterexample_candidate_ids = draft.counterexample_candidate_ids;
      source_run_ids = sorted_set (run_ids sources);
      evidence_refs = sorted_set (gathered (λ x. x.evidence_refs) sources);
      counterexamples = sorted_set (gathered (λ x. x.counterexamples) sources);
      confidence = confidence;
      content_hash = texts.content_hash content;
      lifecycle_state = lifecycle_text candidate;
      supersedes_artifact_id = draft.supersedes_artifact_id;
      extensions = ("registry_version", str "p7-001") ∷ ("runtime_enabled", bool false) ∷ [];
    })
