-- ===== src/Skills/Registry.antt =====
-- The registry of skills in helpdesktool/api.py: a stored manifest is trusted only with its own hash. The hash
-- of a manifest's canonical JSON is an argument. A row's enumerations are read already.
use helpdesktool.Prelude.{
  String, Bool, ◌&&◌, Option, none, some, List, [], ◌∷◌, ◌==◌, keep, if◌then◌else◌,
}
use helpdesktool.Prelude.Dict.{Dict}
use helpdesktool.Prelude.Exec.{Result, ok, err}
use helpdesktool.Models.{SkillDefinition, make_skill}
use helpdesktool.Policy.{PolicyEngine, make_engine}
use helpdesktool.Auth.{first}
use helpdesktool.Idempotency.{HttpError, internal_error}
use helpdesktool.Skills.{ParameterSpec, SkillManifest, make_spec}

pub record SkillManifestRow : Type 0 where
  pub definition : SkillDefinition
  pub parameters : Dict (String × Bool)
  pub content_hash : String
  pub active : Bool

abbrev and_spec :
    String → Option ParameterSpec → Option (Dict ParameterSpec) → Option (Dict ParameterSpec)
and_spec name (some spec) (some specs) = some ((name, spec) ∷ specs)
and_spec name _ _ = none

abbrev specs_of : Dict (String × Bool) → Option (Dict ParameterSpec)
specs_of [] = some []
specs_of ((name, column) ∷ columns) = and_spec name (make_spec column.0 column.1) (specs_of columns)

-- `_manifest_from_row`
unfoldable pub manifest_from_row : SkillManifestRow → Option SkillManifest
unfolding make_spec
manifest_from_row row = elim (specs_of row.parameters) [
  | none ↦ none
  | some specs ↦ some (record { definition = row.definition; parameters = specs })
]

module _ (digest : SkillManifest → String) where
  abbrev pub with_hash : String → Option SkillManifest → Result HttpError SkillManifest
  with_hash content_hash none = err internal_error
  with_hash content_hash (some m) = if digest m == content_hash then ok m else err internal_error

  -- the manifest of a row, once its hash is checked
  unfoldable pub trusted : SkillManifestRow → Result HttpError SkillManifest
  unfolding manifest_from_row
  trusted row = with_hash row.content_hash (manifest_from_row row)

  abbrev pub and_manifest :
      Result HttpError SkillManifest
      → Result HttpError (List SkillManifest)
      → Result HttpError (List SkillManifest)
  and_manifest (err e) rest = err e
  and_manifest (ok m) (err e) = err e
  and_manifest (ok m) (ok ms) = ok (m ∷ ms)

  abbrev trusted_all : List SkillManifestRow → Result HttpError (List SkillManifest)
  trusted_all [] = ok []
  trusted_all (r ∷ rows) = and_manifest (trusted r) (trusted_all rows)

  abbrev is_active : SkillManifestRow → Bool
  is_active r = r.active

  -- `load_active_skill_manifests`
  unfoldable pub load_active_skill_manifests :
      List SkillManifestRow → Result HttpError (List SkillManifest)
  unfolding trusted
  load_active_skill_manifests rows = trusted_all (keep is_active rows)

  abbrev pub found_manifest : Option SkillManifestRow → Result HttpError (Option SkillManifest)
  found_manifest none = ok none
  found_manifest (some r) = elim (trusted r) [ err e ↦ err e | ok m ↦ ok (some m) ]

  -- `get_active_manifest`
  unfoldable pub get_active_manifest :
      String → List SkillManifestRow → Result HttpError (Option SkillManifest)
  unfolding trusted
  get_active_manifest skill_id rows =
      found_manifest (first (keep (λ r. r.definition.skill_id == skill_id && r.active) rows))

  abbrev and_definition :
      Option SkillDefinition → Option (List SkillDefinition) → Option (List SkillDefinition)
  and_definition (some d) (some ds) = some (d ∷ ds)
  and_definition _ _ = none

  -- `to_skill_definition` of each
  abbrev definitions_of : List SkillManifest → Option (List SkillDefinition)
  definitions_of [] = some []
  definitions_of (m ∷ ms) = and_definition (make_skill m.definition) (definitions_of ms)

  abbrev engine_of : Option (List SkillDefinition) → Result HttpError PolicyEngine
  engine_of none = err internal_error
  engine_of (some ds) = elim (make_engine ds) [
    | none ↦ err internal_error
    | some policy ↦ ok policy
  ]

  abbrev engine_from : Result HttpError (List SkillManifest) → Result HttpError PolicyEngine
  engine_from (err e) = err e
  engine_from (ok ms) = engine_of (definitions_of ms)

  -- the policy engine of `orchestrator`
  unfoldable pub load_policy : List SkillManifestRow → Result HttpError PolicyEngine
  unfolding load_active_skill_manifests
  load_policy rows = engine_from (load_active_skill_manifests rows)
