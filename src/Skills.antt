-- ===== src/Skills.antt =====
-- helpdesktool/skills.py: the shape of a skill's parameters, and the check of a request's parameters against it.
-- The wording of an error is left out: an error names what it is about, not sorted.
pub mod Shape
pub mod Registry
pub mod Examples
use helpdesktool.Prelude.{
  String, Bool, true, false, ◌&&◌, not, Option, none, some, List, [], ◌∷◌, ◌==◌, keep, is_some,
  if◌then◌else◌,
}
use helpdesktool.Prelude.Dict.{Dict, get}
use helpdesktool.Models.{Value, Mapping, SkillDefinition}

-- `_ALLOWED_PARAMETER_TYPES`
pub data ParameterType : Type 0 where
  string number boolean : ParameterType

pub record ParameterSpec : Type 0 where
  pub type_of : ParameterType
  pub required : Bool

-- the constructor's check; `none` is the ValueError
abbrev pub read_type : String → Option ParameterType
read_type s =
    if s == "string"
    then some string
    else if s == "number"
    then some number
    else if s == "boolean"
    then some boolean
    else none

unfoldable pub make_spec : String → Bool → Option ParameterSpec
make_spec s required = elim (read_type s) [
  | none ↦ none
  | some t ↦ some (record { type_of = t; required = required })
]

-- the policy's part of a manifest, with the shape of the parameters
pub record SkillManifest : Type 0 where
  pub definition : SkillDefinition
  pub parameters : Dict ParameterSpec

pub data ParameterError : Type 0 where
  unexpected missing : List String → ParameterError
  wrong_type : String → ParameterType → ParameterError

-- `isinstance(value, type_checks[spec.type])`, where a bool is no number
abbrev pub is_of : ParameterType → Value → Bool
is_of string (Value.text s) = true
is_of number (Value.number n) = true
is_of number (Value.real s) = true
is_of boolean (Value.boolean b) = true
is_of _ _ = false

abbrev pub names : {A : Type 0} → Dict A → List String
names [] = []
names ((name, a) ∷ d) = name ∷ names d

abbrev pub required_names : Dict ParameterSpec → List String
required_names [] = []
required_names ((name, spec) ∷ specs) =
    let rest = required_names specs in if spec.required then name ∷ rest else rest

abbrev pub is_unknown : {A : Type 0} → Dict A → String → Bool
is_unknown d name = not (is_some (get name d))

-- a parameter of a name that has no spec is not looked at: there is none once the names are checked
abbrev pub fits : Option ParameterSpec → Value → Bool
fits none v = true
fits (some spec) v = is_of spec.type_of v

abbrev pub expected_type : Option ParameterSpec → ParameterType
expected_type none = string
expected_type (some spec) = spec.type_of

-- the first parameter of a wrong type
unfoldable pub check_types : Dict ParameterSpec → Mapping → Option ParameterError
check_types specs [] = none
check_types specs ((name, v) ∷ ps) =
    let rest = check_types specs ps in
    let spec = get name specs in
    if fits spec v then rest else some (wrong_type name (expected_type spec))

-- an error for names, where there are any
abbrev pub error_or :
    (List String → ParameterError) → List String → Option ParameterError → Option ParameterError
error_or e [] rest = rest
error_or e (name ∷ ns) rest = some (e (name ∷ ns))

unfoldable pub validate_parameters : SkillManifest → Mapping → Option ParameterError
unfolding check_types
validate_parameters manifest parameters =
    error_or unexpected (keep (is_unknown manifest.parameters) (names parameters)) (
      error_or missing (keep (is_unknown parameters) (required_names manifest.parameters))
        (check_types manifest.parameters parameters))
