-- ===== src/Skills/Shape.antt =====
-- Which parameters a manifest accepts.
use helpdesktool.Prelude.{
  arith, String, Bool, true, false, ◌&&◌, Option, none, some, List, [], ◌∷◌, ◌≡◌, ◌↔◌, refl, ap,
  sym, ◌∙◌, keep, is_some, All, if◌then◌else◌,
}
use helpdesktool.Prelude.Dict.{Dict, get}
use helpdesktool.Models.{Value, Mapping}
use helpdesktool.Skills.{
  ParameterSpec, SkillManifest, ParameterError, unexpected, missing, is_of, names, required_names,
  is_unknown, check_types, error_or, validate_parameters,
}

-- the parameter has a spec, and the type that it asks for
abbrev pub is_declared : Dict ParameterSpec → String × Value → Bool
is_declared specs (name, v) = elim (get name specs) [
  | none ↦ false
  | some spec ↦ is_of spec.type_of v
]

-- the parameter is there, if the spec asks for it
abbrev pub is_given : Mapping → String × ParameterSpec → Bool
is_given parameters (name, spec) = if spec.required then is_some (get name parameters) else true

and_swap : (a b c : Bool) → (a && (b && c)) ≡ ((a && c) && b)
and_swap a b c = ground arith

and_left : (a b : Bool) → (a && b) ≡ true → a ≡ true
and_left a b h = ground arith

and_right : (a b : Bool) → (a && b) ≡ true → b ≡ true
and_right a b h = ground arith

and_both : (a b : Bool) → a ≡ true → b ≡ true → (a && b) ≡ true
and_both a b h k = ground arith

abbrev are_accepted : Dict ParameterSpec → Mapping → Bool
are_accepted specs [] = true
are_accepted specs (p ∷ ps) = is_declared specs p && are_accepted specs ps

abbrev are_given : Mapping → Dict ParameterSpec → Bool
are_given parameters [] = true
are_given parameters (s ∷ specs) = is_given parameters s && are_given parameters specs

abbrev no_names : List String → Bool
no_names [] = true
no_names (x ∷ xs) = false

abbrev no_error : Option ParameterError → Bool
no_error none = true
no_error (some e) = false

error_or-no_error :
    (e : List String → ParameterError) (xs : List String) (rest : Option ParameterError)
    → no_error (error_or e xs rest) ≡ (no_names xs && no_error rest)
error_or-no_error e [] rest = refl
error_or-no_error e (x ∷ xs) rest = refl

accepted_names :
    (specs : Dict ParameterSpec) (ps : Mapping)
    → (no_names (keep (is_unknown specs) (names ps)) && no_error (check_types specs ps))
      ≡ are_accepted specs ps
unfolding check_types
accepted_names specs [] = refl
accepted_names specs ((name, v) ∷ ps) = ground (arith, accepted_names specs ps)

given_names :
    (parameters : Mapping) (specs : Dict ParameterSpec)
    → no_names (keep (is_unknown parameters) (required_names specs)) ≡ are_given parameters specs
given_names parameters [] = refl
given_names parameters ((name, spec) ∷ specs) = ground (arith, given_names parameters specs)

are_accepted-All :
    (specs : Dict ParameterSpec) (ps : Mapping)
    → (are_accepted specs ps ≡ true) ↔ All (λ p. is_declared specs p ≡ true) ps
are_accepted-All specs [] = (λ _. tt, λ _. refl)
are_accepted-All specs (p ∷ ps) =
    (λ h. ground (arith, are_accepted-All specs ps), λ h. ground (arith, are_accepted-All specs ps))

are_given-All :
    (parameters : Mapping) (specs : Dict ParameterSpec)
    → (are_given parameters specs ≡ true) ↔ All (λ s. is_given parameters s ≡ true) specs
are_given-All parameters [] = (λ _. tt, λ _. refl)
are_given-All parameters (s ∷ specs) = (
  λ h. ground (arith, are_given-All parameters specs),
  λ h. ground (arith, are_given-All parameters specs),
)

no_error-none : (o : Option ParameterError) → (no_error o ≡ true) ↔ (o ≡ none)
no_error-none none = (λ _. refl, λ _. refl)
no_error-none (some e) = (λ h. cc, λ h. cc)

validate_parameters-no_error :
    (m : SkillManifest) (ps : Mapping)
    → no_error (validate_parameters m ps)
      ≡ (are_accepted m.parameters ps && are_given ps m.parameters)
unfolding validate_parameters
validate_parameters-no_error m ps =
    let unknown = keep (is_unknown m.parameters) (names ps) in
    let absent = keep (is_unknown ps) (required_names m.parameters) in
    let types = check_types m.parameters ps in
    error_or-no_error unexpected unknown (error_or missing absent types)
    ∙ (ap (λ b. no_names unknown && b) (error_or-no_error missing absent types)
        ∙ (and_swap (no_names unknown) (no_names absent) (no_error types)
            ∙ rw (accepted_names m.parameters ps, given_names ps m.parameters) refl))

-- Parameters are accepted exactly when each has a spec and is of the type that this asks for, and each
-- spec that is required has a parameter.
pub validate_parameters_iff :
    (m : SkillManifest) (ps : Mapping)
    → (validate_parameters m ps ≡ none) ↔ (
        All (λ p. is_declared m.parameters p ≡ true) ps
        × All (λ s. is_given ps s ≡ true) m.parameters)
validate_parameters_iff m ps =
    let e = validate_parameters-no_error m ps in
    let accepted = are_accepted-All m.parameters ps in
    let given = are_given-All ps m.parameters in
    let (to_none, from_none) = no_error-none (validate_parameters m ps) in
    (
      λ h.
          let both = sym e ∙ from_none h in
          (accepted.0 (and_left _ _ both), given.0 (and_right _ _ both)),
      λ h. to_none (e ∙ and_both _ _ (accepted.1 h.0) (given.1 h.1)),
    )
