-- ===== src/Signing.antt =====
-- agent_common/signing.py: what an agent checks of a job envelope before a job reaches its executor.
-- Arguments stand for Python's `str` of a value (`show`), for `datetime.fromisoformat` (`parse_time`)
-- and for the third-party Ed25519 check of a PEM key, a signature and the bytes of a payload (`check`).
pub mod Acceptance
pub mod Examples
use helpdesktool.Prelude.{
  ℕ, String, Bool, true, false, ◌&&◌, not, Option, none, some, List, [], ◌∷◌, ◌++◌, ◌==◌, any, keep,
  eqb, leb, is_some, if◌then◌else◌,
}
use helpdesktool.Prelude.Dict.{Dict, get}
use helpdesktool.Prelude.Exec.{Result, ok, err}
use helpdesktool.Models.{Value, Mapping}

abbrev pub envelope_signed_fields : List String
envelope_signed_fields =
    "job_id" ∷ "action_id" ∷ "device_id" ∷ "tenant_id" ∷ "skill_id" ∷ "skill_version" ∷ "parameters"
    ∷ "device_os" ∷ "issued_at" ∷ "expires_at" ∷ "nonce" ∷ "key_version" ∷ []

-- a set in the source; here in the order in which an error lists the names
abbrev pub required_envelope_fields : List String
required_envelope_fields =
    "action_id" ∷ "attempt" ∷ "claim_token" ∷ "device_id" ∷ "device_os" ∷ "expires_at" ∷ "issued_at"
    ∷ "job_id" ∷ "key_version" ∷ "nonce" ∷ "parameters" ∷ "signature" ∷ "skill_id" ∷ "skill_version"
    ∷ "tenant_id" ∷ []

abbrev pub no_fields : List String → Bool
no_fields [] = true
no_fields (x ∷ xs) = false

-- One constructor for each `raise EnvelopeError`, and the TypeError of an unhashable dictionary key.
pub data EnvelopeError : Type 0 where
  missing : List String → EnvelopeError
  invalid_signature different_device different_tenant : EnvelopeError
  malformed_expiration expired : EnvelopeError
  unsupported_skill : String → Value → EnvelopeError
  unhashable : EnvelopeError

-- what `datetime.fromisoformat` gives: a ValueError, a time with no zone, or a moment
pub data ParsedTime : Type 0 where
  invalid naive : ParsedTime
  moment : ℕ → ParsedTime

abbrev pub missing_fields : Mapping → List String → List String
missing_fields envelope names = keep (λ name. not (is_some (get name envelope))) names

-- `envelope[key]` where the key is known to be there
abbrev pub field_of : Mapping → String → Value
field_of envelope key = elim (get key envelope) [ none ↦ Value.null | some v ↦ v ]

-- `{key: envelope[key] for key in names}`; `none` is the KeyError.
unfoldable pub pick : Mapping → List String → Option Mapping
pick envelope [] = some []
pick envelope (key ∷ names) =
    let rest = pick envelope names in
    elim (get key envelope) [
      | none ↦ none
      | some v ↦ elim rest [ none ↦ none | some body ↦ some ((key, v) ∷ body) ]
    ]

-- `canonical_payload`, before it is printed as JSON with sorted keys
unfoldable pub canonical_payload : Mapping → Option Mapping
unfolding pick
canonical_payload envelope = pick envelope envelope_signed_fields

-- the integer that a value equals as a dictionary key or a set's member: `True` is 1
abbrev pub as_int : Value → Option ℕ
as_int (Value.number n) = some n
as_int (Value.boolean true) = some 1
as_int (Value.boolean false) = some 0
as_int _ = none

abbrev pub is_unhashable : Value → Bool
is_unhashable (Value.array s) = true
is_unhashable (Value.object fs) = true
is_unhashable _ = false

abbrev pub is_text : Value → String → Bool
is_text (Value.text s) t = s == t
is_text _ t = false

-- a mapping from key versions to PEM texts
abbrev pub Keys : Type 0
Keys = List (ℕ × String)

-- Python's truth value of the keys
abbrev pub has_keys : Keys → Bool
has_keys [] = false
has_keys (x ∷ keys) = true

unfoldable pub find_key : ℕ → Keys → Option String
find_key n [] = none
find_key n ((m, pem) ∷ keys) = if eqb m n then some pem else find_key n keys

abbrev pub lookup_key : Value → Keys → Option String
lookup_key v keys = elim (as_int v) [ none ↦ none | some n ↦ find_key n keys ]

abbrev pub has_version : Value → Option (List ℕ) → Bool
has_version v none = false
has_version v (some versions) = elim (as_int v) [ none ↦ false | some n ↦ any (eqb n) versions ]

-- `bool(allowed_versions)`
abbrev pub some_versions : Option (List ℕ) → Bool
some_versions (some (n ∷ ns)) = true
some_versions _ = false

-- what the agent checks an envelope against
pub record Expected : Type 0 where
  pub public_keys : Keys
  pub device_id : String
  pub tenant_id : String
  pub skill_versions : Dict (List ℕ)

module _ (show : Value → String) (parse_time : String → ParsedTime)
    (check : String → String → Mapping → Bool) where
  unfoldable pub verify_signature : Mapping → String → String → Bool
  verify_signature envelope signature_b64 public_key_pem = elim (canonical_payload envelope) [
    | none ↦ false
    | some body ↦ check public_key_pem signature_b64 body
  ]

  -- the checks of the version of the skill, the last two statements
  unfoldable pub verify_skill : Mapping → Expected → Result EnvelopeError (Unit {0})
  verify_skill envelope e =
      let skill_id = show (field_of envelope "skill_id") in
      let version = field_of envelope "skill_version" in
      let allowed = get skill_id e.skill_versions in
      if some_versions allowed && is_unhashable version
      then err unhashable
      else if has_version version allowed
      then ok tt
      else err (unsupported_skill skill_id version)

  unfoldable pub verify_time : Mapping → Expected → ParsedTime → ℕ → Result EnvelopeError (Unit {0})
  verify_time envelope e invalid now = err malformed_expiration
  verify_time envelope e naive now = err malformed_expiration
  verify_time envelope e (moment t) now = if leb t now then err expired else verify_skill envelope e

  unfoldable pub verify_address : Mapping → Expected → ℕ → Result EnvelopeError (Unit {0})
  verify_address envelope e now =
      if not (is_text (field_of envelope "device_id") e.device_id)
      then err different_device
      else if not (is_text (field_of envelope "tenant_id") e.tenant_id)
      then err different_tenant
      else verify_time envelope e (parse_time (show (field_of envelope "expires_at"))) now

  abbrev pub is_signed : Mapping → Option String → Bool
  is_signed envelope none = false
  is_signed envelope (some key) =
      verify_signature envelope (show (field_of envelope "signature")) key

  unfoldable pub verify_present : Mapping → Expected → ℕ → Result EnvelopeError (Unit {0})
  verify_present envelope e now =
      let version = field_of envelope "key_version" in
      if is_unhashable version
      then err unhashable
      else if is_signed envelope (lookup_key version e.public_keys)
      then verify_address envelope e now
      else err invalid_signature

  -- `verify_envelope` at the time `now`
  unfoldable pub verify_envelope : Mapping → Expected → ℕ → Result EnvelopeError (Unit {0})
  verify_envelope envelope e now =
      let names = missing_fields envelope required_envelope_fields in
      if no_fields names then verify_present envelope e now else err (missing names)
