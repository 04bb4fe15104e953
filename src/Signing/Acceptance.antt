-- ===== src/Signing/Acceptance.antt =====
-- Which envelopes signing.py's `verify_envelope` accepts.
use helpdesktool.Prelude.{
  if◌then◌else◌, ℕ, ◌<◌, String, ◌≡◌, refl, ◌↔◌, Bool, true, List, [], ◌∷◌, arith, All, Option,
  none, some, false, is_some,
}
use helpdesktool.Prelude.Dict.{get}
use helpdesktool.Prelude.Exec.{Result, ok, err}
use helpdesktool.Models.{Value, Mapping}
use helpdesktool.Signing.{
  ParsedTime, invalid, naive, moment, Expected, required_envelope_fields, missing_fields, no_fields,
  field_of, is_text, lookup_key, has_version, verify_envelope, verify_present, verify_address,
  verify_time, verify_skill, is_signed, EnvelopeError, missing,
}

-- no name is missing exactly when each is there
no_fields-missing_fields :
    (envelope : Mapping) (names : List String)
    → (no_fields (missing_fields envelope names) ≡ true)
      ↔ All (λ name. is_some (get name envelope) ≡ true) names
no_fields-missing_fields envelope [] = (λ _. tt, λ _. refl)
no_fields-missing_fields envelope (x ∷ names) = (
  λ h. ground (arith, no_fields-missing_fields envelope names),
  λ h. ground (arith, no_fields-missing_fields envelope names),
)

module _ (show : Value → String) (parse_time : String → ParsedTime)
    (check : String → String → Mapping → Bool) where
  -- every condition that the module documents, at the time `now`
  pub record IsAcceptable (envelope : Mapping) (e : Expected) (now : ℕ) : Type 0 where
    pub complete : All (λ name. is_some (get name envelope) ≡ true) required_envelope_fields
    pub signed :
        is_signed show parse_time check envelope
          (lookup_key (field_of envelope "key_version") e.public_keys)
        ≡ true
    pub own_device : is_text (field_of envelope "device_id") e.device_id ≡ true
    pub own_tenant : is_text (field_of envelope "tenant_id") e.tenant_id ≡ true
    pub expires : ℕ
    pub expires_read : parse_time (show (field_of envelope "expires_at")) ≡ moment expires
    pub fresh : now < expires
    pub skill_supported :
        has_version
          (field_of envelope "skill_version")
          (get (show (field_of envelope "skill_id")) e.skill_versions)
        ≡ true

  module _ (envelope : Mapping) (e : Expected) (now : ℕ) where
    skill_iff : (verify_skill show parse_time check envelope e ≡ ok tt) ↔ (
        has_version
          (field_of envelope "skill_version")
          (get (show (field_of envelope "skill_id")) e.skill_versions)
        ≡ true)
    unfolding verify_skill
    skill_iff = (λ h. ground arith, λ h. ground arith)

    time_iff :
        (t : ParsedTime)
        → (verify_time show parse_time check envelope e t now ≡ ok tt) ↔ (
            (expires : ℕ) × (t ≡ moment expires)
            × (now < expires)
            × (verify_skill show parse_time check envelope e ≡ ok tt))
    unfolding verify_time
    time_iff invalid = (λ h. cc, λ (x, p, l, s). cc)
    time_iff naive = (λ h. cc, λ (x, p, l, s). cc)
    time_iff (moment t) = (λ h. (t, refl, ground arith, ground arith), λ (x, p, l, s). ground arith)

    address_iff : (verify_address show parse_time check envelope e now ≡ ok tt) ↔ (
        (is_text (field_of envelope "device_id") e.device_id ≡ true)
        × (is_text (field_of envelope "tenant_id") e.tenant_id ≡ true)
        × (verify_time show parse_time check envelope e
              (parse_time (show (field_of envelope "expires_at")))
              now
            ≡ ok tt))
    unfolding verify_address
    address_iff = (λ h. (ground arith, ground arith, ground arith), λ (d, t, v). ground arith)

    present_iff : (verify_present show parse_time check envelope e now ≡ ok tt) ↔ (
        (is_signed show parse_time check envelope
            (lookup_key (field_of envelope "key_version") e.public_keys)
          ≡ true)
        × (verify_address show parse_time check envelope e now ≡ ok tt))
    unfolding verify_present
    present_iff = (λ h. (ground arith, ground arith), λ (d, v). ground arith)

    complete_iff :
        (names : List String) (next : Result EnvelopeError (Unit {0}))
        → ((if no_fields (missing_fields envelope names)
              then next
              else err (missing (missing_fields envelope names)))
            ≡ ok tt)
          ↔ (All (λ name. is_some (get name envelope) ≡ true) names × (next ≡ ok tt))
    complete_iff names next = (
      λ h. ground (arith, no_fields-missing_fields envelope names),
      λ h. ground (arith, no_fields-missing_fields envelope names),
    )

    -- An envelope is accepted exactly when all its fields are there, its signature is that of a trusted
    -- key, it is addressed to this device and this tenant, it has not expired, and the agent supports
    -- its skill and version.
    pub verify_envelope_iff :
        (verify_envelope show parse_time check envelope e now ≡ ok tt) ↔ IsAcceptable envelope e now
    unfolding verify_envelope
    verify_envelope_iff = (
      λ h.
          let (c, p) =
            (complete_iff required_envelope_fields
                (verify_present show parse_time check envelope e now)).0
              h in
          let (s, a) = present_iff.0 p in
          let (d, t, v) = address_iff.0 a in
          let (x, r, f, k) = (time_iff (parse_time (show (field_of envelope "expires_at")))).0 v in
          record {
            complete = c;
            signed = s;
            own_device = d;
            own_tenant = t;
            expires = x;
            expires_read = r;
            fresh = f;
            skill_supported = skill_iff.0 k;
          },
      λ a.
          (complete_iff required_envelope_fields
              (verify_present show parse_time check envelope e now)).1
            (
              a.complete,
              present_iff.1 (
                a.signed,
                address_iff.1 (
                  a.own_device,
                  a.own_tenant,
                  (time_iff (parse_time (show (field_of envelope "expires_at")))).1
                      (a.expires, a.expires_read, a.fresh, skill_iff.1 a.skill_supported),
                ),
              ),
            ),
    )

abbrev joined : String → Option Value → Option Mapping → Option Mapping
joined x u p = elim u [
  | none ↦ none
  | some v ↦ elim p [ none ↦ none | some body ↦ some ((x, v) ∷ body) ]
]

abbrev passes : (Mapping → Bool) → Option Mapping → Bool
passes accepts o = elim o [ none ↦ false | some body ↦ accepts body ]

-- what an envelope says of its job
abbrev pub job_fields : List String
job_fields =
    "job_id" ∷ "action_id" ∷ "device_id" ∷ "tenant_id" ∷ "skill_id" ∷ "skill_version" ∷ "parameters"
    ∷ "device_os" ∷ "issued_at" ∷ "expires_at" ∷ "nonce" ∷ "key_version" ∷ []
