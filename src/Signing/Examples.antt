-- ===== src/Signing/Examples.antt =====
-- Runs of signing.py on one envelope.
use helpdesktool.Prelude.{
  ◌≡◌, true, false, ◌&&◌, List, ◌↔◌, String, Bool, [], ◌∷◌, ◌==◌, if◌then◌else◌,
}
use helpdesktool.Prelude.Exec.{ok}
use helpdesktool.Models.{Value, field, end, Mapping}
use helpdesktool.Signing.{ParsedTime, moment, invalid, Expected, verify_envelope, is_text}
use helpdesktool.Signing.Acceptance.{IsAcceptable, verify_envelope_iff}

abbrev show : Value → String
show (Value.text s) = s
show _ = "other"

abbrev parse_time : String → ParsedTime
parse_time s = if s == "noon" then moment 12 else invalid

abbrev check : String → String → Mapping → Bool
check key signature body = key == signature

abbrev pub envelope : Mapping
envelope =
    ("action_id", Value.text "a")
    ∷ ("attempt", Value.number 1)
    ∷ ("claim_token", Value.text "x")
    ∷ ("device_id", Value.text "d")
    ∷ ("device_os", Value.text "linux")
    ∷ ("expires_at", Value.text "noon")
    ∷ ("issued_at", Value.text "morning")
    ∷ ("job_id", Value.text "j")
    ∷ ("key_version", Value.number 1)
    ∷ ("nonce", Value.text "n")
    ∷ ("parameters", Value.object (field "service" (Value.text "nginx") end))
    ∷ ("signature", Value.text "pem")
    ∷ ("skill_id", Value.text "service.restart")
    ∷ ("skill_version", Value.number 1)
    ∷ ("tenant_id", Value.text "t")
    ∷ []

abbrev expected : Expected
expected = record {
  public_keys = (1, "pem") ∷ [];
  device_id = "d";
  tenant_id = "t";
  skill_versions = ("service.restart", 1 ∷ []) ∷ [];
}

verify_envelope_iff_example :
    (verify_envelope show parse_time check envelope expected 11 ≡ ok tt)
    ↔ IsAcceptable show parse_time check envelope expected 11
verify_envelope_iff_example = verify_envelope_iff show parse_time check envelope expected 11

-- the body that "sig" is the signature of
abbrev signed_texts : List (String × String)
signed_texts =
    ("job_id", "j")
    ∷ ("action_id", "a")
    ∷ ("device_id", "d")
    ∷ ("tenant_id", "t")
    ∷ ("skill_id", "dns.flush_cache")
    ∷ ("skill_version", "1")
    ∷ ("parameters", "")
    ∷ ("device_os", "linux")
    ∷ ("issued_at", "morning")
    ∷ ("expires_at", "noon")
    ∷ ("nonce", "n")
    ∷ ("key_version", "1")
    ∷ []

abbrev as_mapping : List (String × String) → Mapping
as_mapping [] = []
as_mapping ((k, s) ∷ texts) = (k, Value.text s) ∷ as_mapping texts

abbrev has_texts : Mapping → List (String × String) → Bool
has_texts [] [] = true
has_texts [] (t ∷ texts) = false
has_texts (f ∷ body) [] = false
has_texts ((k, v) ∷ body) ((k', s) ∷ texts) = k == k' && (is_text v s && has_texts body texts)

abbrev check_texts : String → String → Mapping → Bool
check_texts key signature body = has_texts body signed_texts

abbrev signed : Mapping
signed = ("signature", Value.text "sig") ∷ as_mapping signed_texts

abbrev attempted : Mapping
attempted = ("attempt", Value.number 2) ∷ signed
