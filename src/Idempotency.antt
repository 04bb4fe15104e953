-- ===== src/Idempotency.antt =====
-- The idempotency records of helpdesktool/api.py. A request's payload is known by its SHA-256 `digest`,
-- which the caller computes.
use helpdesktool.Prelude.{
  String, Bool, ◌&&◌, Option, none, some, List, [], ◌∷◌, ◌==◌, if◌then◌else◌,
}
use helpdesktool.Prelude.Exec.{Result, ok, err}

pub record IdempotencyRecord (A : Type 0) : Type 0 where
  pub tenant_id : String
  pub scope : String
  pub key : String
  pub request_hash : String
  pub response : A

-- the HTTP errors of the handlers that are modelled
pub data HttpError : Type 0 where
  bad_request unauthorized forbidden not_found conflict internal_error service_unavailable
        unprocessable :
      HttpError

module _ {A : Type 0} where
  abbrev pub is_for : String → String → String → IdempotencyRecord A → Bool
  is_for tenant_id scope key r = r.tenant_id == tenant_id && (r.scope == scope && r.key == key)

  -- the row that the unique (tenant, scope, key) selects
  unfoldable pub find_record :
      String → String → String → List (IdempotencyRecord A) → Option (IdempotencyRecord A)
  find_record tenant_id scope key [] = none
  find_record tenant_id scope key (r ∷ rs) =
      if is_for tenant_id scope key r then some r else find_record tenant_id scope key rs

  abbrev pub check_hash : String → Option (IdempotencyRecord A) → Result HttpError (Option A)
  check_hash digest none = ok none
  check_hash digest (some r) =
      if r.request_hash == digest then ok (some r.response) else err conflict

  -- `idempotency_lookup`
  unfoldable pub idempotency_lookup :
      String → String → String → String → List (IdempotencyRecord A) → Result HttpError (Option A)
  idempotency_lookup tenant_id scope key digest rs =
      check_hash digest (find_record tenant_id scope key rs)

  -- `remember`
  unfoldable pub remember :
      String
      → String
      → String
      → String
      → A
      → List (IdempotencyRecord A)
      → List (IdempotencyRecord A)
  remember tenant_id scope key digest response rs =
      record {
        tenant_id = tenant_id;
        scope = scope;
        key = key;
        request_hash = digest;
        response = response;
      }
      ∷ rs
