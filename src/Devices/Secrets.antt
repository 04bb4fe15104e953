-- ===== src/Devices/Secrets.antt =====
-- What becomes of a device's credentials and of an enrolment token, whatever requests follow.
use helpdesktool.Prelude.{
  ℕ, String, ◌≡◌, refl, Bool, true, false, ◌||◌, not, Option, none, some, List, [], ◌∷◌, arith,
  eq_iff, is_some,
}
use helpdesktool.Prelude.Dict.{Dict, get, put, get-put}
use helpdesktool.Prelude.Exec.{Result, ok, err}
use helpdesktool.Auth.{Principal, require_roles}
use helpdesktool.Idempotency.{HttpError}
use helpdesktool.Devices.{
  Device, EnrollmentToken, Db, DeviceEnroll, administrators, depends, own_device, own_token,
  find_token, new_device, enroll_device, new_token, create_enrollment_token,
  revoke_enrollment_token, enroll_found, enroll_device_with_token, rotated, write_rotated,
  rotate_device_credential, require_agent, renew_device_credential, revoke_device, mark_used,
}

-- the requests of the devices' endpoints
pub data Request : Type 0 where
  enroll : Principal → DeviceEnroll → String → String → Request
  create_token : Principal → String → ℕ → String → String → ℕ → Request
  revoke_token : Principal → String → ℕ → Request
  enroll_with : DeviceEnroll → String → String → String → ℕ → Request
  rotate : Principal → String → String → ℕ → Request
  renew : String → String → String → ℕ → Request
  revoke : Principal → String → String → ℕ → Request

-- a property of the database that a handler keeps, refused or not
pub depends-keeps :
    {A B : Type 0} (P : Db → Type 0) (o : Result HttpError A) (f : A → Db → Result HttpError B × Db)
    → ((a : A) (db : Db) → P db → P (f a db).1)
    → (db : Db) → P db
    → P (depends o f db).1
depends-keeps P (ok a) f keep db h = keep a db h
depends-keeps P (err e) f keep db h = h

-- the same, with what the check says of its result
pub depends-case :
    {A B : Type 0} (P : Db → Type 0) (o : Result HttpError A) (f : A → Db → Result HttpError B × Db)
    (db : Db)
    → ((a : A) → o ≡ ok a → P (f a db).1)
    → P db
    → P (depends o f db).1
depends-case P (ok a) f db keep h = keep a refl
depends-case P (err e) f db keep h = h

pub own_device-ok :
    (t : String) (o : Option Device) (d : Device) → own_device t o ≡ ok d → o ≡ some d
own_device-ok t none d h = cc
own_device-ok t (some d') d h = ground arith

own_token-ok :
    (t : String) (o : Option EnrollmentToken) (d : EnrollmentToken)
    → own_token t o ≡ ok d
    → o ≡ some d
own_token-ok t none d h = cc
own_token-ok t (some d') d h = ground arith

-- what the handlers of devices do to one that is revoked
abbrev pub is_revoked : Option Device → Bool
is_revoked none = false
is_revoked (some d) = not d.active

abbrev pub is_spent : Option EnrollmentToken → Bool
is_spent none = false
is_spent (some t) = is_some t.used_at || is_some t.revoked_at

abbrev pub Revoked : String → Db → Type 0
Revoked k db = is_revoked (get k db.devices) ≡ true

-- the first token with the hash is used or revoked
abbrev pub Spent : String → Db → Type 0
Spent h db = is_spent (find_token h db.tokens) ≡ true

find_token-put_new :
    (h k : String) (t : EnrollmentToken) (d : Dict EnrollmentToken)
    → is_some (get k d) ≡ false
    → is_spent (find_token h d) ≡ true
    → is_spent (find_token h (put k t d)) ≡ true
unfolding find_token get put
find_token-put_new h k t [] n s = cc
find_token-put_new h k t ((j, u) ∷ d) n s = ground (arith, find_token-put_new h k t d)

find_token-put_revoked :
    (h k : String) (t : EnrollmentToken) (now : ℕ) (d : Dict EnrollmentToken)
    → get k d ≡ some t
    → is_spent (find_token h d) ≡ true
    → is_spent (find_token h (put k (record t { revoked_at = some now }) d)) ≡ true
unfolding find_token get put
find_token-put_revoked h k t now [] e s = cc
find_token-put_revoked h k t now ((j, u) ∷ d) e s =
    ground (arith, find_token-put_revoked h k t now d, eq_iff u.token_hash h)

find_token-mark_used :
    (h hash : String) (now : ℕ) (id : String) (d : Dict EnrollmentToken)
    → is_spent (find_token h d) ≡ true
    → is_spent (find_token h (mark_used hash now id d)) ≡ true
unfolding find_token mark_used
find_token-mark_used h hash now id [] s = cc
find_token-mark_used h hash now id ((j, u) ∷ d) s =
    ground (arith, find_token-mark_used h hash now id d)

pub mark_used-spent :
    (h : String) (now : ℕ) (id : String) (d : Dict EnrollmentToken)
    → is_some (find_token h d) ≡ true
    → is_spent (find_token h (mark_used h now id d)) ≡ true
unfolding find_token mark_used
mark_used-spent h now id [] s = cc
mark_used-spent h now id ((j, u) ∷ d) s = ground (arith, mark_used-spent h now id d)

pub find_token-hash :
    (h : String) (t : EnrollmentToken) (d : Dict EnrollmentToken)
    → find_token h d ≡ some t
    → t.token_hash ≡ h
unfolding find_token
find_token-hash h t [] s = cc
find_token-hash h t ((j, u) ∷ d) s = ground (arith, find_token-hash h t d, eq_iff u.token_hash h)

module _ (sha256 : String → String) where
  -- the database after a request
  unfoldable pub serve : Request → Db → Db
  serve (enroll p body id token) db = (enroll_device sha256 p body id token db).1
  serve (create_token p label ttl id token now) db =
      (create_enrollment_token sha256 p label ttl id token now db).1
  serve (revoke_token p id now) db = (revoke_enrollment_token sha256 p id now db).1
  serve (enroll_with body token id secret now) db =
      (enroll_device_with_token sha256 body token id secret now db).1
  serve (rotate p id token now) db = (rotate_device_credential sha256 p id token now db).1
  serve (renew id authorization token now) db =
      (renew_device_credential sha256 id authorization token now db).1
  serve (revoke p id reason now) db = (revoke_device sha256 p id reason now db).1

  unfoldable pub serve_all : List Request → Db → Db
  unfolding serve
  serve_all [] db = db
  serve_all (r ∷ rs) db = serve_all rs (serve r db)

  module _ (k : String) where
    enroll_found-Revoked :
        (body : DeviceEnroll) (id secret : String) (now : ℕ) (o : Option EnrollmentToken) (db : Db)
        → Revoked k db
        → Revoked k (enroll_found sha256 body id secret now o db).1
    enroll_found-Revoked body id secret now none db h = h
    enroll_found-Revoked body id secret now (some t) db h =
        ground (
          arith,
          get-put id k (new_device sha256 id t.tenant_id body secret) db.devices,
          eq_iff id k,
        )

    write_rotated-Revoked :
        (p : Principal) (actor via id token : String) (now : ℕ) (d : Device) (db : Db)
        → get id db.devices ≡ some d
        → Revoked k db
        → Revoked k (write_rotated sha256 p actor via id token now d db)
    write_rotated-Revoked p actor via id token now d db e h =
        ground (arith, get-put id k (rotated sha256 d token now) db.devices, eq_iff id k)

    pub serve-Revoked : (r : Request) (db : Db) → Revoked k db → Revoked k (serve r db)
    unfolding serve enroll_device create_enrollment_token revoke_enrollment_token
        enroll_device_with_token rotate_device_credential renew_device_credential revoke_device
    serve-Revoked (enroll p body id token) db h =
        depends-keeps (Revoked k) (require_roles administrators p) _
          (λ q db' h'. ground (
            arith,
            get-put id k (new_device sha256 id q.tenant_id body token) db'.devices,
            eq_iff id k,
          ))
          db h
    serve-Revoked (create_token p label ttl id token now) db h =
        depends-keeps (Revoked k) (require_roles administrators p) _ (λ q db' h'. ground arith) db h
    serve-Revoked (revoke_token p id now) db h =
        depends-keeps (Revoked k) (require_roles administrators p) _
          (λ q db' h'.
            depends-keeps (Revoked k) (own_token q.tenant_id (get id db'.tokens)) _
              (λ t db'' h''. h'') db' h')
          db h
    serve-Revoked (enroll_with body token id secret now) db h =
        enroll_found-Revoked body id secret now (find_token (sha256 token) db.tokens) db h
    serve-Revoked (rotate p id token now) db h =
        depends-keeps (Revoked k) (require_roles administrators p) _
          (λ q db' h'.
            depends-case (Revoked k) (own_device q.tenant_id (get id db'.devices)) _ db'
              (λ d e. ground (
                arith,
                write_rotated-Revoked q q.actor_id "admin" id token now d db'
                    (own_device-ok q.tenant_id (get id db'.devices) d e),
              ))
              h')
          db h
    serve-Revoked (renew id authorization token now) db h =
        depends-keeps (Revoked k) (require_agent sha256 id authorization db) _
          (λ q db' h'.
            depends-case (Revoked k) (own_device q.tenant_id (get id db'.devices)) _ db'
              (λ d e.
                write_rotated-Revoked q d.id "self_service" id token now d db'
                  (own_device-ok q.tenant_id (get id db'.devices) d e) h')
              h')
          db h
    serve-Revoked (revoke p id reason now) db h =
        depends-keeps (Revoked k) (require_roles administrators p) _
          (λ q db' h'.
            depends-case (Revoked k) (own_device q.tenant_id (get id db'.devices)) _ db'
              (λ d e. ground (
                arith,
                get-put id k
                    (record d {
                      active = false;
                      revoked_at = some now;
                      revoked_reason = some reason;
                    })
                    db'.devices,
                eq_iff id k,
              ))
              h')
          db h

  module _ (h : String) where
    enroll_found-Spent :
        (body : DeviceEnroll) (id secret : String) (now : ℕ) (o : Option EnrollmentToken) (db : Db)
        → Spent h db
        → Spent h (enroll_found sha256 body id secret now o db).1
    enroll_found-Spent body id secret now none db s = s
    enroll_found-Spent body id secret now (some t) db s =
        ground (arith, find_token-mark_used h t.token_hash now id db.tokens)

    pub serve-Spent : (r : Request) (db : Db) → Spent h db → Spent h (serve r db)
    unfolding serve enroll_device create_enrollment_token revoke_enrollment_token
        enroll_device_with_token rotate_device_credential renew_device_credential revoke_device
    serve-Spent (enroll p body id token) db s =
        depends-keeps (Spent h) (require_roles administrators p) _ (λ q db' s'. ground arith) db s
    serve-Spent (create_token p label ttl id token now) db s =
        depends-keeps (Spent h) (require_roles administrators p) _
          (λ q db' s'.
            ground (
              arith,
              find_token-put_new h id (new_token sha256 q label ttl id token now) db'.tokens,
            ))
          db s
    serve-Spent (revoke_token p id now) db s =
        depends-keeps (Spent h) (require_roles administrators p) _
          (λ q db' s'.
            depends-case (Spent h) (own_token q.tenant_id (get id db'.tokens)) _ db'
              (λ t e.
                find_token-put_revoked h id t now db'.tokens
                  (own_token-ok q.tenant_id (get id db'.tokens) t e) s')
              s')
          db s
    serve-Spent (enroll_with body token id secret now) db s =
        enroll_found-Spent body id secret now (find_token (sha256 token) db.tokens) db s
    serve-Spent (rotate p id token now) db s =
        depends-keeps (Spent h) (require_roles administrators p) _
          (λ q db' s'.
            depends-keeps (Spent h) (own_device q.tenant_id (get id db'.devices)) _
              (λ d db'' s''. ground arith) db' s')
          db s
    serve-Spent (renew id authorization token now) db s =
        depends-keeps (Spent h) (require_agent sha256 id authorization db) _
          (λ q db' s'.
            depends-keeps (Spent h) (own_device q.tenant_id (get id db'.devices)) _
              (λ d db'' s''. s'') db' s')
          db s
    serve-Spent (revoke p id reason now) db s =
        depends-keeps (Spent h) (require_roles administrators p) _
          (λ q db' s'.
            depends-keeps (Spent h) (own_device q.tenant_id (get id db'.devices)) _
              (λ d db'' s''. s'') db' s')
          db s
