-- ===== src/Devices/Lifecycle.antt =====
-- The life of a credential, over any requests: an enrolment token serves once, a revoked device stays out,
-- and a new credential is the only one that is let in.
use helpdesktool.Prelude.{
  ℕ, String, ◌≡◌, refl, ap, sym, ◌∙◌, inl, inr, Bool, true, false, not, Option, none, some, List,
  [], ◌∷◌, ◌==◌, arith, eq_refl, if◌then◌else◌, Bool-cases,
}
use helpdesktool.Prelude.Dict.{get, put, get-put}
use helpdesktool.Prelude.Text.{◌++◌, after_prefix, after_prefix-append}
use helpdesktool.Prelude.Exec.{Result, ok, err}
use helpdesktool.Auth.{Principal, require_roles}
use helpdesktool.Idempotency.{HttpError, unauthorized, conflict}
use helpdesktool.Devices.{
  Device, EnrollmentToken, Db, DeviceEnroll, Enrolled, administrators, depends, own_device,
  is_taken, find_token, is_usable, enroll_found, enroll_device_with_token, rotated,
  rotate_device_credential, admit_device, require_agent, revoke_device, write_rotated,
}
use helpdesktool.Devices.Secrets.{
  Request, serve, serve_all, is_revoked, is_spent, Revoked, Spent, serve-Revoked, serve-Spent,
  own_device-ok, mark_used-spent, find_token-hash,
}

-- who a device is, once its credential is accepted
abbrev pub agent_of : Device → Principal
agent_of d = record { tenant_id = d.tenant_id; actor_id = d.id; role = "agent" }

module _ (sha256 : String → String) where
  serve_all-Revoked :
      (k : String) (rs : List Request) (db : Db) → Revoked k db → Revoked k (serve_all sha256 rs db)
  unfolding serve_all
  serve_all-Revoked k [] db h = h
  serve_all-Revoked k (r ∷ rs) db h =
      serve_all-Revoked k rs (serve sha256 r db) (serve-Revoked sha256 k r db h)

  serve_all-Spent :
      (t : String) (rs : List Request) (db : Db) → Spent t db → Spent t (serve_all sha256 rs db)
  unfolding serve_all
  serve_all-Spent t [] db h = h
  serve_all-Spent t (r ∷ rs) db h =
      serve_all-Spent t rs (serve sha256 r db) (serve-Spent sha256 t r db h)

  Revoked-refused :
      (k authorization : String) (db : Db)
      → Revoked k db
      → require_agent sha256 k authorization db ≡ err unauthorized
  unfolding require_agent
  Revoked-refused k authorization db h =
      go (after_prefix "Bearer " authorization) (get k db.devices) h
    where
      go :
          (o : Option String) (d : Option Device)
          → is_revoked d ≡ true
          → (elim o [ none ↦ err unauthorized | some token ↦ admit_device sha256 (sha256 token) d ])
            ≡ err unauthorized
      go none d r = refl
      go (some token) none r = refl
      go (some token) (some d) r = ground arith

  -- a request that passes both dependencies has done what its handler does
  depends-ok :
      {A B : Type 0} (o : Result HttpError A) (f : A → Db → Result HttpError B × Db) (db db' : Db)
      (b : B)
      → depends o f db ≡ (ok b, db')
      → (a : A) × (o ≡ ok a) × (f a db ≡ (ok b, db'))
  depends-ok (ok a) f db db' b h = (a, refl, h)
  depends-ok (err e) f db db' b h = cc

  revoke_device-Revoked :
      (p : Principal) (k reason : String) (now : ℕ) (db db' : Db) (d : Device)
      → revoke_device sha256 p k reason now db ≡ (ok d, db')
      → Revoked k db'
  unfolding revoke_device
  revoke_device-Revoked p k reason now db db' d h =
      let (q, e, f) = depends-ok (require_roles administrators p) _ db db' d h in
      let (c, own, g) = depends-ok (own_device q.tenant_id (get k db.devices)) _ db db' d f in
      let c' : Device = record c {
        active = false;
        revoked_at = some now;
        revoked_reason = some reason;
      } in
      rw (← (ap (λ (x : Result HttpError Device × Db). x.1.devices) g))
        (rw (get-put k k c' db.devices, eq_refl k))

  -- A device that was revoked is refused from then on, whatever credential it shows and whatever requests
  -- are served in between, enrolments, rotations and renewals included.
  pub revoke_device-refused :
      (p : Principal) (k reason : String) (now : ℕ) (db db' : Db) (d : Device) (rs : List Request)
      (authorization : String)
      → revoke_device sha256 p k reason now db ≡ (ok d, db')
      → require_agent sha256 k authorization (serve_all sha256 rs db') ≡ err unauthorized
  revoke_device-refused p k reason now db db' d rs authorization h =
      Revoked-refused k authorization (serve_all sha256 rs db')
        (serve_all-Revoked k rs db' (revoke_device-Revoked p k reason now db db' d h))

  enroll_found-Spent :
      (h : String) (body : DeviceEnroll) (id secret : String) (now : ℕ) (o : Option EnrollmentToken)
      (db db' : Db) (r : Enrolled)
      → find_token h db.tokens ≡ o
      → enroll_found sha256 body id secret now o db ≡ (ok r, db')
      → Spent h db'
  enroll_found-Spent h body id secret now none db db' r e k = cc
  enroll_found-Spent h body id secret now (some t) db db' r e k =
      elim (Bool-cases (is_usable now t)) [
        | inr bad ↦ ground (arith, bad)
        | inl good ↦ elim (Bool-cases (is_taken id t.tenant_id body.external_id db.devices)) [
          | inl taken ↦ ground (arith, good, taken)
          | inr free ↦
              let own = find_token-hash h t db.tokens e in
              rw
                (
                  ← (
                      ap (λ (x : Result HttpError Enrolled × Db). x.1.tokens)
                        (rw (good, free) at k)),
                  own,
                )
                (mark_used-spent h now id db.tokens (rw e refl))
        ]
      ]

  Spent-refused :
      (h : String) (body : DeviceEnroll) (id secret : String) (now : ℕ) (o : Option EnrollmentToken)
      (db : Db)
      → is_spent o ≡ true
      → enroll_found sha256 body id secret now o db ≡ (err unauthorized, db)
  Spent-refused h body id secret now none db s = refl
  Spent-refused h body id secret now (some t) db s = ground arith

  -- An enrolment token serves once: after an enrolment with it every further one with it is refused and
  -- changes nothing, whatever requests are served in between.
  pub enroll_device_with_token_once :
      (body body' : DeviceEnroll) (token id id' secret secret' : String) (now now' : ℕ)
      (db db' : Db) (r : Enrolled) (rs : List Request)
      → enroll_device_with_token sha256 body token id secret now db ≡ (ok r, db')
      → enroll_device_with_token sha256 body' token id' secret' now' (serve_all sha256 rs db')
        ≡ (err unauthorized, serve_all sha256 rs db')
  unfolding enroll_device_with_token
  enroll_device_with_token_once body body' token id id' secret secret' now now' db db' r rs h =
      let last = serve_all sha256 rs db' in
      Spent-refused (sha256 token) body' id' secret' now' (find_token (sha256 token) last.tokens)
        last
        (serve_all-Spent (sha256 token) rs db' (
          enroll_found-Spent (sha256 token) body id secret now (find_token (sha256 token) db.tokens)
            db db' r refl h))

  require_agent_shown :
      (k shown : String) (db : Db) (d : Device)
      → get k db.devices ≡ some d
      → d.active ≡ true
      → require_agent sha256 k ("Bearer " ++ shown) db
        ≡ (if d.agent_key_hash == sha256 shown then ok (agent_of d) else err unauthorized)
  unfolding require_agent
  require_agent_shown k shown db d e live =
      ap
        (λ (o : Option String). elim o [
          | none ↦ err unauthorized
          | some token ↦ admit_device sha256 (sha256 token) (get k db.devices)
        ])
        (after_prefix-append "Bearer " shown)
      ∙ rw e (ground (arith, live))

  abbrev refused : Db → Result HttpError String × Db
  refused db = (err conflict, db)

  abbrev written : Principal → String → String → ℕ → Device → Db → Result HttpError String × Db
  written q k token now d db =
      (ok token, write_rotated sha256 q q.actor_id "admin" k token now d db)

  rotated_found :
      (b : Bool) (q : Principal) (k token : String) (now : ℕ) (d : Device) (db db' : Db)
      (answer : String)
      → (if not b then refused db else written q k token now d db) ≡ (ok answer, db')
      → (b ≡ true)
        × (answer ≡ token)
        × (db'.devices ≡ put k (rotated sha256 d token now) db.devices)
  rotated_found false q k token now d db db' answer h = cc
  rotated_found true q k token now d db db' answer h =
      (refl, ground arith, sym (ap (λ (x : Result HttpError String × Db). x.1.devices) h))

  rotated_seen :
      (q : Principal) (k token shown : String) (now : ℕ) (d : Device) (db db' : Db)
      (answer : String)
      → (if not d.active then refused db else written q k token now d db) ≡ (ok answer, db')
      → (answer ≡ token)
        × (require_agent sha256 k ("Bearer " ++ shown) db'
            ≡ (if sha256 answer == sha256 shown then ok (agent_of d) else err unauthorized))
  rotated_seen q k token shown now d db db' answer g =
      let (live, same, devices) = rotated_found d.active q k token now d db db' answer g in
      let stored : get k db'.devices ≡ some (rotated sha256 d token now) =
        rw (devices, get-put k k (rotated sha256 d token now) db.devices, eq_refl k) refl in
      (same, rw same (require_agent_shown k shown db' (rotated sha256 d token now) stored live))

  -- After a rotation the device is let in with the credential that the rotation gave out, and with no other
  -- whose hash is another.
  pub rotate-require_agent :
      (p : Principal) (k token shown : String) (now : ℕ) (db db' : Db) (answer : String)
      → rotate_device_credential sha256 p k token now db ≡ (ok answer, db')
      → (d : Device) × (get k db.devices ≡ some d)
        × (answer ≡ token)
        × (require_agent sha256 k ("Bearer " ++ shown) db'
            ≡ (if sha256 answer == sha256 shown then ok (agent_of d) else err unauthorized))
  unfolding rotate_device_credential
  rotate-require_agent p k token shown now db db' answer h =
      let (q, e, f) = depends-ok (require_roles administrators p) _ db db' answer h in
      let (d, own, g) = depends-ok (own_device q.tenant_id (get k db.devices)) _ db db' answer f in
      let (same, seen) = rotated_seen q k token shown now d db db' answer g in
      (d, own_device-ok q.tenant_id (get k db.devices) d own, same, seen)
