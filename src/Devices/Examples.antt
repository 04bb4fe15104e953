-- ===== src/Devices/Examples.antt =====
-- A device, its enrolment, rotation and revocation.
use helpdesktool.Prelude.{
  ◌≡◌, refl, String, true, false, some, none, List, [], ◌∷◌, ◌==◌, if◌then◌else◌,
}
use helpdesktool.Prelude.Dict.{get}
use helpdesktool.Prelude.Text.{◌++◌}
use helpdesktool.Prelude.Exec.{Result, ok, err}
use helpdesktool.Auth.{Principal, require_roles}
use helpdesktool.Idempotency.{HttpError, unauthorized}
use helpdesktool.Devices.{
  Device, EnrollmentToken, Db, DeviceEnroll, Enrolled, find_token, mark_used,
  enroll_device_with_token, rotate_device_credential, require_agent, revoke_device,
}
use helpdesktool.Devices.Secrets.{Request, serve_all}
use helpdesktool.Devices.Lifecycle.{
  agent_of, revoke_device-refused, enroll_device_with_token_once, rotate-require_agent,
}

abbrev sha256 : String → String
sha256 s = "#" ++ s

abbrev laptop : Device
laptop = record {
  id = "d1";
  tenant_id = "t1";
  external_id = "asset-7";
  hostname = "host";
  os = "linux";
  agent_key_hash = "#first";
  active = true;
  revoked_at = none;
  revoked_reason = none;
  credential_rotated_at = none;
}

abbrev token : EnrollmentToken
token = record {
  id = "e1";
  tenant_id = "t1";
  token_hash = "#join";
  created_by = "u1";
  label = "lab";
  expires_at = 60;
  used_at = none;
  used_by_device_id = none;
  revoked_at = none;
}

abbrev start : Db
start = record { devices = ("d1", laptop) ∷ []; tokens = ("e1", token) ∷ []; audit = [] }

abbrev admin : Principal
admin = record { tenant_id = "t1"; actor_id = "u1"; role = "admin" }

abbrev body : DeviceEnroll
body = record { external_id = "asset-8"; hostname = "other"; os = "linux" }

abbrev gone : Device
gone = record laptop { active = false; revoked_at = some 5; revoked_reason = some "lost" }

abbrev later : List Request
later = Request.renew "d1" "Bearer first" "second" 6 ∷ []

revoked :
    revoke_device sha256 admin "d1" "lost" 5 start
    ≡ (ok gone, (revoke_device sha256 admin "d1" "lost" 5 start).1)
unfolding revoke_device require_roles get
revoked = refl

revoke_device-refused_example :
    require_agent sha256 "d1" "Bearer first"
      (serve_all sha256 later (revoke_device sha256 admin "d1" "lost" 5 start).1)
    ≡ err unauthorized
revoke_device-refused_example =
    revoke_device-refused sha256 admin "d1" "lost" 5 start
      (revoke_device sha256 admin "d1" "lost" 5 start).1 gone later "Bearer first" revoked

abbrev joined : Result HttpError Enrolled × Db
joined = enroll_device_with_token sha256 body "join" "d2" "secret" 10 start

enrolled :
    joined ≡ (ok (record { device_id = "d2"; tenant_id = "t1"; agent_token = "secret" }), joined.1)
unfolding enroll_device_with_token find_token mark_used get
enrolled = refl

enroll_device_with_token_once_example :
    enroll_device_with_token sha256 body "join" "d3" "other" 11 (serve_all sha256 later joined.1)
    ≡ (err unauthorized, serve_all sha256 later joined.1)
enroll_device_with_token_once_example =
    enroll_device_with_token_once sha256 body body "join" "d2" "d3" "secret" "other" 10 11 start
      joined.1 (record { device_id = "d2"; tenant_id = "t1"; agent_token = "secret" }) later
      enrolled

rotation :
    rotate_device_credential sha256 admin "d1" "second" 5 start
    ≡ (ok "second", (rotate_device_credential sha256 admin "d1" "second" 5 start).1)
unfolding rotate_device_credential require_roles get
rotation = refl

rotate-require_agent_example :
    (d : Device) × (get "d1" start.devices ≡ some d)
    × (◌≡◌ {A = String} "second" "second")
    × (require_agent sha256 "d1"
          ("Bearer " ++ "first")
          (rotate_device_credential sha256 admin "d1" "second" 5 start).1
        ≡ (if sha256 "second" == sha256 "first" then ok (agent_of d) else err unauthorized))
rotate-require_agent_example =
    rotate-require_agent sha256 admin "d1" "second" "first" 5 start
      (rotate_device_credential sha256 admin "d1" "second" 5 start).1 "second" rotation
