-- ===== src/Baseline/Examples.antt =====
-- A device with its own DNS servers, in a tenant that has a policy.
use helpdesktool.Prelude.{◌≡◌, refl, some, none, List, [], ◌∷◌, keep}
use helpdesktool.Prelude.Exec.{ok}
use helpdesktool.Models.{Value, organizational_policy, device_baseline}
use helpdesktool.Auth.{Principal}
use helpdesktool.Baseline.{
  BaselineEntry, Db, BaselineCreate, is_resolved, entries_of, resolve_known_good,
  resolve_organizational_baseline,
}
use helpdesktool.Baseline.Precedence.{
  find_first, or_else, for_device, for_user, for_all, generic, resolve_known_good-or_else,
}
use helpdesktool.Baseline.Stored.{
  AllSound, Create, create_all, create_all-AllSound, create_all-resolve,
}

abbrev policy : BaselineEntry
policy = record {
  scope = organizational_policy;
  key = "dns.servers";
  value = Value.text "10.0.0.1";
  device_id = none;
  user_id = none;
  description = "";
}

abbrev own_servers : BaselineEntry
own_servers = record policy {
  scope = device_baseline;
  value = Value.text "10.0.0.2";
  device_id = some "d1";
}

abbrev entries : List BaselineEntry
entries = policy ∷ own_servers ∷ []

resolve_known_good-or_else_example :
    resolve_known_good entries "dns.servers" (some "d1") none
    ≡ or_else (find_first (for_device "dns.servers" (some "d1") none) entries) (
        or_else (find_first (for_user "dns.servers" (some "d1") none) entries) (
          or_else
            (find_first (for_all "dns.servers" (some "d1") none) entries)
            (find_first (generic "dns.servers" (some "d1") none) entries)))
resolve_known_good-or_else_example =
    resolve_known_good-or_else "dns.servers" (some "d1") none entries

abbrev empty : Db
empty = record { devices = ("d1", "t1") ∷ []; users = []; baselines = []; audit = [] }

abbrev admin : Principal
admin = record { tenant_id = "t1"; actor_id = "u1"; role = "admin" }

abbrev body : BaselineCreate
body = record {
  scope = device_baseline;
  key = "dns.servers";
  value = Value.text "10.0.0.2";
  device_id = some "d1";
  user_id = none;
  description = "";
}

abbrev requests : List Create
requests = record { id = "b1"; body = body; principal = admin } ∷ []

create_all-AllSound_example : AllSound (create_all requests empty)
create_all-AllSound_example = create_all-AllSound requests empty tt

create_all-resolve_example :
    (es : List BaselineEntry) × (entries_of
        (keep (is_resolved "t1" "dns.servers") (create_all requests empty).baselines)
      ≡ ok es)
    × (resolve_organizational_baseline "dns.servers"
          (some "d1")
          none
          admin
          (create_all requests empty)
        ≡ ok (resolve_known_good es "dns.servers" (some "d1") none))
create_all-resolve_example =
    create_all-resolve requests empty "dns.servers" (some "d1") none admin refl
