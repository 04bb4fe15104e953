-- ===== src/Incidents/Examples.antt =====
-- A disk that fills up.
use helpdesktool.Prelude.{◌≡◌, ◌⊎◌, refl, true, [], ◌∷◌}
use helpdesktool.Prelude.Dict.{get, put}
use helpdesktool.Prelude.Exec.{Result, ok}
use helpdesktool.Models.{Fields}
use helpdesktool.Auth.{User}
use helpdesktool.Incidents.{
  Incident, Db, Observation, IncidentError, latest, new_incident, correlate_incident,
}
use helpdesktool.Incidents.Correlation.{Continued, Opened, correlate_incident-Continued}

abbrev ann : User
ann = record {
  id = "u1";
  tenant_id = "t1";
  email = "ann@example.com";
  role = "owner";
  active = true;
}

abbrev start : Db
start = record { incidents = []; tickets = []; users = ann ∷ []; audit = [] }

abbrev full : Observation
full = record {
  tenant_id = "t1";
  device_id = "d1";
  incident_type = "low_disk_space";
  severity = "high";
  summary = "Low disk space on /";
  correlation_key = "low_disk_space:/";
  evidence = Fields.end;
  observed_at = 100;
}

abbrev first_seen : Result IncidentError Incident × Db
first_seen = correlate_incident full 24 "k1" "i1" start

seen : first_seen ≡ (ok (new_incident full "i1" "k1"), first_seen.1)
unfolding correlate_incident get put latest
seen = refl

correlate_incident-Continued_example :
    Continued full 24 start (new_incident full "i1" "k1") first_seen.1
    ⊎ Opened full 24 "k1" "i1" start (new_incident full "i1" "k1") first_seen.1
correlate_incident-Continued_example =
    correlate_incident-Continued full 24 "k1" "i1" start first_seen.1 (new_incident full "i1" "k1")
      seen
