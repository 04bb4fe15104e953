-- ===== src/Incidents/Correlation.antt =====
-- What becomes of an observation: an incident that goes on, or a new one with a ticket.
use helpdesktool.Prelude.{
  arith, ℕ, ◌+◌, ◌*◌, ◌≤◌, eq_iff, String, Bool, true, false, Option, none, some, List, [], ◌∷◌,
  Elem, eq_refl, keep, leb→le, is_some, All, ◌≡◌, ◌⊎◌, inl, inr, refl, sym, ap, ◌∙◌, Bool-cases,
  Option-cases,
}
use helpdesktool.Prelude.Dict.{Dict, get, put, get-put, values}
use helpdesktool.Prelude.Exec.{Result, ok}
use helpdesktool.Auth.{User, first}
use helpdesktool.Auth.Principals.{Elem-keep}
use helpdesktool.Incidents.{
  Incident, IncidentStatus, opened, investigating, resolved, closed, Ticket, or_else, is_owner,
  is_active_of, Db, Observation, IncidentError, latest, is_recent, seen_again, owner_of, new_ticket,
  new_incident, open_incident, correlate_found, correlate_incident,
}
use helpdesktool.Incidents.Latest.{All-map, latest-none, Older, latest-newest, latest-Elem}

-- the incident is of the observation's tenant, device, type and key, and was last seen within the window
pub record IsRecent (o : Observation) (hours : ℕ) (q : Incident) : Type 0 where
  pub tenant : q.tenant_id ≡ o.tenant_id
  pub device : q.device_id ≡ o.device_id
  pub kind : q.incident_type ≡ o.incident_type
  pub key : q.correlation_key ≡ o.correlation_key
  pub in_window : o.observed_at ≤ q.last_observed_at + 60 * hours

is_recent-IsRecent :
    (o : Observation) (hours : ℕ) (q : Incident) → is_recent o hours q ≡ true → IsRecent o hours q
is_recent-IsRecent o hours q h = record {
  tenant = ground (arith, eq_iff q.tenant_id o.tenant_id);
  device = ground (arith, eq_iff q.device_id o.device_id);
  kind = ground (arith, eq_iff q.incident_type o.incident_type);
  key = ground (arith, eq_iff q.correlation_key o.correlation_key);
  in_window = leb→le o.observed_at (q.last_observed_at + 60 * hours) (ground arith);
}

not_recent :
    (o : Observation) (hours : ℕ) (q : Incident)
    → is_recent o hours q ≡ false
    → ¬ IsRecent o hours q
not_recent o hours q h r = ground (
  arith,
  h,
  r.in_window,
  eq_iff q.tenant_id o.tenant_id,
  eq_iff q.device_id o.device_id,
  eq_iff q.incident_type o.incident_type,
  eq_iff q.correlation_key o.correlation_key,
  r.tenant,
  r.device,
  r.kind,
  r.key,
)

older :
    (o : Observation) (hours : ℕ) (q p : Incident)
    → Older (is_recent o hours) q p
    → (¬ IsRecent o hours p) ⊎ (p.last_observed_at ≤ q.last_observed_at)
older o hours q p (inl out) = inl (not_recent o hours p out)
older o hours q p (inr l) = inr l

first-Elem :
    (p : User → Bool) (users : List User) (u : User)
    → first (keep p users) ≡ some u
    → Elem u users × (p u ≡ true)
first-Elem p [] u h = cc
first-Elem p (x ∷ users) u h = elim (Bool-cases (p x)) [
  | inr out ↦ let (m, t) = first-Elem p users u (rw out at h) in (inr m, t)
  | inl kept ↦ let h' = rw kept at h in let e : u ≡ x = cc in (inl e, ap p e ∙ kept)
]

-- an active user of the tenant
pub record IsMember (tenant_id : String) (users : List User) (u : User) : Type 0 where
  pub known : Elem u users
  pub active : u.active ≡ true
  pub own : u.tenant_id ≡ tenant_id

owner_of-IsMember :
    (tenant_id : String) (users : List User) (u : User)
    → owner_of tenant_id users ≡ some u
    → IsMember tenant_id users u
owner_of-IsMember tenant_id users u h =
    go (first (keep is_owner (keep (is_active_of tenant_id) users))) refl h
  where
    member : Elem u users × (is_active_of tenant_id u ≡ true) → IsMember tenant_id users u
    member (m, t) = record {
      known = m;
      active = ground arith;
      own = ground (arith, eq_iff u.tenant_id tenant_id);
    }

    go :
        (o : Option User)
        → first (keep is_owner (keep (is_active_of tenant_id) users)) ≡ o
        → or_else o (first (keep (is_active_of tenant_id) users)) ≡ some u
        → IsMember tenant_id users u
    go none e k = member (first-Elem (is_active_of tenant_id) users u k)
    go (some v) e k =
        let (m, _) = first-Elem is_owner (keep (is_active_of tenant_id) users) u (e ∙ k) in
        member (Elem-keep (is_active_of tenant_id) u users m)

-- an incident that was over is open again, and any other keeps its status
abbrev pub IsReopened : Incident → Incident → Type 0
IsReopened q r =
    (((q.status ≡ resolved) ⊎ (q.status ≡ closed)) × (r.status ≡ opened) × (r.resolved_at ≡ none))
    ⊎ (((q.status ≡ opened) ⊎ (q.status ≡ investigating))
        × (r.status ≡ q.status)
        × (r.resolved_at ≡ q.resolved_at))

seen_again-IsReopened :
    (o : Observation) (q : Incident) (s : IncidentStatus)
    → q.status ≡ s
    → IsReopened q (seen_again o q)
seen_again-IsReopened o q resolved e = rw e (inl (inl refl, refl, refl))
seen_again-IsReopened o q closed e = rw e (inl (inr refl, refl, refl))
seen_again-IsReopened o q opened e = rw e (inr (inl refl, refl, refl))
seen_again-IsReopened o q investigating e = rw e (inr (inr refl, refl, refl))

-- the incident goes on: it is the newest recent one, and no ticket is written
pub record Continued (o : Observation) (hours : ℕ) (db : Db) (r : Incident) (db' : Db)
    : Type 0 where
  pub before : Incident
  pub in_table : Elem before (values db.incidents)
  pub recent : IsRecent o hours before
  pub newest :
      All
        (λ q. (¬ IsRecent o hours q) ⊎ (q.last_observed_at ≤ before.last_observed_at))
        (values db.incidents)
  pub same_id : r.id ≡ before.id
  pub same_ticket : r.ticket_id ≡ before.ticket_id
  pub counted : r.occurrence_count ≡ before.occurrence_count + 1
  pub seen : r.last_observed_at ≡ o.observed_at
  pub described : (r.severity ≡ o.severity) × (r.evidence ≡ o.evidence)
  pub reopened : IsReopened before r
  pub stored : get before.id db'.incidents ≡ some r
  pub same_tickets : db'.tickets ≡ db.tickets

-- no recent incident was there, and a new one has a new ticket by a user of the tenant
pub record Opened (o : Observation) (hours : ℕ) (ticket_id incident_id : String) (db : Db)
    (r : Incident) (db' : Db) : Type 0 where
  pub none_recent : All (λ q. ¬ IsRecent o hours q) (values db.incidents)
  pub recent : IsRecent o hours r
  pub with_ticket : r.ticket_id ≡ some ticket_id
  pub first_time :
      (r.occurrence_count ≡ 1) × (r.status ≡ opened) × (r.last_observed_at ≡ o.observed_at)
  pub stored : get incident_id db'.incidents ≡ some r
  pub owner : User
  pub by_member : IsMember o.tenant_id db.users owner
  pub no_ticket : get ticket_id db.tickets ≡ none
  pub ticket : Ticket
  pub found_ticket : get ticket_id db'.tickets ≡ some ticket
  pub in_name : ticket.created_by ≡ owner.id
  pub about : (ticket.tenant_id ≡ o.tenant_id) × (ticket.device_id ≡ some o.device_id)

put_found : {V : Type 0} (k : String) (v : V) (d : Dict V) → get k (put k v d) ≡ some v
put_found k v d = get-put k k v d ∙ rw (eq_refl k) refl

open_incident-Opened :
    (o : Observation) (hours : ℕ) (ticket_id incident_id : String) (x : Option User) (db : Db)
    (r : Incident) (db' : Db)
    → owner_of o.tenant_id db.users ≡ x
    → All (λ q. is_recent o hours q ≡ false) (values db.incidents)
    → open_incident o ticket_id incident_id x db ≡ (ok r, db')
    → Opened o hours ticket_id incident_id db r db'
open_incident-Opened o hours ticket_id incident_id none db r db' u f h = cc
open_incident-Opened o hours ticket_id incident_id (some owner) db r db' u f h =
    elim (Option-cases (get ticket_id db.tickets)) [
      | inr (t, taken) ↦ let h' = rw taken at h in cc
      | inl free ↦ elim (Bool-cases (is_some (get incident_id db.incidents))) [
        | inl taken ↦ let h' = rw (free, taken) at h in cc
        | inr new ↦
            let h' = rw (free, new) at h in
            let e : r ≡ new_incident o incident_id ticket_id = cc in
            record {
              none_recent =
                  All-map (λ q. is_recent o hours q ≡ false) (λ q. ¬ IsRecent o hours q)
                    (values db.incidents) (not_recent o hours) f;
              recent = rw e (record {
                tenant = refl;
                device = refl;
                kind = refl;
                key = refl;
                in_window = omega arith;
              });
              with_ticket = rw e refl;
              first_time = rw e (refl, refl, refl);
              owner = owner;
              by_member = owner_of-IsMember o.tenant_id db.users owner u;
              no_ticket = free;
              stored =
                  ap (λ (x : Result IncidentError Incident × Db). get incident_id x.1.incidents)
                    (sym h')
                  ∙ (put_found incident_id (new_incident o incident_id ticket_id) db.incidents
                      ∙ ap some (sym e));
              ticket = new_ticket o ticket_id owner;
              in_name = refl;
              about = (refl, refl);
              found_ticket =
                  ap (λ (x : Result IncidentError Incident × Db). get ticket_id x.1.tickets)
                    (sym h')
                  ∙ put_found ticket_id (new_ticket o ticket_id owner) db.tickets;
            }
      ]
    ]

-- An observation that is correlated either continues the newest incident of its device, type and key within the
-- window, which has one occurrence more, is open again if it was over, and gets no ticket; or there is no such
-- incident, and a new one is opened with a new ticket, in the name of an active user of the tenant.
pub correlate_incident-Continued :
    (o : Observation) (hours : ℕ) (ticket_id incident_id : String) (db db' : Db) (r : Incident)
    → correlate_incident o hours ticket_id incident_id db ≡ (ok r, db')
    → Continued o hours db r db' ⊎ Opened o hours ticket_id incident_id db r db'
unfolding correlate_incident
correlate_incident-Continued o hours ticket_id incident_id db db' r h =
    go (latest (keep (is_recent o hours) (values db.incidents))) refl h
  where
    go :
        (x : Option Incident)
        → latest (keep (is_recent o hours) (values db.incidents)) ≡ x
        → correlate_found o ticket_id incident_id x db ≡ (ok r, db')
        → Continued o hours db r db' ⊎ Opened o hours ticket_id incident_id db r db'
    go (some q) e k =
        let same : r ≡ seen_again o q = cc in
        let (m, t) = latest-Elem (is_recent o hours) (values db.incidents) q e in
        inl (record {
          before = q;
          in_table = m;
          recent = is_recent-IsRecent o hours q t;
          newest =
              All-map (Older (is_recent o hours) q)
                (λ p. (¬ IsRecent o hours p) ⊎ (p.last_observed_at ≤ q.last_observed_at))
                (values db.incidents) (older o hours q)
                (latest-newest (is_recent o hours) (values db.incidents) q e);
          same_id = rw same refl;
          same_ticket = rw same refl;
          counted = rw same (omega arith);
          seen = rw same refl;
          described = rw same (refl, refl);
          reopened = rw same (seen_again-IsReopened o q q.status refl);
          stored =
              ap (λ (x : Result IncidentError Incident × Db). get q.id x.1.incidents) (sym k)
              ∙ (put_found q.id (seen_again o q) db.incidents ∙ ap some (sym same));
          same_tickets = ap (λ (x : Result IncidentError Incident × Db). x.1.tickets) (sym k);
        })
    go none e k = inr (
        open_incident-Opened o hours ticket_id incident_id (owner_of o.tenant_id db.users) db r db'
          refl (latest-none (is_recent o hours) (values db.incidents) e) k)
