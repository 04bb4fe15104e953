-- ===== src/Baseline/Stored.antt =====
-- The entries that the endpoint has stored, after any requests.
use helpdesktool.Prelude.{
  String, Bool, Option, List, [], ◌∷◌, ◌++◌, ◌≡◌, refl, ap, ◌∙◌, inl, inr, ◌==◌, ◌||◌, ◌⊎◌, ◌≢◌,
  none, some, true, false, arith, eq_iff, sym, truthy, if◌then◌else◌, any, keep, All, Bool-cases,
}
use helpdesktool.Prelude.Dict.{Dict, get}
use helpdesktool.Models.Space.{is_blank}
use helpdesktool.Models.{
  BaselineScope, generic_best_practice, organizational_policy, device_baseline, user_baseline,
  current_state,
}
use helpdesktool.Prelude.Exec.{Result, ok, err, continue}
use helpdesktool.Auth.{Principal, require_roles}
use helpdesktool.Idempotency.{HttpError, not_found}
use helpdesktool.Devices.{administrators}
use helpdesktool.Baseline.{
  BaselineEntry, EntryError, scope_text, make, post_init, is_device, is_user, BaselineRow, Db,
  BaselineCreate, own, checked, new_row, insert_row, create_organizational_baseline, is_resolved,
  entry_of, and_entry, entries_of, resolved_in, resolve_organizational_baseline, resolve_known_good,
}

-- the id is given, and the table has it as the tenant's
abbrev pub IsOwn : String → Dict String → Option String → Type 0
IsOwn tenant_id owners o =
    (o ≡ none) ⊎ ((id : String) × (o ≡ some id) × (get id owners ≡ some tenant_id))

-- an id that is not empty
abbrev pub IsNamed : Option String → Type 0
IsNamed o = (id : String) × (o ≡ some id) × (id ≢ "")

abbrev pub IsUnnamed : Option String → Type 0
IsUnnamed o = (o ≡ none) ⊎ (o ≡ some "")

-- an entry about a device names one, an entry about a user names one, and any other names neither
abbrev pub IsScoped : BaselineScope → Option String → Option String → Type 0
IsScoped device_baseline device_id user_id = IsNamed device_id
IsScoped user_baseline device_id user_id = IsNamed user_id
IsScoped _ device_id user_id = IsUnnamed device_id × IsUnnamed user_id

-- a stored row is a valid entry, and its device and user are its tenant's
pub record IsSound (devices users : Dict String) (row : BaselineRow) : Type 0 where
  pub valid : BaselineEntry
  pub made : entry_of row ≡ ok valid
  pub same_scope : row.scope ≡ scope_text valid.scope
  pub has_key : is_blank row.key ≡ false
  pub scoped : IsScoped valid.scope row.device_id row.user_id
  pub own_device : IsOwn row.tenant_id devices row.device_id
  pub own_user : IsOwn row.tenant_id users row.user_id

own-IsOwn :
    (tenant_id : String) (owners : Dict String) (o : Option String)
    → own tenant_id owners o ≡ ok tt
    → IsOwn tenant_id owners o
own-IsOwn tenant_id owners none h = inl refl
own-IsOwn tenant_id owners (some id) h = inr (id, refl, go (get id owners) h)
  where
    go :
        (o : Option String)
        → (elim o [
          | none ↦ err not_found
          | some t ↦ if t == tenant_id then ok tt else err not_found
        ])
          ≡ ok tt
        → o ≡ some tenant_id
    go none k = cc
    go (some t) k = ground (arith, eq_iff t tenant_id)

truthy-IsNamed : (o : Option String) → truthy o ≡ true → IsNamed o
truthy-IsNamed none h = cc
truthy-IsNamed (some s) h = (s, refl, λ e. cc (rw e at h))

not_truthy-IsUnnamed : (o : Option String) → truthy o ≡ false → IsUnnamed o
not_truthy-IsUnnamed none h = inl refl
not_truthy-IsUnnamed (some s) h = inr (ground (arith, eq_iff s ""))

unscoped :
    (e e' : BaselineEntry)
    → post_init e ≡ ok e'
    → (is_device e.scope || is_user e.scope) ≡ false
    → (e' ≡ e) × (is_blank e.key ≡ false) × (IsUnnamed e.device_id × IsUnnamed e.user_id)
unfolding post_init
unscoped e e' h other = (
  ground arith,
  ground arith,
  (not_truthy-IsUnnamed e.device_id (ground arith), not_truthy-IsUnnamed e.user_id (ground arith)),
)

post_init-IsScoped :
    (s : BaselineScope) (e e' : BaselineEntry)
    → e.scope ≡ s
    → post_init e ≡ ok e'
    → (e' ≡ e) × (is_blank e.key ≡ false) × IsScoped s e.device_id e.user_id
unfolding post_init
post_init-IsScoped device_baseline e e' same h =
    let g = rw same at h in (ground arith, ground arith, truthy-IsNamed e.device_id (ground arith))
post_init-IsScoped user_baseline e e' same h =
    let g = rw same at h in (ground arith, ground arith, truthy-IsNamed e.user_id (ground arith))
post_init-IsScoped generic_best_practice e e' same h = unscoped e e' h (rw same refl)
post_init-IsScoped organizational_policy e e' same h = unscoped e e' h (rw same refl)
post_init-IsScoped current_state e e' same h = unscoped e e' h (rw same refl)

abbrev entry_from : BaselineScope → BaselineRow → BaselineEntry
entry_from s r = record {
  scope = s;
  key = r.key;
  value = r.value;
  device_id = r.device_id;
  user_id = r.user_id;
  description = r.description;
}

make-post_init :
    (s : BaselineScope) (r : BaselineRow)
    → make (scope_text s) r.key r.value r.device_id r.user_id r.description
      ≡ post_init (entry_from s r)
unfolding make
make-post_init device_baseline r = refl
make-post_init user_baseline r = refl
make-post_init organizational_policy r = refl
make-post_init generic_best_practice r = refl
make-post_init current_state r = refl

-- the row of a body that passed the checks
new_row-IsSound :
    (id : String) (p : Principal) (body : BaselineCreate) (devices users : Dict String)
    (e : BaselineEntry)
    → entry_of (new_row id p body) ≡ ok e
    → own p.tenant_id devices body.device_id ≡ ok tt
    → own p.tenant_id users body.user_id ≡ ok tt
    → IsSound devices users (new_row id p body)
new_row-IsSound id p body devices users e m d u =
    let row = new_row id p body in
    let (same, key, scoped) =
      post_init-IsScoped body.scope (entry_from body.scope row) e refl
        (sym (make-post_init body.scope row) ∙ m) in
    let scope : e.scope ≡ body.scope = ap (λ (x : BaselineEntry). x.scope) same in
    record {
      valid = e;
      made = m;
      same_scope = ap scope_text (sym scope);
      has_key = key;
      scoped = rw scope scoped;
      own_device = own-IsOwn p.tenant_id devices body.device_id d;
      own_user = own-IsOwn p.tenant_id users body.user_id u;
    }

abbrev pub AllSound : Db → Type 0
AllSound db = All (IsSound db.devices db.users) db.baselines

All-append :
    (P : BaselineRow → Type 0) (rows : List BaselineRow) (row : BaselineRow)
    → All P rows
    → P row
    → All P (rows ++ row ∷ [])
All-append P [] row h k = (k, tt)
All-append P (r ∷ rows) row h k = (h.0, All-append P rows row h.1 k)

insert_row-AllSound :
    (row : BaselineRow) (db : Db)
    → AllSound db
    → IsSound db.devices db.users row
    → AllSound (insert_row row db).1
insert_row-AllSound row db h k = elim (Bool-cases (any (λ r. r.id == row.id) db.baselines)) [
  | inl taken ↦ rw taken h
  | inr free ↦ rw free (All-append (IsSound db.devices db.users) db.baselines row h k)
]

create-AllSound :
    (id : String) (body : BaselineCreate) (p : Principal) (db : Db)
    → AllSound db
    → AllSound (create_organizational_baseline id body p db).1
unfolding create_organizational_baseline require_roles
create-AllSound id body p db h = elim (Bool-cases (any (λ r. r == p.role) administrators)) [
  | inr other ↦ rw other h
  | inl admin ↦ rw admin (with_device (own p.tenant_id db.devices body.device_id) refl)
]
  where
    with_user :
        (user : Result HttpError (Unit {0})) (made : Result EntryError BaselineEntry)
        → own p.tenant_id db.devices body.device_id ≡ ok tt
        → own p.tenant_id db.users body.user_id ≡ user
        → entry_of (new_row id p body) ≡ made
        → AllSound
            (continue user
              (λ _. continue (checked made) (λ _. insert_row (new_row id p body)))
              db).1
    with_user (err e) made d u m = h
    with_user (ok _) (err x) d u m = h
    with_user (ok _) (ok e) d u m =
        insert_row-AllSound (new_row id p body) db h
          (new_row-IsSound id p body db.devices db.users e m d u)

    with_device :
        (device : Result HttpError (Unit {0}))
        → own p.tenant_id db.devices body.device_id ≡ device
        → AllSound
            (continue device
              (λ _ s.
                continue
                  (own p.tenant_id s.users body.user_id)
                  (λ _.
                    continue
                      (checked (entry_of (new_row id p body)))
                      (λ _. insert_row (new_row id p body)))
                  s)
              db).1
    with_device (err e) d = h
    with_device (ok _) d =
        with_user (own p.tenant_id db.users body.user_id) (entry_of (new_row id p body)) d refl refl

pub record Create : Type 0 where
  pub id : String
  pub body : BaselineCreate
  pub principal : Principal

unfoldable pub create_all : List Create → Db → Db
unfolding create_organizational_baseline
create_all [] db = db
create_all (c ∷ cs) db = create_all cs (create_organizational_baseline c.id c.body c.principal db).1

-- Whatever is asked to be stored and by whom, each stored row has a key that is not blank and reads as an entry of
-- its scope; a row about a device names one, a row about a user names one, and any other names neither; and a
-- device or a user that a row names is in its table as the row's tenant's.
pub create_all-AllSound : (cs : List Create) (db : Db) → AllSound db → AllSound (create_all cs db)
unfolding create_all
create_all-AllSound [] db h = h
create_all-AllSound (c ∷ cs) db h =
    create_all-AllSound cs _ (create-AllSound c.id c.body c.principal db h)

entries_of-keep :
    (devices users : Dict String) (q : BaselineRow → Bool) (rows : List BaselineRow)
    → All (IsSound devices users) rows
    → (es : List BaselineEntry) × (entries_of (keep q rows) ≡ ok es)
unfolding entries_of
entries_of-keep devices users q [] h = ([], refl)
entries_of-keep devices users q (r ∷ rows) h =
    let (es, e) = entries_of-keep devices users q rows h.1 in
    elim (Bool-cases (q r)) [
      | inr out ↦ (es, rw out e)
      | inl kept ↦ (
        h.0.valid ∷ es,
        rw kept (ap (and_entry (entry_of r)) e ∙ ap (λ v. and_entry v (ok es)) h.0.made),
      )
    ]

-- On a table that was filled through the endpoint, a query is never an internal error: it is answered from the
-- entries of the tenant's active rows for the key.
pub create_all-resolve :
    (cs : List Create) (db : Db) (key : String) (device_id user_id : Option String) (p : Principal)
    → db.baselines ≡ []
    → (es : List BaselineEntry) × (entries_of
          (keep (is_resolved p.tenant_id key) (create_all cs db).baselines)
        ≡ ok es)
      × (resolve_organizational_baseline key device_id user_id p (create_all cs db)
          ≡ ok (resolve_known_good es key device_id user_id))
unfolding resolve_organizational_baseline
create_all-resolve cs db key device_id user_id p empty =
    let last = create_all cs db in
    let start : AllSound db = rw empty tt in
    let (es, e) =
      entries_of-keep last.devices last.users (is_resolved p.tenant_id key) last.baselines
        (create_all-AllSound cs db start) in
    (es, e, ap (resolved_in key device_id user_id) e)
