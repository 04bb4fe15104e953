-- ===== src/Journal.antt =====
-- agent_common/journal.py: the durable execution journal of an endpoint agent, on a machine that can
-- lose power between any two effects. `steps` is the number of effects before the power goes;
-- `readings` counts the readings of the clock, whose values are an argument. Times stand for the ISO
-- texts, which sort as they do. The file's format is not modelled: `disk` is what it holds.
use helpdesktool.Prelude.{
  ℕ, zero, suc, ◌+◌, ◌-◌, String, Bool, true, false, Option, none, some, List, [], ◌∷◌, ◌++◌, leb,
  length, keep, take, is_some, not, if◌then◌else◌,
}
use helpdesktool.Prelude.Dict.{Dict, get, put, remove, values}
use helpdesktool.Prelude.Exec.{Exec, ok, err, pure, ◌>>=◌, ◌>>◌}
use helpdesktool.Models.{Mapping}

pub data State : Type 0 where
  claimed executing executed reported : State

-- the dictionary that an agent reports for a job
pub record JobResult : Type 0 where
  pub success : Bool
  pub verified : Bool
  pub output : Mapping
  pub error : Option String
  pub rollback_attempted : Bool
  pub rollback_succeeded : Option Bool

pub record JournalEntry : Type 0 where
  pub job_id : String
  pub action_id : String
  pub attempt : ℕ
  pub nonce : String
  pub claim_token : String
  pub idempotency_key : String
  pub skill_id : String
  pub parameters : Mapping
  pub state : State
  pub result : Option JobResult
  pub updated_at : ℕ

-- What an observer outside the agent can see: a run of an executor, a report that was sent, and an
-- entry that is gone from the journal's file.
pub data Effect : Type 0 where
  ran : Option String → Effect
  sent : String → String → JobResult → Effect
  forgot : String → Effect

pub record Machine : Type 0 where
  pub entries : Dict JournalEntry
  pub disk : Dict JournalEntry
  pub log : List Effect
  pub steps : ℕ
  pub readings : ℕ

-- `crash` is the loss of power; the others are the exceptions that reach the agent's main loop.
pub data Failure : Type 0 where
  crash api_error not_enrolled type_error executor_error : Failure

abbrev pub is_crash : Failure → Bool
is_crash crash = true
is_crash _ = false

-- one more effect is about to happen
unfoldable pub tick : Exec Failure Machine (Unit {0})
tick m = elim m.steps [ zero ↦ (err crash, m) | suc n ↦ (ok tt, record m { steps = n }) ]

abbrev pub note : Effect → Exec Failure Machine (Unit {0})
note e m = (ok tt, record m { log = e ∷ m.log })

abbrev pub is_reported : State → Bool
is_reported reported = true
is_reported _ = false

-- `_load`, with `none` for a file that is missing or no JSON, and for an entry with other fields
unfoldable pub load : Option (Dict (Option JournalEntry)) → Dict JournalEntry
load none = []
load (some []) = []
load (some ((k, none) ∷ raw)) = load (some raw)
load (some ((k, some e) ∷ raw)) = (k, e) ∷ load (some raw)

-- the entries of `disk` that are not in `entries`, newly gone once `entries` is written
abbrev pub lost : Dict JournalEntry → Dict JournalEntry → List Effect
lost entries [] = []
lost entries ((k, e) ∷ disk) =
    let rest = lost entries disk in if is_some (get k entries) then rest else forgot k ∷ rest

-- `_save`: the file is replaced as a whole, or the power goes and it stays as it was.
unfoldable pub save : Exec Failure Machine (Unit {0})
unfolding tick
save = do tick; λ m. (ok tt, record m { disk = m.entries; log = lost m.entries m.disk ++ m.log })

-- an entry is there, in whatever state
unfoldable pub seen : String → Machine → Bool
seen job_id m = is_some (get job_id m.entries)

module _ (now : ℕ → ℕ) where
  unfoldable pub read_clock : Exec Failure Machine ℕ
  read_clock m = (ok (now m.readings), record m { readings = m.readings + 1 })

  abbrev pub set_entry : String → JournalEntry → Exec Failure Machine (Unit {0})
  set_entry k e m = (ok tt, record m { entries = put k e m.entries })

  unfoldable pub record_claimed : JournalEntry → Exec Failure Machine (Unit {0})
  record_claimed e = do
    t ← read_clock
    set_entry e.job_id (record e { state = claimed; result = none; updated_at = t })
    save

  abbrev pub mark_found :
      String → (JournalEntry → JournalEntry) → Option JournalEntry → Exec Failure Machine (Unit {0})
  mark_found job_id change none = pure tt
  mark_found job_id change (some e) = do
    t ← read_clock
    set_entry job_id (record (change e) { updated_at = t })
    save

  -- the common body of the three `mark_` methods
  abbrev pub mark : String → (JournalEntry → JournalEntry) → Exec Failure Machine (Unit {0})
  mark job_id change m = mark_found job_id change (get job_id m.entries) m

  unfoldable pub mark_executing : String → Exec Failure Machine (Unit {0})
  mark_executing job_id = mark job_id (λ e. record e { state = executing })

  unfoldable pub mark_executed : String → JobResult → Exec Failure Machine (Unit {0})
  mark_executed job_id r = mark job_id (λ e. record e { state = executed; result = some r })

  unfoldable pub mark_reported : String → Exec Failure Machine (Unit {0})
  mark_reported job_id = mark job_id (λ e. record e { state = reported })

-- `sorted(..., key=lambda entry: entry.updated_at)`, which is stable
unfoldable pub insert_by_time : JournalEntry → List JournalEntry → List JournalEntry
insert_by_time e [] = e ∷ []
insert_by_time e (x ∷ xs) =
    if leb e.updated_at x.updated_at then e ∷ x ∷ xs else x ∷ insert_by_time e xs

unfoldable pub sort_by_time : List JournalEntry → List JournalEntry
unfolding insert_by_time
sort_by_time [] = []
sort_by_time (e ∷ es) = insert_by_time e (sort_by_time es)

unfoldable pub pending : Machine → List JournalEntry
unfolding sort_by_time
pending m = sort_by_time (keep (λ e. not (is_reported e.state)) (values m.entries))

unfoldable pub delete_all : List JournalEntry → Dict JournalEntry → Dict JournalEntry
delete_all [] d = d
delete_all (e ∷ es) d = delete_all es (remove e.job_id d)

-- `prune_reported(kept)`, whose default is 500
unfoldable pub prune_reported : ℕ → Exec Failure Machine (Unit {0})
unfolding delete_all sort_by_time
prune_reported kept m =
    let reported_entries = sort_by_time (keep (λ e. is_reported e.state) (values m.entries)) in
    let excess = length reported_entries - kept in
    if leb excess 0
    then (ok tt, m)
    else save (record m { entries = delete_all (take excess reported_entries) m.entries })
