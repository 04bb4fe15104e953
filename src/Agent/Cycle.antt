-- ===== src/Agent/Cycle.antt =====
-- The invariant of Agent/Once is kept by a cycle of the agent, by its recovery and by its jobs.
use helpdesktool.Prelude.{
  ℕ, ◌+◌, ◌≤◌, String, ◌≡◌, refl, ◌⊎◌, inl, inr, false, Option, none, some, List, [], ◌∷◌, ap,
  arith, eq_iff, Bool-cases, keep, leb, length, ◌-◌, take,
}
use helpdesktool.Prelude.Dict.{Dict, get, put, remove, values, get-put, get-remove}
use helpdesktool.Prelude.Exec.{Result, ok, err, Exec, continue, pure, raise, ◌>>=◌}
use helpdesktool.Models.{Mapping}
use helpdesktool.Journal.{
  executing, JobResult, JournalEntry, ran, Machine, Failure, save, sort_by_time, is_reported,
  read_clock, delete_all, prune_reported, mark_found,
}
use helpdesktool.Agent.{Environment, AgentConfig, report_result, run_executor}
use helpdesktool.Agent.Once.{
  runs, forgets, begun, Good, After, crashed, save-After, runs-lost, forgets-lost_le,
}

-- an action that keeps the invariant from every machine that satisfies it
abbrev pub Keeps : {A : Type 0} → String → Exec Failure Machine A → Type 0
Keeps k act = (m : Machine) → Good k m → After k (act m)

-- a run of the job may begin
abbrev pub Room : String → Option String → Machine → Type 0
Room k job_id m = runs k (ran job_id ∷ m.log) ≤ forgets k m.log + begun (get k m.disk)

module _ {A B : Type 0} (k : String) where
  -- what follows starts from a good machine
  pub continue-After :
      (p : Result Failure A × Machine) (f : A → Exec Failure Machine B)
      → After k p
      → ((a : A) → p.0 ≡ ok a → Good k p.1 → After k (f a p.1))
      → After k (continue p.0 f p.1)
  continue-After (ok a, m) f h g = g a refl (record { durable = h.durable; saved = h.saved refl })
  continue-After (err x, m) f h g = record { durable = h.durable; saved = h.saved }

  pub bind-Keeps :
      (act : Exec Failure Machine A) (f : A → Exec Failure Machine B)
      → Keeps k act
      → ((a : A) → Keeps k (f a))
      → Keeps k (act >>= f)
  bind-Keeps act f h g m s = continue-After (act m) f (h m s) (λ a _ s'. g a (act m).1 s')

module _ (k : String) where
  pub pure-Keeps : {A : Type 0} (a : A) → Keeps k (pure {E = Failure} a)
  pure-Keeps a m g = record { durable = g.durable; saved = λ _. g.saved }

  pub raise-Keeps : {A : Type 0} (f : Failure) → Keeps k (raise {A = A} f)
  raise-Keeps f m g = record { durable = g.durable; saved = λ _. g.saved }

  get-delete_all :
      (es : List JournalEntry) (d : Dict JournalEntry)
      → (get k (delete_all es d) ≡ get k d) ⊎ (get k (delete_all es d) ≡ none)
  unfolding delete_all
  get-delete_all [] d = inl refl
  get-delete_all (e ∷ es) d =
      ground (arith, get-delete_all es (remove e.job_id d), get-remove e.job_id k d)

  delete_all-After :
      (es : List JournalEntry) (m : Machine)
      → Good k m
      → After k (save (record m { entries = delete_all es m.entries }))
  delete_all-After es m g =
      save-After k (record m { entries = delete_all es m.entries }) g.durable
        (ground (arith, get-delete_all es m.entries, ap (get k) g.saved))

abbrev reported_of : Machine → List JournalEntry
reported_of m = sort_by_time (keep (λ e. is_reported e.state) (values m.entries))

module _ (k : String) where
  pub prune_reported-Keeps : (kept : ℕ) → Keeps k (prune_reported kept)
  unfolding prune_reported
  prune_reported-Keeps kept m g = elim (Bool-cases (leb (length (reported_of m) - kept) 0)) [
    | inl none_in_excess ↦ rw none_in_excess (pure-Keeps k tt m g)
    | inr some_in_excess ↦
        rw some_in_excess
          (delete_all-After k (take (length (reported_of m) - kept) (reported_of m)) m g)
  ]

module _ (env : Environment) (config : AgentConfig) (k : String) where
  pub report_result-Keeps :
      (key token : String) (r : JobResult) → Keeps k (report_result env config key token r)
  unfolding report_result
  report_result-Keeps key token r m g = ground arith

  pub run_executor-After :
      (job_id : Option String) (skill : String) (ps : Mapping) (m : Machine)
      → Good k m
      → Room k job_id m
      → After k (run_executor env config job_id skill ps m)
  unfolding run_executor
  run_executor-After job_id skill ps m g room = ground arith

  -- Once a job's entry is on the file as begun, its run may begin.
  save-Room :
      (j : String) (e : JournalEntry) (m : Machine) (n : ℕ)
      → Good k m
      → (k ≡ j → runs k m.log ≤ forgets k m.log)
      → begun (some e) ≡ 1
      → crashed (save (record m { entries = put j e m.entries; readings = n })).0 ≡ false
      → Room k (some j) (save (record m { entries = put j e m.entries; readings = n })).1
  unfolding save
  save-Room j e m n g f b c = ground (
    arith,
    eq_iff j k,
    get-put j k e m.entries,
    ap (get k) g.saved,
    runs-lost k (put j e m.entries) m.disk m.log,
    forgets-lost_le k (put j e m.entries) m.disk m.log,
  )

  pub mark_found-Room :
      (j : String) (e : JournalEntry) (m : Machine)
      → Good k m
      → (k ≡ j → runs k m.log ≤ forgets k m.log)
      → crashed (mark_found env.now j (λ x. record x { state = executing }) (some e) m).0 ≡ false
      → Room k (some j) (mark_found env.now j (λ x. record x { state = executing }) (some e) m).1
  unfolding read_clock
  mark_found-Room j e m g f c =
      save-Room j (record e { state = executing; updated_at = env.now m.readings }) m
        (m.readings + 1) g f refl c
