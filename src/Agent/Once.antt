-- ===== src/Agent/Once.antt =====
-- The journal's promise (agent_common/journal.py, "No re-execution, ever"): an executor is not run twice
-- for one job, wherever the power goes.
use helpdesktool.Prelude.{
  ℕ, suc, ◌+◌, ◌≤◌, String, ◌≡◌, refl, ◌⊎◌, inl, Bool, false, Option, none, some, List, [], ◌∷◌,
  ◌++◌, ◌==◌, ap, arith, eq_iff, if◌then◌else◌,
}
use helpdesktool.Prelude.Dict.{Dict, get, put, get-put}
use helpdesktool.Prelude.Exec.{Result, ok, err}
use helpdesktool.Journal.{
  claimed, mark_found, JournalEntry, Effect, ran, forgot, Machine, Failure, is_crash, lost, save,
  read_clock,
}

-- how often a job was run, and how often its entry was deleted
abbrev pub runs : String → List Effect → ℕ
runs k [] = 0
runs k (ran (some j) ∷ log) = let n = runs k log in if j == k then suc n else n
runs k (_ ∷ log) = runs k log

abbrev pub forgets : String → List Effect → ℕ
forgets k [] = 0
forgets k (forgot j ∷ log) = let n = forgets k log in if j == k then suc n else n
forgets k (_ ∷ log) = forgets k log

-- 1 for a job whose run may have begun
abbrev pub begun : Option JournalEntry → ℕ
begun none = 0
begun (some e) = elim e.state [ claimed ↦ 0 | _ ↦ 1 ]

-- what the file guarantees when the power goes
abbrev pub Durable : String → Machine → Type 0
Durable k m = runs k m.log ≤ forgets k m.log + begun (get k m.disk)

pub record Good (k : String) (m : Machine) : Type 0 where
  pub durable : Durable k m
  pub saved : m.entries ≡ m.disk

abbrev pub crashed : {A : Type 0} → Result Failure A → Bool
crashed (ok a) = false
crashed (err f) = is_crash f

-- after an action: the file's guarantee holds, and the memory agrees unless the power went
pub record After {A : Type 0} (k : String) (p : Result Failure A × Machine) : Type 0 where
  pub durable : Durable k p.1
  pub saved : crashed p.0 ≡ false → p.1.entries ≡ p.1.disk

pub runs-lost :
    (k : String) (entries disk : Dict JournalEntry) (log : List Effect)
    → runs k (lost entries disk ++ log) ≡ runs k log
runs-lost k entries [] log = refl
runs-lost k entries ((j, e) ∷ disk) log = ground (arith, runs-lost k entries disk log)

pub forgets-lost_le :
    (k : String) (entries disk : Dict JournalEntry) (log : List Effect)
    → forgets k log ≤ forgets k (lost entries disk ++ log)
forgets-lost_le k entries [] log = omega arith
forgets-lost_le k entries ((j, e) ∷ disk) log = ground (arith, forgets-lost_le k entries disk log)

-- what is on the file and no longer in the memory is noted as forgotten
pub forgets-lost :
    (k : String) (entries disk : Dict JournalEntry) (log : List Effect)
    → get k entries ≡ none
    → forgets k log + begun (get k disk) ≤ forgets k (lost entries disk ++ log)
unfolding get
forgets-lost k entries [] log h = omega arith
forgets-lost k entries ((j, e) ∷ disk) log h =
    ground (arith, eq_iff j k, forgets-lost k entries disk log, forgets-lost_le k entries disk log)

-- A write of the memory is safe where no entry that stays goes back to "claimed".
pub save-After :
    (k : String) (m : Machine)
    → Durable k m
    → (begun (get k m.disk) ≤ begun (get k m.entries)) ⊎ (get k m.entries ≡ none)
    → After k (save m)
unfolding save
save-After k m d c = ground (
  arith,
  runs-lost k m.entries m.disk m.log,
  forgets-lost k m.entries m.disk m.log,
  forgets-lost_le k m.entries m.disk m.log,
)

pub save_ok :
    (m : Machine)
    → crashed (save m).0 ≡ false
    → ((save m).1.entries ≡ m.entries) × ((save m).1.log ≡ lost m.entries m.disk ++ m.log)
unfolding save
save_ok m c = (ground arith, ground arith)

pub begun_le : (o : Option JournalEntry) → begun o ≤ 1
begun_le none = omega arith
begun_le (some e) = ground arith

-- What an entry is replaced by is as far as the one on the file, if it is not "claimed".
pub put-After :
    (k j : String) (e : JournalEntry) (m : Machine) (n : ℕ)
    → Good k m
    → (k ≡ j → begun (get k m.disk) ≤ begun (some e))
    → After k (save (record m { entries = put j e m.entries; readings = n }))
put-After k j e m n g b =
    save-After k (record m { entries = put j e m.entries; readings = n }) g.durable
      (inl (rw (get-put j k e m.entries) (ground (arith, eq_iff j k, ap (get k) g.saved))))

module _ (now : ℕ → ℕ) (k j : String) (change : JournalEntry → JournalEntry) where
  pub mark_found-After :
      (m : Machine) (o : Option JournalEntry)
      → ((e : JournalEntry) (t : ℕ) → begun (some (record (change e) { updated_at = t })) ≡ 1)
      → Good k m
      → After k (mark_found now j change o m)
  unfolding read_clock
  mark_found-After m none c g = record { durable = g.durable; saved = λ _. g.saved }
  mark_found-After m (some e) c g =
      put-After k j (record (change e) { updated_at = now m.readings }) m (m.readings + 1) g
        (λ _. rw (c e (now m.readings)) (begun_le (get k m.disk)))
