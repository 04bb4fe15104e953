-- ===== src/Incidents/Latest.antt =====
-- The newest of the rows that pass a test: `order_by(Incident.last_observed_at.desc())` of incidents.py.
use helpdesktool.Prelude.{
  arith, ◌≤◌, Bool, true, false, Option, none, some, List, [], ◌∷◌, Elem, keep, leb, leb→le, All,
  ◌≡◌, ◌⊎◌, inl, inr, refl, ap, ◌∙◌, Bool-cases,
}
use helpdesktool.Incidents.{Incident, later, latest}

pub All-map :
    (P Q : Incident → Type 0) (rows : List Incident)
    → ((r : Incident) → P r → Q r)
    → All P rows
    → All Q rows
All-map P Q [] f h = tt
All-map P Q (r ∷ rows) f h = (f r h.0, All-map P Q rows f h.1)

later-some : (x : Incident) (o : Option Incident) → later x o ≡ none → ⊥
later-some x none h = cc
later-some x (some y) h = elim (Bool-cases (leb y.last_observed_at x.last_observed_at)) [
  | inl wins ↦ let h' = rw wins at h in cc
  | inr loses ↦ let h' = rw loses at h in cc
]

pub latest-none :
    (p : Incident → Bool) (rows : List Incident)
    → latest (keep p rows) ≡ none
    → All (λ r. p r ≡ false) rows
unfolding latest
latest-none p [] h = tt
latest-none p (x ∷ rows) h = elim (Bool-cases (p x)) [
  | inr out ↦ (out, latest-none p rows (rw out at h))
  | inl kept ↦ absurd (later-some x (latest (keep p rows)) (rw kept at h))
]

-- the row is tested, or was not observed after the other
abbrev pub Older : (Incident → Bool) → Incident → Incident → Type 0
Older p q r = (p r ≡ false) ⊎ (r.last_observed_at ≤ q.last_observed_at)

later-newest :
    (p : Incident → Bool) (x q : Incident) (rows : List Incident) (o : Option Incident)
    → later x o ≡ some q
    → (o ≡ none → All (λ r. p r ≡ false) rows)
    → ((y : Incident) → o ≡ some y → All (Older p y) rows)
    → All (Older p q) (x ∷ rows)
later-newest p x q rows none h empty newest =
    let e : x ≡ q = cc in
    let l : x.last_observed_at ≤ q.last_observed_at = rw e (omega arith) in
    (inr l, All-map (λ r. p r ≡ false) (Older p q) rows (λ r k. inl k) (empty refl))
later-newest p x q rows (some y) h empty newest =
    elim (Bool-cases (leb y.last_observed_at x.last_observed_at)) [
      | inl wins ↦
          let e : x ≡ q = let h' = rw wins at h in cc in
          let l : y.last_observed_at ≤ q.last_observed_at =
            rw (← e) (leb→le y.last_observed_at x.last_observed_at wins) in
          let m : x.last_observed_at ≤ q.last_observed_at = rw e (omega arith) in
          (
            inr m,
            All-map (Older p y) (Older p q) rows
                (λ r k. elim k [ inl out ↦ inl out | inr older ↦ inr (omega (arith, l, older)) ])
                (newest y refl),
          )
      | inr loses ↦
          let e : y ≡ q = let h' = rw loses at h in cc in
          let l : x.last_observed_at ≤ y.last_observed_at = ground (arith, loses) in
          let m : x.last_observed_at ≤ q.last_observed_at = rw (← e) l in
          (inr m, All-map (Older p y) (Older p q) rows (λ r k. rw (← e) k) (newest y refl))
    ]

pub latest-newest :
    (p : Incident → Bool) (rows : List Incident) (q : Incident)
    → latest (keep p rows) ≡ some q
    → All (Older p q) rows
unfolding latest
latest-newest p [] q h = tt
latest-newest p (x ∷ rows) q h = elim (Bool-cases (p x)) [
  | inr out ↦ (inl out, latest-newest p rows q (rw out at h))
  | inl kept ↦
      later-newest p x q rows (latest (keep p rows)) (rw kept at h) (latest-none p rows)
        (latest-newest p rows)
]

later-either : (x q : Incident) (o : Option Incident) → later x o ≡ some q → (q ≡ x) ⊎ (o ≡ some q)
later-either x q none h = inl cc
later-either x q (some y) h = elim (Bool-cases (leb y.last_observed_at x.last_observed_at)) [
  | inl wins ↦ let h' = rw wins at h in inl cc
  | inr loses ↦ inr (rw loses at h)
]

pub latest-Elem :
    (p : Incident → Bool) (rows : List Incident) (q : Incident)
    → latest (keep p rows) ≡ some q
    → Elem q rows × (p q ≡ true)
unfolding latest
latest-Elem p [] q h = cc
latest-Elem p (x ∷ rows) q h = elim (Bool-cases (p x)) [
  | inr out ↦ let (m, t) = latest-Elem p rows q (rw out at h) in (inr m, t)
  | inl kept ↦ elim (later-either x q (latest (keep p rows)) (rw kept at h)) [
    | inl same ↦ (inl same, ap p same ∙ kept)
    | inr rest ↦ let (m, t) = latest-Elem p rows q rest in (inr m, t)
  ]
]
