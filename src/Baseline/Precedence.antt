-- ===== src/Baseline/Precedence.antt =====
-- Which entry is resolved for a key.
use helpdesktool.Prelude.{
  ℕ, String, Bool, true, false, ◌&&◌, Option, none, some, List, [], ◌∷◌, ◌≡◌, refl, sym, ◌∙◌, ◌==◌,
  keep, ltb, eqb, arith, same_text, if◌then◌else◌,
}
use helpdesktool.Models.{BaselineScope, generic_best_practice, organizational_policy}
use helpdesktool.Baseline.{
  BaselineEntry, is_device, is_user, precedence, is_candidate, least, least_of, resolve_known_good,
}

-- the first entry that passes a test
unfoldable pub find_first : (BaselineEntry → Bool) → List BaselineEntry → Option BaselineEntry
find_first p [] = none
find_first p (e ∷ es) = let rest = find_first p es in if p e then some e else rest

abbrev pub or_else : Option BaselineEntry → Option BaselineEntry → Option BaselineEntry
or_else none o = o
or_else (some e) o = some e

abbrev is_at : ℕ → BaselineEntry → Bool
is_at n e = eqb (precedence e.scope) n

abbrev by_rank : List BaselineEntry → Option BaselineEntry
by_rank es = or_else (find_first (is_at 0) es) (
    or_else (find_first (is_at 1) es) (
      or_else (find_first (is_at 2) es)
        (or_else (find_first (is_at 3) es) (find_first (is_at 4) es))))

by_rank-pair :
    (e f : BaselineEntry) (es : List BaselineEntry)
    → by_rank (e ∷ f ∷ es)
      ≡ by_rank ((if ltb (precedence f.scope) (precedence e.scope) then f else e) ∷ es)
unfolding find_first
by_rank-pair e f es = ground arith

least-by_rank : (e : BaselineEntry) (es : List BaselineEntry) → some (least e es) ≡ by_rank (e ∷ es)
unfolding least find_first
least-by_rank e [] = ground arith
least-by_rank e (f ∷ es) =
    least-by_rank (if ltb (precedence f.scope) (precedence e.scope) then f else e) es
    ∙ sym (by_rank-pair e f es)

least_of-by_rank : (es : List BaselineEntry) → least_of es ≡ by_rank es
unfolding find_first
least_of-by_rank [] = refl
least_of-by_rank (e ∷ es) = least-by_rank e es

-- a search among the entries that were kept, by a test that comes to the same
find_first-keep :
    (c p q : BaselineEntry → Bool)
    → ((e : BaselineEntry) → (c e && p e) ≡ q e)
    → (es : List BaselineEntry) → find_first p (keep c es) ≡ find_first q es
unfolding find_first
find_first-keep c p q same [] = refl
find_first-keep c p q same (e ∷ es) = ground (arith, same e, find_first-keep c p q same es)

abbrev never : BaselineEntry → Bool
never e = false

find_first-never : (es : List BaselineEntry) → find_first never es ≡ none
unfolding find_first
find_first-never [] = refl
find_first-never (e ∷ es) = find_first-never es

abbrev is_policy : BaselineScope → Bool
is_policy organizational_policy = true
is_policy _ = false

abbrev is_generic : BaselineScope → Bool
is_generic generic_best_practice = true
is_generic _ = false

module _ (key : String) (device_id user_id : Option String) where
  abbrev pub for_device : BaselineEntry → Bool
  for_device e = e.key == key && (is_device e.scope && same_text e.device_id device_id)

  abbrev pub for_user : BaselineEntry → Bool
  for_user e = e.key == key && (is_user e.scope && same_text e.user_id user_id)

  abbrev pub for_all : BaselineEntry → Bool
  for_all e = e.key == key && is_policy e.scope

  abbrev pub generic : BaselineEntry → Bool
  generic e = e.key == key && is_generic e.scope

  -- What is known good for a key is the first entry for it that is declared for the device, else for the user,
  -- else as the organisation's policy, else as generic practice, and what is currently configured never is.
  pub resolve_known_good-or_else :
      (entries : List BaselineEntry)
      → resolve_known_good entries key device_id user_id
        ≡ or_else (find_first for_device entries) (
            or_else
              (find_first for_user entries)
              (or_else (find_first for_all entries) (find_first generic entries)))
  unfolding resolve_known_good
  resolve_known_good-or_else entries =
      let c = is_candidate key device_id user_id in
      least_of-by_rank (keep c entries)
      ∙ rw
          (
            find_first-keep c (is_at 0) for_device (λ e. ground arith) entries,
            find_first-keep c (is_at 1) for_user (λ e. ground arith) entries,
            find_first-keep c (is_at 2) for_all (λ e. ground arith) entries,
            find_first-keep c (is_at 3) generic (λ e. ground arith) entries,
          )
          (ground (
            arith,
            find_first-keep c (is_at 4) never (λ e. ground arith) entries,
            find_first-never entries,
          ))
