-- ===== src/Keys/Genuine.antt =====
-- What an agent trusts after refreshes that the control plane itself answered.
use helpdesktool.Prelude.{
  ℕ, zero, suc, ◌+◌, ◌-◌, ◌≤◌, ◌<◌, String, Bool, true, false, Option, none, some, List, [], ◌∷◌,
  map, eqb, is_some, All, ◌≡◌, refl, ap, sym, ◌∙◌, inl, inr, arith, Bool-cases, Option-cases,
}
use helpdesktool.Prelude.Text.{decimal}
use helpdesktool.Prelude.Exec.{Result, ok, err}
use helpdesktool.Models.{Value}
use helpdesktool.Signing.{Keys, has_keys, find_key, lookup_key}
use helpdesktool.Keys.{
  JobSigning, KeyError, max, range, with_pem, active_public_keys, as_text, agent_signing_key,
  Pinned, pin, merge_signing_keys, saved_after, ensure_signing_key, refresh_all,
}
use helpdesktool.Keys.Refresh.{find_key-append, merge_keeps, saved_after-keys, refresh_all-keeps}

-- every version below the bound from `low` on
All-range :
    (P : ℕ → Type 0) (low count v : ℕ) → All P (range low count) → low ≤ v → v < low + count → P v
All-range P low zero v h l u = let f : ⊥ = omega (arith, l, u) in absurd f
All-range P low (suc count) v h l u = elim (Bool-cases (eqb low v)) [
  | inl here ↦ let e : low ≡ v = ground arith in rw (← e) h.0
  | inr later ↦
      let l' : suc low ≤ v = ground arith in All-range P (suc low) count v h.1 l' (omega (arith, u))
]

module _ (public_key_pem : ℕ → String) where
  abbrev pub AllGenuine : Keys → Type 0
  AllGenuine keys = (n : ℕ) (p : String) → find_key n keys ≡ some p → p ≡ public_key_pem n

  -- every pinned key is the control plane's, and the file has what the memory has
  pub record IsGenuine (s : Pinned) : Type 0 where
    pub genuine : AllGenuine s.signing_public_keys
    pub written : s.saved ≡ s.signing_public_keys

  pin-AllGenuine :
      (v : ℕ) (changed : Bool) (s : Pinned)
      → AllGenuine s.signing_public_keys
      → AllGenuine (pin v (public_key_pem v) changed s).1.signing_public_keys
  unfolding pin
  pin-AllGenuine v changed s g n p h =
      elim (Bool-cases (is_some (find_key v s.signing_public_keys))) [
        | inl there ↦ g n p (rw there at h)
        | inr new ↦
            let e =
              sym (find_key-append n v (public_key_pem v) s.signing_public_keys) ∙ rw new at h in
            elim (Option-cases (find_key n s.signing_public_keys)) [
              | inl fresh ↦ ground (arith, rw fresh at e)
              | inr (q, old) ↦ g n p (old ∙ rw old at e)
            ]
      ]

  pin-trusts :
      (v : ℕ) (changed : Bool) (s : Pinned)
      → AllGenuine s.signing_public_keys
      → find_key v (pin v (public_key_pem v) changed s).1.signing_public_keys
        ≡ some (public_key_pem v)
  unfolding pin
  pin-trusts v changed s g = elim (Option-cases (find_key v s.signing_public_keys)) [
    | inl fresh ↦
        rw fresh
          (find_key-append v v (public_key_pem v) s.signing_public_keys ∙ rw fresh (ground arith))
    | inr (p, old) ↦ rw old (old ∙ ap some (g v p old))
  ]

  pin-saved :
      (v : ℕ) (pem : String) (changed : Bool) (s : Pinned) → (pin v pem changed s).1.saved ≡ s.saved
  unfolding pin
  pin-saved v pem changed s = ground arith

  pin-unchanged :
      (v : ℕ) (pem : String) (changed : Bool) (s : Pinned)
      → (pin v pem changed s).0 ≡ false
      → (changed ≡ false) × ((pin v pem changed s).1.signing_public_keys ≡ s.signing_public_keys)
  unfolding pin
  pin-unchanged v pem changed s = ground arith

  -- what a merge of genuine keys comes to: it does not raise, and says whether the keys have changed
  record IsMerged (versions : List ℕ) (changed : Bool) (s : Pinned)
      (r : Result KeyError Bool × Pinned) : Type 0 where
    result : Bool
    returned : r.0 ≡ ok result
    unchanged :
        result ≡ false → (changed ≡ false) × (r.1.signing_public_keys ≡ s.signing_public_keys)
    file : r.1.saved ≡ s.saved
    all_genuine : AllGenuine r.1.signing_public_keys
    trusted : All (λ v. find_key v r.1.signing_public_keys ≡ some (public_key_pem v)) versions

  -- the response of the control plane under its settings, or none when it is not reached
  abbrev pub response_of : Option JobSigning → Option (Option (List (String × String)))
  response_of none = none
  response_of (some settings) = some (some (agent_signing_key public_key_pem settings))

  abbrev versions_of : JobSigning → List ℕ
  versions_of settings =
      let lowest =
        max 1 (settings.job_signing_key_version - settings.job_signing_key_rotation_window) in
      range lowest (settings.job_signing_key_version + 1 - lowest)

  module _ (int : String → Option ℕ) (reads : (n : ℕ) → int (decimal n) ≡ some n) where
    merge-IsMerged :
        (versions : List ℕ) (changed : Bool) (s : Pinned)
        → AllGenuine s.signing_public_keys
        → IsMerged versions changed s (
            merge_signing_keys int
              (map (as_text public_key_pem) (map (with_pem public_key_pem) versions))
              changed
              s)
    unfolding merge_signing_keys
    merge-IsMerged [] changed s g = record {
      result = changed;
      returned = refl;
      unchanged = λ h. (h, refl);
      file = refl;
      all_genuine = g;
      trusted = tt;
    }
    merge-IsMerged (v ∷ versions) changed s g =
        let (c, s') = pin v (public_key_pem v) changed s in
        let m = merge-IsMerged versions c s' (pin-AllGenuine v changed s g) in
        rw (merge_signing_keys, reads v)
          (record {
            result = m.result;
            returned = m.returned;
            unchanged = λ h.
                let (k, e) = m.unchanged h in
                let (k', e') = pin-unchanged v (public_key_pem v) changed s k in (k', e ∙ e');
            file = m.file ∙ pin-saved v (public_key_pem v) changed s;
            all_genuine = m.all_genuine;
            trusted =
                (merge_keeps int _ v (public_key_pem v) c s' (pin-trusts v changed s g), m.trusted);
          })

    merged-IsGenuine :
        (versions : List ℕ) (s : Pinned) (r : Result KeyError Bool × Pinned)
        → IsGenuine s
        → IsMerged versions false s r
        → IsGenuine (saved_after r).1 × ((saved_after r).0 ≡ ok tt)
    merged-IsGenuine versions s (err e, s') g m = let h = m.returned in cc
    merged-IsGenuine versions s (ok true, s') g m =
        (record { genuine = m.all_genuine; written = refl }, refl)
    merged-IsGenuine versions s (ok false, s') g m =
        let back : m.result ≡ false = let h = m.returned in cc in
        let (k, e) = m.unchanged back in
        (record { genuine = m.all_genuine; written = m.file ∙ (g.written ∙ sym e) }, refl)

    ensure_genuine :
        (settings : JobSigning) (s : Pinned)
        → IsGenuine s
        → IsMerged
            (versions_of settings)
            false
            s
            (merge_signing_keys int (agent_signing_key public_key_pem settings) false s)
    unfolding agent_signing_key active_public_keys
    ensure_genuine settings s g = merge-IsMerged (versions_of settings) false s g.genuine

    ensure-IsGenuine :
        (answer : Option JobSigning) (s : Pinned)
        → IsGenuine s
        → IsGenuine (ensure_signing_key int (response_of answer) s).1
    unfolding ensure_signing_key
    ensure-IsGenuine none s g = elim (Bool-cases (has_keys s.signing_public_keys)) [
      | inl some_keys ↦ rw some_keys g
      | inr no_keys ↦ rw no_keys g
    ]
    ensure-IsGenuine (some settings) s g =
        (merged-IsGenuine (versions_of settings) s _ g (ensure_genuine settings s g)).0

    -- Whatever settings the control plane has had, and however often it was not reached, all keys an agent has
    -- pinned are the control plane's, and its file holds them all.
    pub refresh_all-IsGenuine :
        (history : List (Option JobSigning)) (s : Pinned)
        → IsGenuine s
        → IsGenuine (refresh_all int (map response_of history) s)
    unfolding refresh_all
    refresh_all-IsGenuine [] s g = g
    refresh_all-IsGenuine (a ∷ history) s g =
        refresh_all-IsGenuine history (ensure_signing_key int (response_of a) s).1
          (ensure-IsGenuine a s g)

    ensure_trusts :
        (settings : JobSigning) (s : Pinned) (v : ℕ)
        → IsGenuine s
        → 1 ≤ v
        → settings.job_signing_key_version ≤ v + settings.job_signing_key_rotation_window
        → v ≤ settings.job_signing_key_version
        → find_key v (ensure_signing_key int (response_of (some settings)) s).1.signing_public_keys
          ≡ some (public_key_pem v)
    unfolding ensure_signing_key
    ensure_trusts settings s v g positive recent issued =
        let lowest =
          max 1 (settings.job_signing_key_version - settings.job_signing_key_rotation_window) in
        let low : lowest ≤ v = ground arith in
        let high : v < lowest + (settings.job_signing_key_version + 1 - lowest) =
          ground (arith, low) in
        let merged = merge_signing_keys int (agent_signing_key public_key_pem settings) false s in
        rw (saved_after-keys merged) (
          All-range (λ n. find_key n merged.1.signing_public_keys ≡ some (public_key_pem n)) lowest
            _ v (ensure_genuine settings s g).trusted low high)

    -- Once a refresh is answered, every version of the window the control plane had then is one the agent
    -- checks envelopes with, and stays so under the key of the control plane, whatever the agent was answered
    -- before, or not, by the control plane, and whatever anybody answers afterwards.
    pub refresh_all-lookup_key :
        (history : List (Option JobSigning)) (settings : JobSigning)
        (later : List (Option (Option (List (String × String))))) (s : Pinned) (v : ℕ)
        → IsGenuine s
        → 1 ≤ v
        → settings.job_signing_key_version ≤ v + settings.job_signing_key_rotation_window
        → v ≤ settings.job_signing_key_version
        → lookup_key
            (Value.number v)
            (refresh_all int later
              (ensure_signing_key int
                (response_of (some settings))
                (refresh_all int (map response_of history) s)).1).signing_public_keys
          ≡ some (public_key_pem v)
    refresh_all-lookup_key history settings later s v g positive recent issued =
        let earlier = refresh_all int (map response_of history) s in
        refresh_all-keeps int later v (public_key_pem v)
          (ensure_signing_key int (response_of (some settings)) earlier).1
          (ensure_trusts settings earlier v (refresh_all-IsGenuine history s g) positive recent
            issued)
