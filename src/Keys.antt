-- ===== src/Keys.antt =====
-- The keys that sign envelopes: `active_public_keys` of helpdesktool/job_signing.py, which the control plane
-- hands out, and `_merge_signing_keys` and `ensure_signing_key` of linux_agent/agent.py, which pin them. The
-- key pair of a version, `int` and the answer of the control plane are arguments.
pub mod Refresh
pub mod Genuine
pub mod Examples
use helpdesktool.Prelude.{
  ℕ, zero, suc, ◌+◌, ◌-◌, String, Bool, true, false, Option, none, some, List, [], ◌∷◌, ◌++◌, map,
  leb, is_some, if◌then◌else◌,
}
use helpdesktool.Prelude.Text.{decimal}
use helpdesktool.Prelude.Exec.{Result, ok, err, Exec}
use helpdesktool.Signing.{Keys, has_keys, find_key}

-- the settings of the control plane, of which the seed and the derivation are `public_key_pem`
pub record JobSigning : Type 0 where
  pub job_signing_key_version : ℕ
  pub job_signing_key_rotation_window : ℕ

abbrev pub max : ℕ → ℕ → ℕ
max a b = if leb a b then b else a

-- `range(low, low + count)`
abbrev pub range : ℕ → ℕ → List ℕ
range low zero = []
range low (suc count) = low ∷ range (suc low) count

module _ (public_key_pem : ℕ → String) where
  abbrev pub with_pem : ℕ → ℕ × String
  with_pem version = (version, public_key_pem version)

  unfoldable pub active_public_keys : ℕ → ℕ → Keys
  active_public_keys current_version window =
      let lowest = max 1 (current_version - window) in
      map with_pem (range lowest (current_version + 1 - lowest))

  -- the JSON object of `agent_signing_key`, whose keys are texts
  abbrev pub as_text : ℕ × String → String × String
  as_text (version, pem) = (decimal version, pem)

  unfoldable pub agent_signing_key : JobSigning → List (String × String)
  agent_signing_key settings =
      map as_text (
        active_public_keys settings.job_signing_key_version
          settings.job_signing_key_rotation_window)

-- the agent's keys in memory and in its file
pub record Pinned : Type 0 where
  pub signing_public_keys : Keys
  pub saved : Keys

pub data KeyError : Type 0 where
  api_error value_error : KeyError

-- one turn of the loop of `_merge_signing_keys`, for a version that was read
unfoldable pub pin : ℕ → String → Bool → Pinned → Bool × Pinned
pin version pem changed s =
    if is_some (find_key version s.signing_public_keys)
    then (changed, s)
    else (true, record s { signing_public_keys = s.signing_public_keys ++ (version, pem) ∷ [] })

-- `self.config.save`
abbrev pub save_if : Bool → Pinned → Pinned
save_if changed s = if changed then record s { saved = s.signing_public_keys } else s

abbrev pub saved_after : Result KeyError Bool × Pinned → Result KeyError (Unit {0}) × Pinned
saved_after (ok changed, s) = (ok tt, save_if changed s)
saved_after (err e, s) = (err e, s)

-- `keys or {}`
abbrev pub or_empty : Option (List (String × String)) → List (String × String)
or_empty none = []
or_empty (some keys) = keys

module _ (int : String → Option ℕ) where
  unfoldable pub merge_signing_keys : List (String × String) → Bool → Exec KeyError Pinned Bool
  merge_signing_keys [] changed s = (ok changed, s)
  merge_signing_keys ((version_str, pem) ∷ keys) changed s = elim (int version_str) [
    | none ↦ (err value_error, s)
    | some version ↦ let (c, s') = pin version pem changed s in merge_signing_keys keys c s'
  ]

  -- `ensure_signing_key`, given the response, or `none` for an ApiError
  unfoldable pub ensure_signing_key :
      Option (Option (List (String × String))) → Exec KeyError Pinned (Unit {0})
  unfolding merge_signing_keys
  ensure_signing_key none s =
      if has_keys s.signing_public_keys then (ok tt, s) else (err api_error, s)
  ensure_signing_key (some keys) s = saved_after (merge_signing_keys (or_empty keys) false s)

  -- the refreshes of an agent, each with the response it gets; one that fails is tried again in a later cycle
  unfoldable pub refresh_all : List (Option (Option (List (String × String)))) → Pinned → Pinned
  unfolding ensure_signing_key
  refresh_all [] s = s
  refresh_all (response ∷ responses) s = refresh_all responses (ensure_signing_key response s).1
