-- ===== src/Keys/Examples.antt =====
-- Two versions of a key, a rotation, and a forged answer after it.
use helpdesktool.Prelude.{◌≡◌, refl, ℕ, String, Option, some, none, List, [], ◌∷◌, map, arith}
use helpdesktool.Prelude.Text.{◌++◌, decimal}
use helpdesktool.Prelude.Decimal.{read_decimal, read_decimal-decimal}
use helpdesktool.Models.{Value}
use helpdesktool.Signing.{find_key, lookup_key}
use helpdesktool.Keys.{JobSigning, Pinned, ensure_signing_key, refresh_all}
use helpdesktool.Keys.Genuine.{IsGenuine, response_of, refresh_all-lookup_key}

abbrev pem_of : ℕ → String
pem_of n = "pem " ++ decimal n

abbrev fresh : Pinned
fresh = record { signing_public_keys = []; saved = [] }

abbrev settings : ℕ → JobSigning
settings version = record { job_signing_key_version = version; job_signing_key_rotation_window = 1 }

abbrev history : List (Option JobSigning)
history = some (settings 1) ∷ none ∷ []

abbrev forged : List (Option (Option (List (String × String))))
forged = some (some (("2", "another") ∷ ("x", "pem") ∷ [])) ∷ none ∷ []

fresh-IsGenuine : IsGenuine pem_of fresh
unfolding find_key
fresh-IsGenuine = record { genuine = λ n p h. cc; written = refl }

refresh_all-lookup_key_example :
    lookup_key
      (Value.number 2)
      (refresh_all read_decimal forged
        (ensure_signing_key read_decimal (response_of pem_of (some (settings 3))) (
          refresh_all read_decimal (map (response_of pem_of) history) fresh)).1).signing_public_keys
    ≡ some (pem_of 2)
refresh_all-lookup_key_example =
    refresh_all-lookup_key pem_of read_decimal read_decimal-decimal history (settings 3) forged
      fresh 2 fresh-IsGenuine (omega arith) (omega arith) (omega arith)
