-- ===== src/Reaper/Examples.antt =====
-- A job that is claimed twice, whose lease runs out in between.
use helpdesktool.Prelude.{◌≡◌, refl, true, List, [], ◌∷◌}
use helpdesktool.Leases.Examples.{sha256, claim_token, active_version, db, body}
use helpdesktool.Reaper.Attempts.{
  Op, claim, report, reap_batch, rows_ok, apply_all, apply_all-rows_ok,
}

abbrev history : List Op
history =
    claim "t" "d" "a" "k" "x" 100
    ∷ reap_batch 100 200
    ∷ claim "t" "d" "a" "k2" "x" 210
    ∷ report "t" "d" "a" "ak2" "r" "x" body 220
    ∷ []

apply_all-rows_ok_example :
    rows_ok 3 (apply_all sha256 claim_token active_version 3 history db).actions ≡ true
apply_all-rows_ok_example = apply_all-rows_ok sha256 claim_token active_version 3 history db refl
