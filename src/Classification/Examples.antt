-- ===== src/Classification/Examples.antt =====
-- Three signals of two categories.
use helpdesktool.Prelude.{◌≡◌, true, false, List, [], ◌∷◌}
use helpdesktool.Classification.{SecuritySignal, classify_security_state}
use helpdesktool.Classification.Correlation.{is_elevated, classify_security_state-is_elevated}

abbrev signals : List SecuritySignal
signals =
    record { category = "process"; name = "unsigned"; weight = 100 }
    ∷ record { category = "process"; name = "shell"; weight = 50 }
    ∷ record { category = "network"; name = "beacon"; weight = 100 }
    ∷ []

classify_security_state-is_elevated_example :
    is_elevated (classify_security_state 100 signals false false).classification ≡ true
classify_security_state-is_elevated_example =
    classify_security_state-is_elevated 100 signals false false
