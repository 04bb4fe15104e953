-- ===== src/Executor/Examples.antt =====
-- A restart of a service that is up.
use helpdesktool.Prelude.{◌≡◌, refl, String, true, some, none, [], ◌∷◌, ◌==◌, any}
use helpdesktool.Prelude.Dict.{get, put}
use helpdesktool.Models.{Value, Mapping}
use helpdesktool.Executor.{
  show, restart, Reply, exited, Runner, execute, only_service, state_of, values_of,
}
use helpdesktool.Executor.Commands.{
  succeeds, all_permitted, Succeeded, execute-Succeeded, execute_permitted,
}

abbrev up : Reply
up = exited true (
    some ("LoadState", "loaded")
    ∷ some ("ActiveState", "active")
    ∷ some ("SubState", "running")
    ∷ none
    ∷ [])

abbrev runner : Runner
runner log c = up

abbrev parameters : Mapping
parameters = ("service", Value.text "nginx") ∷ []

restarted : succeeds (execute runner ("nginx" ∷ []) parameters []).0 ≡ true
unfolding execute state_of values_of get put
restarted = refl

execute-Succeeded_example :
    (service : String) × (only_service parameters ≡ some service)
    × (any (λ s. s == service) ("nginx" ∷ []) ≡ true)
    × Succeeded runner service []
    × ((execute runner ("nginx" ∷ []) parameters []).1
        ≡ show service ∷ restart service ∷ show service ∷ [])
execute-Succeeded_example = execute-Succeeded runner ("nginx" ∷ []) parameters [] restarted

execute_permitted_example :
    all_permitted ("nginx" ∷ []) (execute runner ("nginx" ∷ []) parameters []).1 ≡ true
execute_permitted_example = execute_permitted runner ("nginx" ∷ []) parameters [] refl
