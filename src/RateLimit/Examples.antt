-- ===== src/RateLimit/Examples.antt =====
-- One client, a limit of two requests in ten ticks.
use helpdesktool.Prelude.{◌≡◌, refl, true, some, List, [], ◌∷◌, ltb, ℕ}
use helpdesktool.Prelude.Dict.{get}
use helpdesktool.RateLimit.{Request, RateLimit, Hits, window_of, dispatch}
use helpdesktool.RateLimit.Window.{windows_ok, serve, serve_bounded, recent, dispatch-recent}

abbrev limit : RateLimit
limit = record { max_requests = 2; window_seconds = 10; enabled = true }

abbrev read : Request
read = record { method = "GET"; path = "/v1/devices"; client = some "10.0.0.1" }

abbrev requests : List (Request × ℕ)
requests = (read, 1) ∷ (read, 2) ∷ (read, 3) ∷ (read, 12) ∷ []

abbrev busy : Hits
busy = ("10.0.0.1", 1 ∷ 2 ∷ []) ∷ []

serve_bounded_example : windows_ok 2 (serve limit requests []) ≡ true
serve_bounded_example = serve_bounded limit requests [] refl

busy_in_order : window_of "10.0.0.1" busy ≡ 1 ∷ 2 ∷ []
unfolding get
busy_in_order = refl

dispatch-recent_example :
    (dispatch limit read 12 busy).0 ≡ ltb (recent 10 12 (window_of "10.0.0.1" busy)) 2
unfolding get
dispatch-recent_example = dispatch-recent limit read 12 busy refl refl refl refl
