-- ===== src/RateLimit.antt =====
-- helpdesktool/hardening.py: the sliding-window limit on a client's requests, kept in the memory of one
-- process. Times and the window are in ticks of `time.monotonic`, which never goes back.
pub mod Window
pub mod Examples
use helpdesktool.Prelude.{
  ℕ, ◌+◌, ◌*◌, ◌-◌, String, Bool, true, false, ◌&&◌, ◌||◌, not, Option, none, some, List, [], ◌∷◌,
  ◌++◌, ltb, leb, length, if◌then◌else◌, any, ◌==◌,
}
use helpdesktool.Prelude.Dict.{Dict, get, put, remove}

-- what `dispatch` reads of a request
pub record Request : Type 0 where
  pub method : String
  pub path : String
  pub client : Option String

pub record RateLimit : Type 0 where
  pub max_requests : ℕ
  pub window_seconds : ℕ
  pub enabled : Bool

-- `_hits`: the times of a client's requests, the oldest first
abbrev pub Hits : Type 0
Hits = Dict (List ℕ)

abbrev pub exempt_paths : List String
exempt_paths = "/health/live" ∷ "/health/ready" ∷ "/metrics" ∷ []

abbrev pub client_of : Request → String
client_of r = elim r.client [ none ↦ "unknown" | some ip ↦ ip ]

-- the `while` loop
unfoldable pub drop_old : ℕ → ℕ → List ℕ → List ℕ
drop_old width now [] = []
drop_old width now (t ∷ ts) =
    let rest = drop_old width now ts in if ltb width (now - t) then rest else t ∷ ts

-- `window[-1]`, and 0 for an empty window
abbrev pub newest : List ℕ → ℕ
newest [] = 0
newest (t ∷ []) = t
newest (t ∷ u ∷ ts) = newest (u ∷ ts)

abbrev pub is_stale : ℕ → ℕ → List ℕ → Bool
is_stale width now [] = true
is_stale width now (t ∷ ts) = ltb (width * 2) (now - newest (t ∷ ts))

-- `_prune`
unfoldable pub prune : ℕ → ℕ → Hits → Hits
prune width now [] = []
prune width now ((ip, window) ∷ hits) =
    let rest = prune width now hits in
    if is_stale width now window then rest else (ip, window) ∷ rest

abbrev pub window_of : String → Hits → List ℕ
window_of ip hits = elim (get ip hits) [ none ↦ [] | some window ↦ window ]

-- the request is counted, and the table pruned once it is large
abbrev pub admit : ℕ → String → ℕ → List ℕ → Hits → Hits
admit width ip now window hits =
    let hits' = put ip (window ++ now ∷ []) hits in
    if ltb 10000 (length hits') then prune width now hits' else hits'

-- `dispatch`: whether the request goes on, and the table; a request that does not gets a 429
unfoldable pub dispatch : RateLimit → Request → ℕ → Hits → Bool × Hits
unfolding drop_old prune
dispatch l r now hits =
    let ip = client_of r in
    let window = drop_old l.window_seconds now (window_of ip hits) in
    if not l.enabled || r.method == "OPTIONS" || any (λ p. p == r.path) exempt_paths
    then (true, hits)
    else if leb l.max_requests (length window)
    then (false, put ip window hits)
    else (true, admit l.window_seconds ip now window hits)
