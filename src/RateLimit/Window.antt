-- ===== src/RateLimit/Window.antt =====
-- What the window of hardening.py's limiter bounds.
use helpdesktool.Prelude.{
  ℕ, ◌+◌, ◌-◌, ◌≤◌, ◌<◌, String, ◌≡◌, refl, Bool, true, false, ◌&&◌, List, [], ◌∷◌, ◌++◌, arith,
  leb, ltb, length, length-append, if◌then◌else◌, ◌==◌, any, not, ◌||◌, Bool-cases, inl, inr,
}
use helpdesktool.Prelude.Dict.{get, put}
use helpdesktool.RateLimit.{
  Request, RateLimit, Hits, exempt_paths, client_of, drop_old, prune, is_stale, window_of, admit,
  dispatch,
}

-- no client's window holds more than `n` times
abbrev pub windows_ok : ℕ → Hits → Bool
windows_ok n [] = true
windows_ok n ((ip, window) ∷ hits) = let rest = windows_ok n hits in leb (length window) n && rest

-- the requests with their times, one after the other
unfoldable pub serve : RateLimit → List (Request × ℕ) → Hits → Hits
serve l [] hits = hits
serve l ((r, now) ∷ rs) hits = serve l rs (dispatch l r now hits).1

module _ (n : ℕ) where
  windows_ok-put :
      (ip : String) (window : List ℕ) (hits : Hits)
      → length window ≤ n
      → windows_ok n hits ≡ true
      → windows_ok n (put ip window hits) ≡ true
  unfolding put
  windows_ok-put ip window [] b h = ground arith
  windows_ok-put ip window ((j, w) ∷ hits) b h = ground (arith, windows_ok-put ip window hits)

  windows_ok-prune :
      (width now : ℕ) (hits : Hits)
      → windows_ok n hits ≡ true
      → windows_ok n (prune width now hits) ≡ true
  unfolding prune
  windows_ok-prune width now [] h = refl
  windows_ok-prune width now ((j, w) ∷ hits) h = elim (Bool-cases (is_stale width now w)) [
    | inl stale ↦ rw stale (windows_ok-prune width now hits (ground arith))
    | inr kept ↦ rw kept (ground (arith, windows_ok-prune width now hits))
  ]

  window_of_le :
      (ip : String) (hits : Hits) → windows_ok n hits ≡ true → length (window_of ip hits) ≤ n
  unfolding get
  window_of_le ip [] h = omega arith
  window_of_le ip ((j, w) ∷ hits) h = ground (arith, window_of_le ip hits)

length-drop_old : (width now : ℕ) (ts : List ℕ) → length (drop_old width now ts) ≤ length ts
unfolding drop_old
length-drop_old width now [] = omega arith
length-drop_old width now (t ∷ ts) = ground (arith, length-drop_old width now ts)

admit_ok :
    (n width : ℕ) (ip : String) (now : ℕ) (window : List ℕ) (hits : Hits)
    → length window < n
    → windows_ok n hits ≡ true
    → windows_ok n (admit width ip now window hits) ≡ true
admit_ok n width ip now window hits b h =
    let hits' = put ip (window ++ now ∷ []) hits in
    let fits =
      windows_ok-put n ip (window ++ now ∷ []) hits (omega (arith, length-append window (now ∷ [])))
        h in
    elim (Bool-cases (ltb 10000 (length hits'))) [
      | inl large ↦ rw large (windows_ok-prune n width now hits' fits)
      | inr small ↦ rw small fits
    ]

dispatch_ok :
    (l : RateLimit) (r : Request) (now : ℕ) (hits : Hits)
    → windows_ok l.max_requests hits ≡ true
    → windows_ok l.max_requests (dispatch l r now hits).1 ≡ true
unfolding dispatch
dispatch_ok l r now hits h =
    let ip = client_of r in
    let window = drop_old l.window_seconds now (window_of ip hits) in
    elim (Bool-cases
      (not l.enabled || r.method == "OPTIONS" || any (λ p. p == r.path) exempt_paths)) [
        | inl exempt ↦ rw exempt h
        | inr limited ↦ elim (Bool-cases (leb l.max_requests (length window))) [
          | inl full ↦
              rw (limited, full)
                (windows_ok-put l.max_requests ip window hits
                  (omega (
                    arith,
                    length-drop_old l.window_seconds now (window_of ip hits),
                    window_of_le l.max_requests ip hits h,
                  ))
                  h)
          | inr free ↦
              rw (limited, free)
                (admit_ok l.max_requests l.window_seconds ip now window hits (ground arith) h)
        ]
      ]

-- Through any requests at any times, no client has more counted requests in the table than the maximum.
pub serve_bounded :
    (l : RateLimit) (rs : List (Request × ℕ)) (hits : Hits)
    → windows_ok l.max_requests hits ≡ true
    → windows_ok l.max_requests (serve l rs hits) ≡ true
unfolding serve
serve_bounded l [] hits h = h
serve_bounded l ((r, now) ∷ rs) hits h =
    serve_bounded l rs (dispatch l r now hits).1 (dispatch_ok l r now hits h)

-- the times are in order, the oldest first
abbrev pub in_order : List ℕ → Bool
in_order [] = true
in_order (t ∷ []) = true
in_order (t ∷ u ∷ ts) = let rest = in_order (u ∷ ts) in leb t u && rest

-- the times that are no older than the window
abbrev pub recent : ℕ → ℕ → List ℕ → ℕ
recent width now [] = 0
recent width now (t ∷ ts) =
    let rest = recent width now ts in if ltb width (now - t) then rest else 1 + rest

recent_head :
    (width now t : ℕ) (ts : List ℕ)
    → in_order (t ∷ ts) ≡ true
    → ltb width (now - t) ≡ false
    → recent width now ts ≡ length ts
recent_head width now t [] o h = refl
recent_head width now t (u ∷ ts) o h = ground (arith, recent_head width now u ts)

recent-drop_old :
    (width now : ℕ) (ts : List ℕ)
    → in_order ts ≡ true
    → length (drop_old width now ts) ≡ recent width now ts
unfolding drop_old
recent-drop_old width now [] o = refl
recent-drop_old width now (t ∷ []) o = ground arith
recent-drop_old width now (t ∷ u ∷ ts) o =
    ground (arith, recent-drop_old width now (u ∷ ts), recent_head width now t (u ∷ ts))

-- A request that the limiter counts goes on exactly when fewer than the maximum of the client's counted
-- requests are no older than the window, the client's times being in order.
pub dispatch-recent :
    (l : RateLimit) (r : Request) (now : ℕ) (hits : Hits)
    → l.enabled ≡ true
    → r.method == "OPTIONS" ≡ false
    → any (λ p. p == r.path) exempt_paths ≡ false
    → in_order (window_of (client_of r) hits) ≡ true
    → (dispatch l r now hits).0
      ≡ ltb (recent l.window_seconds now (window_of (client_of r) hits)) l.max_requests
unfolding dispatch
dispatch-recent l r now hits e m p o =
    ground (arith, e, m, p, recent-drop_old l.window_seconds now (window_of (client_of r) hits) o)
