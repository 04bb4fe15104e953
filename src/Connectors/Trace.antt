-- ===== src/Connectors/Trace.antt =====
-- What is true of a connector request after any sequence of events.
use helpdesktool.Prelude.{
  arith, ℕ, String, Bool, true, false, ◌&&◌, ◌||◌, Option, none, some, List, [], ◌∷◌, ◌==◌, eq_refl,
  eq_iff, any, ◌≡◌, ◌⊎◌, inl, inr, refl, ap, ◌∙◌,
}
use helpdesktool.Prelude.Dict.{Dict, get}
use helpdesktool.Models.{Value}
use helpdesktool.Connectors.{ApplicationConnector, ConnectorRequest, Db}
use helpdesktool.Connectors.Requests.{
  Event, generate, Stage, waiting, refused, ran, lapsed, stage_of, is_high, IsSame,
  IsSame-requester, IsSame-risk, Step, stay, mint, refuse, run, lapse, serve, serve_all,
}
use helpdesktool.Connectors.Runs.{serve-IsNext}

-- the event is a user's demand for a code of the request
abbrev pub asks_code : String → String → Event → Bool
asks_code id requester (generate j p code now) = j == id && p.actor_id == requester
asks_code id requester _ = false

-- somebody else decided
abbrev pub Other : String → Option String → Type 0
Other requester none = ⊥
Other requester (some d) = (requester == d) ≡ false

abbrev pub is_waiting : Stage → Bool
is_waiting (waiting hash expires) = true
is_waiting _ = false

-- who stands behind a stage; `asked` says that the requester has asked for a code
abbrev pub Warranted : String → Bool → Bool → Stage → Type 0
Warranted requester high asked (waiting none expires) = Unit
Warranted requester high asked (waiting (some hash) expires) = asked ≡ true
Warranted requester high asked (refused decided_by) = Other requester decided_by
Warranted requester high asked (ran decided_by success) =
    Other requester decided_by × ((high ≡ false) ⊎ (asked ≡ true))
Warranted requester high asked lapsed = Unit

Warranted-or :
    (requester : String) (high a b : Bool) (s : Stage)
    → Warranted requester high a s
    → Warranted requester high (a || b) s
Warranted-or requester high a b (waiting none expires) h = tt
Warranted-or requester high a b (waiting (some hash) expires) h = ground arith
Warranted-or requester high a b (refused d) h = h
Warranted-or requester high a b (ran d success) (other, inl low) = (other, inl low)
Warranted-or requester high a b (ran d success) (other, inr asked) = (other, inr (ground arith))
Warranted-or requester high a b lapsed h = tt

asked_waiting :
    (requester : String) (high asked : Bool) (hash : Option String) (expires : Option ℕ)
    (h : String)
    → hash ≡ some h
    → Warranted requester high asked (waiting hash expires)
    → asked ≡ true
asked_waiting requester high asked none expires h e k = cc
asked_waiting requester high asked (some g) expires h e k = k

or_assoc : (a b c : Bool) → ((a || b) || c) ≡ (a || (b || c))
or_assoc a b c = ground arith

-- the same of a request whose requester and risk are the same
Warranted-same :
    (c : String → Bool) (req req' : String) (high high' a b : Bool) (s : Stage)
    → req' ≡ req
    → high' ≡ high
    → Warranted req' high' ((a || b) || c req') s
    → Warranted req high (a || (b || c req)) s
Warranted-same c req req' high high' a b s e f h =
    let h' = rw (e, f) at h in rw (← (or_assoc a b (c req))) h'

module _ (sha256 : String → String) where
  Step-Warranted :
      (id requester : String) (high asked : Bool) (born : ℕ) (e : Event) (s s' : Stage)
      → Step sha256 id requester high born e s s'
      → Warranted requester high asked s
      → Warranted requester high (asked || asks_code id requester e) s'
  Step-Warranted id requester high asked born e s s' stay h =
      Warranted-or requester high asked _ s h
  Step-Warranted id requester high asked born e s s' (mint {p = p} actor risk) h =
      ground (arith, eq_refl id, eq_iff p.actor_id requester)
  Step-Warranted id requester high asked born e s s' (refuse other d) h = other
  Step-Warranted id requester high asked born e s s' (run other a (inl low)) h = (other, inl low)
  Step-Warranted id requester high asked born e s s'
        (run {hash = hash} {expires = expires} other a (inr shown)) h =
      let e = asked_waiting requester high asked hash expires (sha256 shown.code) shown.matches h in
      (other, inr (ground (arith, e)))
  Step-Warranted id requester high asked born e s s' (lapse old) h = tt

  module _ {W : Type 0} (show : Value → String) (registry : Dict (ApplicationConnector W)) where
    serve_all_from :
        (es : List Event) (k : String) (db : Db) (w : W) (r : ConnectorRequest) (asked : Bool)
        → get k db.requests ≡ some r
        → Warranted r.requested_by (is_high r) asked (stage_of r)
        → (r' : ConnectorRequest) × (get k (serve_all sha256 show registry es (db, w)).0.requests
            ≡ some r')
          × IsSame r r'
          × Warranted r.requested_by
              (is_high r)
              (asked || any (asks_code k r.requested_by) es)
              (stage_of r')
    unfolding serve_all
    serve_all_from [] k db w r asked found h =
        (r, found, refl, Warranted-or r.requested_by (is_high r) asked false (stage_of r) h)
    serve_all_from (e ∷ es) k db w r asked found h =
        let (q, next_found, next) = serve-IsNext sha256 show registry e k db w r found in
        let s = serve sha256 show registry e (db, w) in
        let warranted =
          Step-Warranted k r.requested_by (is_high r) asked r.created_at e (stage_of r) (stage_of q)
            next.step h in
        let (r', last, same, all) =
          serve_all_from es k s.0 s.1 q (asked || asks_code k r.requested_by e) next_found
            (rw (IsSame-requester r q next.same, IsSame-risk r q next.same) warranted) in
        (
          r',
          last,
          same ∙ next.same,
          Warranted-same (λ x. any (asks_code k x) es) r.requested_by q.requested_by (is_high r)
              (is_high q) asked (asks_code k r.requested_by e) (stage_of r')
              (IsSame-requester r q next.same) (ap (λ x. x == "high") (IsSame-risk r q next.same))
              all,
        )

    -- After any sequence of events, a request that was waiting without a code has the tenant, the requester, the
    -- connector, the risk, the operation and the target that it had. If it was denied or run, somebody other than its requester
    -- decided, and if it was run at a high risk, its requester has asked for a code in between.
    pub serve_all-Warranted :
        (es : List Event) (k : String) (db : Db) (w : W) (r : ConnectorRequest)
        → get k db.requests ≡ some r
        → stage_of r ≡ waiting none none
        → (r' : ConnectorRequest) × (get k (serve_all sha256 show registry es (db, w)).0.requests
            ≡ some r')
          × IsSame r r'
          × Warranted r.requested_by (is_high r) (any (asks_code k r.requested_by) es) (stage_of r')
    serve_all-Warranted es k db w r found start =
        serve_all_from es k db w r false found (rw start tt)

    final_stays :
        (id requester : String) (high : Bool) (born : ℕ) (e : Event) (s s' : Stage)
        → is_waiting s ≡ false
        → Step sha256 id requester high born e s s'
        → s' ≡ s
    final_stays id requester high born e s s' final stay = refl
    final_stays id requester high born e s s' final (mint actor risk) = cc
    final_stays id requester high born e s s' final (refuse other d) = cc
    final_stays id requester high born e s s' final (run other a shown) = cc
    final_stays id requester high born e s s' final (lapse old) = cc

    -- A request that was denied, run or expired stays so, with the one who decided and the result, whatever
    -- happens afterwards.
    pub serve_all-final :
        (es : List Event) (k : String) (db : Db) (w : W) (r : ConnectorRequest)
        → get k db.requests ≡ some r
        → is_waiting (stage_of r) ≡ false
        → (r' : ConnectorRequest) × (get k (serve_all sha256 show registry es (db, w)).0.requests
            ≡ some r')
          × (stage_of r' ≡ stage_of r)
    unfolding serve_all
    serve_all-final [] k db w r found final = (r, found, refl)
    serve_all-final (e ∷ es) k db w r found final =
        let (q, next_found, next) = serve-IsNext sha256 show registry e k db w r found in
        let s = serve sha256 show registry e (db, w) in
        let kept =
          final_stays k r.requested_by (is_high r) r.created_at e (stage_of r) (stage_of q) final
            next.step in
        let (r', last, same) = serve_all-final es k s.0 s.1 q next_found (rw kept final) in
        (r', last, same ∙ kept)
