-- ===== src/Audit/Chain.antt =====
-- What the hash chain of audit.py guarantees, and what it does not.
use helpdesktool.Prelude.{String, ◌≡◌, refl, true, List, [], ◌∷◌, ◌++◌, arith, eq_iff, length}
use helpdesktool.Audit.{
  AuditEvent, Payload, payload, Entry, genesis, last_hash, make_event, append, verify_from,
  verify_chain,
}

-- equal digests at one position of two logs come from equal payloads
abbrev pub NoCollision : (Payload → String) → List AuditEvent → List AuditEvent → Type 0
NoCollision digest (a ∷ xs) (b ∷ ys) =
    (digest (payload a) ≡ digest (payload b) → payload a ≡ payload b) × NoCollision digest xs ys
NoCollision digest _ _ = Unit

module _ (digest : Payload → String) where
  verify_from-snoc :
      (h : String) (es : List AuditEvent) (e : AuditEvent)
      → verify_from digest h es ≡ true
      → e.previous_hash ≡ last_hash h es
      → e.event_hash ≡ digest (payload e)
      → verify_from digest h (es ++ e ∷ []) ≡ true
  unfolding verify_from
  verify_from-snoc h [] e v p d =
      ground (arith, eq_iff e.previous_hash h, eq_iff (digest (payload e)) e.event_hash)
  verify_from-snoc h (x ∷ es) e v p d = ground (arith, verify_from-snoc x.event_hash es e)

  -- A log that verifies still verifies after an event is appended, whatever the event and the time.
  pub append-verify_chain :
      (es : List AuditEvent) (now : String) (a : Entry)
      → verify_chain digest es ≡ true
      → verify_chain digest (append digest es now a) ≡ true
  unfolding verify_chain append
  append-verify_chain es now a v =
      verify_from-snoc genesis es (make_event digest es now a) v refl refl

  verify_from-determined :
      (g h : String) (xs ys : List AuditEvent)
      → verify_from digest g xs ≡ true
      → verify_from digest h ys ≡ true
      → length xs ≡ length ys
      → last_hash g xs ≡ last_hash h ys
      → NoCollision digest xs ys
      → (xs ≡ ys) × (g ≡ h)
  unfolding verify_from
  verify_from-determined g h [] [] va vb l e n = (refl, e)
  verify_from-determined g h [] (b ∷ ys) va vb l e n = absurd (omega arith)
  verify_from-determined g h (a ∷ xs) [] va vb l e n = absurd (omega arith)
  verify_from-determined g h (a ∷ xs) (b ∷ ys) va vb l e n = ground (
    arith,
    verify_from-determined a.event_hash b.event_hash xs ys,
    eq_iff a.previous_hash g,
    eq_iff b.previous_hash h,
    eq_iff (digest (payload a)) a.event_hash,
    eq_iff (digest (payload b)) b.event_hash,
    n.0,
  )

  -- Two logs that verify, have one length and end in one hash are equal, event by event, unless two
  -- different payloads at one position have the same digest.
  pub verify_chain-determined :
      (xs ys : List AuditEvent)
      → verify_chain digest xs ≡ true
      → verify_chain digest ys ≡ true
      → length xs ≡ length ys
      → last_hash genesis xs ≡ last_hash genesis ys
      → NoCollision digest xs ys
      → xs ≡ ys
  unfolding verify_chain
  verify_chain-determined xs ys va vb l e n =
      (verify_from-determined genesis genesis xs ys va vb l e n).0

  verify_from-prefix :
      (h : String) (es fs : List AuditEvent)
      → verify_from digest h (es ++ fs) ≡ true
      → verify_from digest h es ≡ true
  unfolding verify_from
  verify_from-prefix h [] fs v = refl
  verify_from-prefix h (e ∷ es) fs v = ground (arith, verify_from-prefix e.event_hash es fs)

  -- Events cut off the end of a log go unnoticed: each prefix of a log that verifies verifies.
  pub verify_chain-prefix :
      (es fs : List AuditEvent)
      → verify_chain digest (es ++ fs) ≡ true
      → verify_chain digest es ≡ true
  unfolding verify_chain
  verify_chain-prefix es fs v = verify_from-prefix genesis es fs v
