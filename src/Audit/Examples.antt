-- ===== src/Audit/Examples.antt =====
-- Runs of audit.py on a log of two events.
use helpdesktool.Prelude.{◌≡◌, refl, String, true, [], ◌∷◌}
use helpdesktool.Audit.{AuditEvent, Payload, Entry, append, verify_chain, verify_from, make_event}
use helpdesktool.Audit.Chain.{append-verify_chain, verify_chain-determined}

abbrev digest : Payload → String
digest p = p.event_type

abbrev entry : String → Entry
entry event_type = record {
  tenant_id = "t";
  correlation_id = "c";
  event_type = event_type;
  actor_id = "ann";
  details = [];
}

abbrev first : AuditEvent
first = make_event digest [] "2024" (entry "asked")

abbrev second : AuditEvent
second = make_event digest (first ∷ []) "2025" (entry "done")

both_verify : verify_chain digest (first ∷ second ∷ []) ≡ true
unfolding verify_chain verify_from
both_verify = refl

append-verify_chain_example :
    verify_chain digest (append digest (first ∷ second ∷ []) "2026" (entry "closed")) ≡ true
append-verify_chain_example =
    append-verify_chain digest (first ∷ second ∷ []) "2026" (entry "closed") both_verify

verify_chain-determined_example : (first ∷ second ∷ []) ≡ (first ∷ second ∷ [])
verify_chain-determined_example =
    verify_chain-determined digest (first ∷ second ∷ []) (first ∷ second ∷ []) both_verify
      both_verify refl refl (λ _. refl, (λ _. refl, tt))
