-- ===== src/Graph/Validation/Evidence.antt =====
-- What `validateEvidence` of graph/facts.go accepts.
use agent_wayfinder.Prelude.{◌≡◌, ◌≢◌, ◌↔◌, ◌⊎◌, false, not, ◌&&◌, ◌==◌, arith, eq_iff, ok}
use agent_wayfinder.Prelude.Int.{pos, ◌<ℤ◌, ◌≤ℤ◌}
use agent_wayfinder.Graph.{
  FactEvidence, SourceSpan, Confidence, confidence_extracted, confidence_inferred,
  confidence_ambiguous,
}
use agent_wayfinder.Graph.Validation.{
  is_incomplete, starts_after_end, has_unsupported_confidence, validate_evidence,
}

-- Positions count from 1, and the span does not end before it starts.
pub record IsSpan (s : SourceSpan) : Type 0 where
  pub path : s.path ≢ ""
  pub start_line : pos 1 ≤ℤ s.start_line
  pub start_column : pos 1 ≤ℤ s.start_column
  pub end_line : pos 1 ≤ℤ s.end_line
  pub end_column : pos 1 ≤ℤ s.end_column
  pub ordered :
      (s.start_line <ℤ s.end_line) ⊎ (s.start_line ≡ s.end_line) × (s.start_column ≤ℤ s.end_column)

pub record IsEvidence (e : FactEvidence) : Type 0 where
  pub span : IsSpan e.span
  pub file_hash : e.file_hash ≢ ""
  pub extractor : e.extractor ≢ ""
  pub provenance : e.provenance ≢ ""
  pub confidence :
      (e.confidence ≡ confidence_extracted)
      ⊎ (e.confidence ≡ confidence_inferred)
      ⊎ (e.confidence ≡ confidence_ambiguous)

pub validate_evidence_sound : (e : FactEvidence) → validate_evidence e ≡ ok tt → IsEvidence e
unfolding validate_evidence is_incomplete starts_after_end has_unsupported_confidence
validate_evidence_sound e h = ground (
  arith,
  eq_iff e.span.path "",
  eq_iff e.file_hash "",
  eq_iff e.extractor "",
  eq_iff e.provenance "",
  eq_iff e.confidence confidence_extracted,
  eq_iff e.confidence confidence_inferred,
  eq_iff e.confidence confidence_ambiguous,
)

is_complete : (e : FactEvidence) → IsEvidence e → is_incomplete e ≡ false
unfolding is_incomplete
is_complete e v = ground (
  arith,
  eq_iff e.span.path "",
  eq_iff e.file_hash "",
  eq_iff e.extractor "",
  eq_iff e.provenance "",
)

is_ordered : (e : FactEvidence) → IsSpan e.span → starts_after_end e ≡ false
unfolding starts_after_end
is_ordered e v = ground arith

is_supported : (e : FactEvidence) → IsEvidence e → has_unsupported_confidence e ≡ false
unfolding has_unsupported_confidence
is_supported e v = supported e.confidence v.confidence
  where
    supported :
        (c : Confidence)
        → (c ≡ confidence_extracted) ⊎ (c ≡ confidence_inferred) ⊎ (c ≡ confidence_ambiguous)
        → (not (c == confidence_extracted)
            && not (c == confidence_inferred)
            && not (c == confidence_ambiguous))
          ≡ false
    supported c h = ground (
      arith,
      eq_iff c confidence_extracted,
      eq_iff c confidence_inferred,
      eq_iff c confidence_ambiguous,
    )

-- `validateEvidence` accepts exactly the complete evidence with an ordered span and a known
-- confidence.
pub validate_evidence_iff : (e : FactEvidence) → (validate_evidence e ≡ ok tt) ↔ IsEvidence e
validate_evidence_iff e = (
  validate_evidence_sound e,
  λ v. unfold validate_evidence in rw (is_complete e v, is_ordered e v.span, is_supported e v),
)
