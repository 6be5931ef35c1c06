-- ===== src/Extract/Verify/Provenance.antt =====
-- Where in the item a verified value stands.
use optimaler_status.Base.{
  ℕ, ◌<◌, ◌≡◌, ap, ◌∙◌, subst, false, Option, some, String, List, [], ◌∷◌, length, arith,
}
use optimaler_status.Python.Text.{Text, is_empty, strip}
use optimaler_status.Contracts.Common.{Span, VersionStamp}
use optimaler_status.Contracts.Envelope.{Envelope, TextLayer}
use optimaler_status.TextLayer.Normalize.{Unicode}
use optimaler_status.TextLayer.Normalize.Tiling.{IsProductive}
use optimaler_status.TextLayer.Layer.{build_text_layer, layer_part, original_span}
use optimaler_status.TextLayer.Layer.Spans.{Located, layer_part-id, original_span-Located}
use optimaler_status.Extract.Records.{Proposal, ExtractionRecord, ExtractionConfig}
use optimaler_status.Extract.Verify.{Matching, quote_span, verify_proposal}
use optimaler_status.Extract.Verify.Locks.{verify_proposal_iff}
use optimaler_status.Extract.Verify.Verbatim.{record_of-span}

not_blank : (text : Text) → is_empty (strip text) ≡ false → 0 < length text
unfolding strip
not_blank [] h = absurd (cc h)
not_blank (c ∷ text) h = omega arith

-- Against the layer that was built of an envelope, a record that verification makes has a span that
-- translates to a range that is not empty and inside the redacted text of a part of the envelope with
-- the id that the proposal names, where the normal form of a text that is not empty is not empty.
pub verify_proposal-Located :
    (u : Unicode) (envelope : Envelope) (versions : VersionStamp) (now : ℕ)
    (layer : Option TextLayer) (m : Matching) (config : ExtractionConfig)
    (known : Option (List String)) (p : Proposal) (r : ExtractionRecord)
    → IsProductive u
    → build_text_layer u envelope versions now ≡ some layer
    → (verify_proposal m config known layer p).record_ ≡ some r
    → (span : Span) × (range : ℕ × ℕ) × (r.span ≡ some span)
      × (original_span layer span ≡ some range)
      × Located envelope p.part_id range
verify_proposal-Located u envelope versions now layer m config known p r productive built h =
    let l = (verify_proposal_iff m config known layer p r).0 h in
    let (span, value, field) = record_of-span m config p l.part l.offset _ _ in
    let (range, translated, located) =
      original_span-Located u envelope versions now layer (quote_span p l.part l.offset) l.part
        productive built
        (ap (layer_part layer) (layer_part-id layer p.part_id l.part l.found) ∙ l.found)
        (omega (arith, not_blank p.quote l.has_quote)) l.fits in
    (
      quote_span p l.part l.offset,
      range,
      ap (λ x. x.span) l.recorded ∙ span,
      translated,
      subst (λ i. Located envelope i range) (layer_part-id layer p.part_id l.part l.found) located,
    )
