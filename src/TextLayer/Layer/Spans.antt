-- ===== src/TextLayer/Layer/Spans.antt =====
-- Spans of a layer are spans of the redacted texts of its envelope.
use mathlib.Core.Option.{map}
use mathlib.Core.List.{Memᴰ}
use optimaler_status.Base.Members.{Memᴰ-keep}
use optimaler_status.Base.{
  ℕ, ◌≤◌, ◌<◌, ◌≡◌, refl, sym, ap, ◌∙◌, subst, Option, none, some, String, List, [], ◌∷◌, is_some,
  length, str_eq, eq_iff, Bool-cases, Option-cases, inl, inr, some_injective, arith,
}
use optimaler_status.Python.Text.{Text}
use optimaler_status.Contracts.Common.{Span, VersionStamp}
use optimaler_status.Contracts.Envelope.{ContentPart, Envelope, TextLayerPart, TextLayer}
use optimaler_status.TextLayer.Normalize.{Unicode, NormalizedText, normalize}
use optimaler_status.TextLayer.Normalize.Tiling.{IsProductive}
use optimaler_status.TextLayer.Translate.{translate_span}
use optimaler_status.TextLayer.Translate.Bounds.{Within, translate_span-normalize}
use optimaler_status.TextLayer.Layer.{
  has_text, text_parts, text_or_empty, layer_part_of, add_part, layer_parts, layer_of,
  build_text_layer, find_part, layer_part, original_span,
}

-- The part of the layer is made of a part in the list.
record Made (u : Unicode) (parts : List ContentPart) (p : TextLayerPart) : Type 0 where
  part : ContentPart
  normalized : NormalizedText
  is_listed : Memᴰ part parts
  comes_from : normalize u (text_or_empty part.redacted_text) ≡ some normalized
  is_made : p ≡ layer_part_of part normalized

Made-behind :
    (u : Unicode) (first : ContentPart) (parts : List ContentPart) (p : TextLayerPart)
    → Made u parts p
    → Made u (first ∷ parts) p
Made-behind u first parts p made = record {
  part = made.part;
  normalized = made.normalized;
  is_listed = Memᴰ.tail made.is_listed;
  comes_from = made.comes_from;
  is_made = made.is_made;
}

-- What a part was added to.
add_part-some :
    (part : ContentPart) (o : Option NormalizedText) (later : Option (List TextLayerPart))
    (made : List TextLayerPart)
    → add_part part o later ≡ some made
    → (normalized : NormalizedText) × (parts : List TextLayerPart) × (o ≡ some normalized)
      × (later ≡ some parts)
      × (made ≡ layer_part_of part normalized ∷ parts)
unfolding add_part
add_part-some part none later made h = absurd (cc h)
add_part-some part (some normalized) none made h = absurd (cc h)
add_part-some part (some normalized) (some parts) made h =
    (normalized, parts, refl, refl, sym (some_injective h))

find_part-Made :
    (u : Unicode) (parts : List ContentPart) (made : List TextLayerPart) (part_id : String)
    (p : TextLayerPart)
    → layer_parts u parts ≡ some made
    → find_part made part_id ≡ some p
    → (p.part_id ≡ part_id) × Made u parts p
unfolding layer_parts find_part
find_part-Made u [] made part_id p h k =
    absurd (cc (ap (λ l. find_part l part_id) (some_injective h) ∙ k))
find_part-Made u (part ∷ parts) made part_id p h k =
    let (normalized, later, e, l, m) = add_part-some part _ (layer_parts u parts) made h in
    let first = layer_part_of part normalized in
    let found : find_part (first ∷ later) part_id ≡ some p =
      ap (λ l. find_part l part_id) (sym m) ∙ k in
    elim (Bool-cases (str_eq part.part_id part_id)) [
      | inl b ↦
          let same : first ≡ p = some_injective (sym (rw b refl) ∙ found) in
          (
            ap (λ q. q.part_id) (sym same) ∙ (eq_iff part.part_id part_id).0 b,
            record {
              part = part;
              normalized = normalized;
              is_listed = Memᴰ.head refl;
              comes_from = e;
              is_made = sym same;
            },
          )
      | inr b ↦
          let (named, made) = find_part-Made u parts later part_id p l (sym (rw b refl) ∙ found) in
          (named, Made-behind u part parts p made)
    ]

layer_part-Made :
    (u : Unicode) (envelope : Envelope) (versions : VersionStamp) (now : ℕ)
    (made : List TextLayerPart) (part_id : String) (p : TextLayerPart)
    → layer_parts u (text_parts envelope) ≡ some made
    → layer_part (layer_of envelope versions now made) part_id ≡ some p
    → (p.part_id ≡ part_id) × Made u (text_parts envelope) p
unfolding layer_part
layer_part-Made u envelope versions now [] part_id p h k = absurd (cc k)
layer_part-Made u envelope versions now (first ∷ made) part_id p h k =
    find_part-Made u (text_parts envelope) (first ∷ made) part_id p h k

find_part-id :
    (parts : List TextLayerPart) (part_id : String) (p : TextLayerPart)
    → find_part parts part_id ≡ some p
    → p.part_id ≡ part_id
unfolding find_part
find_part-id [] part_id p h = absurd (cc h)
find_part-id (q ∷ parts) part_id p h = elim (Bool-cases (str_eq q.part_id part_id)) [
  | inl b ↦
      let same : q ≡ p = some_injective (sym (rw b refl) ∙ h) in
      ap (λ x. x.part_id) (sym same) ∙ (eq_iff q.part_id part_id).0 b
  | inr b ↦ find_part-id parts part_id p (sym (rw b refl) ∙ h)
]

pub layer_part-id :
    (layer : Option TextLayer) (part_id : String) (p : TextLayerPart)
    → layer_part layer part_id ≡ some p
    → p.part_id ≡ part_id
unfolding layer_part
layer_part-id none part_id p h = absurd (cc h)
layer_part-id (some layer) part_id p h = find_part-id layer.parts part_id p h

-- A layer that was built, by the parts it was built of.
build_text_layer-parts :
    (u : Unicode) (envelope : Envelope) (versions : VersionStamp) (now : ℕ)
    (layer : Option TextLayer)
    → build_text_layer u envelope versions now ≡ some layer
    → (made : List TextLayerPart) × (layer_parts u (text_parts envelope) ≡ some made)
      × (layer ≡ layer_of envelope versions now made)
unfolding build_text_layer
build_text_layer-parts u envelope versions now layer h =
    elim (Option-cases (layer_parts u (text_parts envelope))) [
      | inl e ↦ absurd (cc (sym (ap (map (layer_of envelope versions now)) e) ∙ h))
      | inr (made, e) ↦
          (made, e, some_injective (sym h ∙ ap (map (layer_of envelope versions now)) e))
    ]

-- A part of a layer that was built of an envelope is made of a text of the envelope.
record Source (u : Unicode) (envelope : Envelope) (part_id : String) (p : TextLayerPart)
    : Type 0 where
  part : ContentPart
  text : Text
  normalized : NormalizedText
  is_listed : Memᴰ part envelope.parts
  same_id : part.part_id ≡ part_id
  has : part.redacted_text ≡ some text
  comes_from : normalize u text ≡ some normalized
  is_made : p ≡ layer_part_of part normalized

layer_part-Source :
    (u : Unicode) (envelope : Envelope) (versions : VersionStamp) (now : ℕ)
    (layer : Option TextLayer) (part_id : String) (p : TextLayerPart)
    → build_text_layer u envelope versions now ≡ some layer
    → layer_part layer part_id ≡ some p
    → Source u envelope part_id p
unfolding text_parts
layer_part-Source u envelope versions now layer part_id p h k =
    let (parts, e, l) = build_text_layer-parts u envelope versions now layer h in
    let (named, made) =
      layer_part-Made u envelope versions now parts part_id p e
        (ap (λ l. layer_part l part_id) (sym l) ∙ k) in
    let (listed, has) = Memᴰ-keep has_text envelope.parts made.is_listed in
    elim (Option-cases made.part.redacted_text) [
      | inl none_there ↦ absurd (cc (sym (ap is_some none_there) ∙ has))
      | inr (text, there) ↦ record {
        part = made.part;
        text = text;
        normalized = made.normalized;
        is_listed = listed;
        same_id = sym (ap (λ q. q.part_id) made.is_made) ∙ named;
        has = there;
        comes_from = ap (λ o. normalize u (text_or_empty o)) (sym there) ∙ made.comes_from;
        is_made = made.is_made;
      }
    ]

-- A range of a redacted text of the envelope, in the part of that name.
unfoldable pub Located : Envelope → String → ℕ × ℕ → Type 0
Located envelope part_id range =
    (part : ContentPart) × (text : Text) × Memᴰ part envelope.parts
    × (part.part_id ≡ part_id)
    × (part.redacted_text ≡ some text)
    × Within range (0, length text)

-- A span that is not empty and inside the normalized text of a part of the layer that was built of
-- an envelope translates to a range that is not empty and inside the redacted text of a part of the
-- envelope with that id, where the normal form of a text that is not empty is not empty.
pub original_span-Located :
    (u : Unicode) (envelope : Envelope) (versions : VersionStamp) (now : ℕ)
    (layer : Option TextLayer) (span : Span) (p : TextLayerPart)
    → IsProductive u
    → build_text_layer u envelope versions now ≡ some layer
    → layer_part layer span.part_id ≡ some p
    → span.start < span.stop
    → span.stop ≤ length p.normalized_text
    → (range : ℕ × ℕ) × (original_span layer span ≡ some range)
      × Located envelope span.part_id range
unfolding original_span Located
original_span-Located u envelope versions now layer span p productive h k l i =
    let s = layer_part-Source u envelope versions now layer span.part_id p h k in
    let n = s.normalized in
    let within =
      translate_span-normalize u s.text n span.start span.start span.stop span.stop productive
        s.comes_from (omega arith) l (omega arith)
        (omega (arith, i, ap (λ q. length q.normalized_text) s.is_made)) in
    (
      translate_span p.offset_map span.start span.stop,
      ap (map (λ (q : TextLayerPart). translate_span q.offset_map span.start span.stop)) k,
      (
        s.part,
        s.text,
        s.is_listed,
        s.same_id,
        s.has,
        subst (λ q. Within (translate_span q.offset_map span.start span.stop) (0, length s.text))
            (sym s.is_made) within.1,
      ),
    )
