-- ===== src/TextLayer/Layer/Totality.antt =====
-- A layer is built of every envelope, with a part for each text.
use mathlib.Core.List
use mathlib.Core.Option.{map}
use optimaler_status.Base.{ℕ, ◌≡◌, refl, sym, ap, ◌∙◌, Option, none, some, List, [], ◌∷◌}
use optimaler_status.Contracts.Common.{VersionStamp}
use optimaler_status.Contracts.Envelope.{ContentPart, Envelope, TextLayerPart, TextLayer}
use optimaler_status.TextLayer.Normalize.{Unicode}
use optimaler_status.TextLayer.Normalize.Origin.{normalize-Explained}
use optimaler_status.TextLayer.Layer.{
  text_parts, text_or_empty, layer_part_of, add_part, layer_parts, layer_of, build_text_layer,
}

module _ (u : Unicode) where
  layer_parts_total :
      (parts : List ContentPart)
      → (made : List TextLayerPart) × (layer_parts u parts ≡ some made)
        × (List.map (λ (p : TextLayerPart). p.part_id) made
            ≡ List.map (λ (p : ContentPart). p.part_id) parts)
  unfolding layer_parts add_part
  layer_parts_total [] = ([], refl, refl)
  layer_parts_total (part ∷ parts) =
      let (r, h, why) = normalize-Explained u (text_or_empty part.redacted_text) in
      let (made, k, ids) = layer_parts_total parts in
      (layer_part_of part r ∷ made, rw (h, k) refl, ap (λ l. part.part_id ∷ l) ids)

-- A layer of parts that were built of an envelope: none without a text, or one part for each part
-- with a text, in their order.
pub Covers : Envelope → Option TextLayer → Type 0
Covers envelope none = text_parts envelope ≡ []
Covers envelope (some layer) =
    List.map (λ (p : TextLayerPart). p.part_id) layer.parts
    ≡ List.map (λ (p : ContentPart). p.part_id) (text_parts envelope)

layer_of-Covers :
    (envelope : Envelope) (versions : VersionStamp) (now : ℕ) (made : List TextLayerPart)
    (parts : List ContentPart)
    → text_parts envelope ≡ parts
    → List.map (λ (p : TextLayerPart). p.part_id) made
      ≡ List.map (λ (p : ContentPart). p.part_id) parts
    → Covers envelope (layer_of envelope versions now made)
unfolding Covers
layer_of-Covers envelope versions now [] [] e h = e
layer_of-Covers envelope versions now [] (part ∷ parts) e h = absurd (cc h)
layer_of-Covers envelope versions now (p ∷ made) parts e h =
    h ∙ ap (List.map (λ (p : ContentPart). p.part_id)) (sym e)

-- Building the layer of an envelope ends: without a layer where no part has a text, and otherwise
-- with one part for each part with a text, with its id and in their order.
pub build_text_layer_total :
    (u : Unicode) (envelope : Envelope) (versions : VersionStamp) (now : ℕ)
    → (layer : Option TextLayer) × (build_text_layer u envelope versions now ≡ some layer)
      × Covers envelope layer
unfolding build_text_layer
build_text_layer_total u envelope versions now =
    let (made, h, ids) = layer_parts_total u (text_parts envelope) in
    (
      layer_of envelope versions now made,
      ap (map (layer_of envelope versions now)) h,
      layer_of-Covers envelope versions now made (text_parts envelope) refl ids,
    )
