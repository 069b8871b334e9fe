-- ===== src/Format/Tests.antt =====
-- Formatted text and entities at concrete messages.
use golagram.Base.{ℕ, ◌≡◌, refl, List, [], ◌∷◌, ◌++◌, none, codes, arith}
use golagram.Utf16.{encode, is_scalar, utf16_len, is_high_surrogate}
use golagram.Format.{
  Node, string_part, node_part, text, bold, text_link, MessageEntity, render, entity_segments,
}
use golagram.Format.Rendered.{plain_text, formatted, read_entities, render-formatted}
use golagram.Format.Segments.{texts, entity_segments-texts}
use golagram.Format.Covering.{entities_at, entities_over}
use golagram.Format.Coverage.{entity_segments-entities_over}

abbrev smile : List ℕ
smile = 0x1F600 ∷ []

-- "Hi <b>Al 😀</b>"
abbrev greeting : Node
unfolding text bold
greeting = text (
    string_part (codes "Hi ")
    ∷ node_part (bold (string_part smile ∷ node_part (text_link (codes "me") (codes "u")) ∷ []))
    ∷ [])

render-formatted_example :
    ((render greeting).0 ≡ plain_text greeting)
    × (read_entities (render greeting).0 (render greeting).1 ≡ formatted greeting)
unfolding plain_text utf16_len encode is_scalar greeting text_link
render-formatted_example =
    render-formatted greeting (omega arith) (refl, (refl, (refl, (refl, (refl, (refl, tt))))))

greeting_nodes :
    formatted greeting ≡ (codes "bold", smile ++ codes "me") ∷ (codes "text_link", codes "me") ∷ []
unfolding formatted greeting golagram.Format.is_plain text_link
greeting_nodes = refl

abbrev bold_at : ℕ → ℕ → MessageEntity
bold_at start units = record {
  kind = codes "bold";
  offset = start;
  length_units = units;
  url = [];
  user = none;
  language = [];
  custom_emoji_id = [];
}

-- An entity that begins inside the smile, and one that lies behind the text.
entity_segments-texts_example :
    texts (entity_segments (smile ++ codes "ab") (bold_at 1 2 ∷ bold_at 9 4 ∷ []))
    ≡ smile ++ codes "ab"
unfolding is_scalar
entity_segments-texts_example =
    entity_segments-texts (smile ++ codes "ab") (bold_at 1 2 ∷ bold_at 9 4 ∷ [])
      (refl, (refl, (refl, tt)))

entity_segments-entities_over_example :
    entities_at (entity_segments (smile ++ codes "ab") (bold_at 0 3 ∷ bold_at 2 2 ∷ [])) 2
    ≡ entities_over (bold_at 0 3 ∷ bold_at 2 2 ∷ []) 2
unfolding utf16_len encode is_high_surrogate
entity_segments-entities_over_example =
    entity_segments-entities_over (smile ++ codes "ab") (bold_at 0 3 ∷ bold_at 2 2 ∷ []) 2
      (omega arith) ((omega arith, tt, refl), ((omega arith, refl, refl), tt)) (omega arith)
