-- ===== src/Format/Segments.antt =====
-- What EntitySegments (entity_text.go) keeps of the text.
use golagram.Base.{
  ℕ, ◌≡◌, refl, ap, ◌∙◌, sym, false, List, [], ◌∷◌, inl, inr, leb, ◌==◌, Bool-cases, length, map,
  concat, drop, drop-length, slice-append-drop, arith,
}
use golagram.Utf16.{encode, decode}
use golagram.Utf16.Laws.{encode-Paired, decode-append, decode-encode}
use golagram.Split.Boundary.{ends_high-slice}
use golagram.Format.{MessageEntity, EntitySegment, segments_from, segments_of, entity_segments}
use golagram.Format.Bounds.{Chain, IsBounds, entity_boundaries-IsBounds}
use golagram.Format.Positions.{IsText}

abbrev pub texts : List EntitySegment → List ℕ
texts gs = concat (map (λ (g : EntitySegment). g.text) gs)

decode-nil : decode [] ≡ []
unfolding decode
decode-nil = refl

length-zero : (u : List ℕ) → length u ≡ 0 → u ≡ []
length-zero [] h = refl
length-zero (c ∷ u) h = absurd (omega arith)

-- Boundaries that ascend cut the text behind them into the segments.
segments_from-texts :
    (u : List ℕ) (es : List MessageEntity) (a : ℕ) (bs : List ℕ)
    → Chain u a bs
    → texts (segments_from u es a bs) ≡ decode (drop a u)
unfolding segments_from
segments_from-texts u es a [] h = rw (h, drop-length u) (sym decode-nil)
segments_from-texts u es a (b ∷ bs) h =
    let e : leb b a ≡ false = ground (arith, h.0) in
    let whole = ends_high-slice u a b (omega (arith, h.0)) h.1 h.2 in
    rw (e, segments_from-texts u es b bs h.3)
      (sym (decode-append _ _ whole) ∙ ap decode (slice-append-drop u a b (omega (arith, h.0))))

segments_of-texts :
    (u : List ℕ) (es : List MessageEntity) (xs : List ℕ)
    → IsBounds u xs
    → texts (segments_of u es xs) ≡ decode u
segments_of-texts u es [] h = absurd h
segments_of-texts u es (a ∷ bs) h =
    segments_from-texts u es a bs h.1 ∙ ap (λ k. decode (drop k u)) h.0

-- The texts of the segments, one after the other, are the whole text, whatever the entities are:
-- they may be empty, overlap, lie outside of the text or begin and end inside a surrogate pair. The
-- text is valid Unicode.
pub entity_segments-texts :
    (s : List ℕ) (es : List MessageEntity) → IsText s → texts (entity_segments s es) ≡ s
unfolding entity_segments
entity_segments-texts s es t = elim (Bool-cases (length (encode s) == 0)) [
  | inl e ↦
      rw e (
        sym decode-nil
        ∙ ap decode (sym (length-zero (encode s) (ground arith)))
        ∙ decode-encode s t)
  | inr e ↦ rw e (
      segments_of-texts (encode s) es _
        (entity_boundaries-IsBounds es (encode s) (encode-Paired s) (ground arith))
      ∙ decode-encode s t)
]
