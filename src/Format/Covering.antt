-- ===== src/Format/Covering.antt =====
-- What the entities of a segment of EntitySegments (entity_text.go) cover, between boundaries at which
-- entities begin and end.
use golagram.Base.{
  ℕ, ◌+◌, ◌-◌, ◌≤◌, ◌<◌, ◌≡◌, refl, ap, ◌∙◌, false, ◌&&◌, List, [], ◌∷◌, ◌⊎◌, inl, inr, ltb, leb,
  if◌then◌else◌, Bool-cases, length, drop, slice, length-slice, All, All-take, All-drop, arith,
}
use golagram.Utf16.{decode, utf16_len}
use golagram.Utf16.Laws.{IsUnits, length-encode-decode}
use golagram.Split.Boundary.{IsBoundary}
use golagram.Format.{
  MessageEntity, EntitySegment, covers, signed_le, covering_entities, segments_from, entity_stop,
}
use golagram.Format.Bounds.{Chain, Known, Known-at}

-- The entities whose range holds the unit at i.
pub entities_over : List MessageEntity → ℕ → List MessageEntity
entities_over [] i = []
entities_over (e ∷ es) i =
    let rest = entities_over es i in
    if leb e.offset i && ltb i (e.offset + e.length_units) then e ∷ rest else rest

-- The entities that the segment with the unit at i carries.
pub entities_at : List EntitySegment → ℕ → List MessageEntity
unfolding utf16_len
entities_at [] i = []
entities_at (g ∷ gs) i =
    let rest = entities_at gs (i - utf16_len g.text) in
    if ltb i (utf16_len g.text) then g.entities else rest

-- A range within the text that begins and ends at whole characters.
abbrev pub IsInText : List ℕ → MessageEntity → Type 0
IsInText u e =
    (e.offset + e.length_units ≤ length u)
    × IsBoundary u e.offset
    × IsBoundary u (e.offset + e.length_units)

signed_le-leb :
    (a b : ℕ) → a < 0x8000000000000000 → b < 0x8000000000000000 → signed_le a b ≡ leb a b
unfolding signed_le
signed_le-leb a b h k = ground arith

-- The position x is no position between a and b.
abbrev Outside : ℕ → ℕ → ℕ → Type 0
Outside a b x = (x ≤ a) ⊎ (b ≤ x)

-- The entity's range lies in a text of n units, and has no end between a and b.
abbrev IsClear : ℕ → ℕ → ℕ → MessageEntity → Type 0
IsClear n a b e =
    (e.offset + e.length_units ≤ n) × Outside a b e.offset × Outside a b (e.offset + e.length_units)

module _ (n : ℕ) (short : n < 0x8000000000000000) where
  covers-over :
      (e : MessageEntity) (a b i : ℕ)
      → b ≤ n
      → a ≤ i
      → i < b
      → IsClear n a b e
      → covers e a b ≡ (leb e.offset i && ltb i (e.offset + e.length_units))
  covers-over e a b i l h k p =
      let stop : entity_stop e ≡ e.offset + e.length_units = omega (arith, p.0) in
      rw
        (
          stop,
          signed_le-leb e.offset a (omega (arith, p.0)) (omega arith),
          signed_le-leb b (e.offset + e.length_units) (omega arith) (omega (arith, p.0)),
        )
        (ground (arith, p.1, p.2))

  -- Between neighbouring boundaries, what covers one unit covers all.
  covering_entities-over :
      (es : List MessageEntity) (a b i : ℕ)
      → b ≤ n
      → a ≤ i
      → i < b
      → All (IsClear n a b) es
      → covering_entities es a b ≡ entities_over es i
  unfolding covering_entities entities_over
  covering_entities-over [] a b i l h k p = refl
  covering_entities-over (e ∷ es) a b i l h k p =
      rw (covers-over e a b i l h k p.0, covering_entities-over es a b i l h k p.1) refl

-- Both ends of the entity's range are among the boundaries, and it lies in the text.
abbrev pub IsKnown : List ℕ → ℕ → List ℕ → MessageEntity → Type 0
IsKnown u a bs e =
    (e.offset + e.length_units ≤ length u)
    × Known e.offset a bs
    × Known (e.offset + e.length_units) a bs

Known-Outside : (x a b : ℕ) (bs : List ℕ) → Known x a (b ∷ bs) → Outside a b x
Known-Outside x a b bs (inl h) = inl h
Known-Outside x a b bs (inr h) = inr h.0

Known-next : (x a b : ℕ) (bs : List ℕ) → a < b → Known x a (b ∷ bs) → Known x b bs
Known-next x a b bs l (inl h) = Known-at x b bs (omega arith)
Known-next x a b bs l (inr h) = h.1

module _ (u : List ℕ) (a b : ℕ) (bs : List ℕ) (l : a < b) where
  IsKnown-IsClear :
      (es : List MessageEntity) → All (IsKnown u a (b ∷ bs)) es → All (IsClear (length u) a b) es
  IsKnown-IsClear [] h = tt
  IsKnown-IsClear (e ∷ es) h =
      ((h.0.0, Known-Outside _ a b bs h.0.1, Known-Outside _ a b bs h.0.2), IsKnown-IsClear es h.1)

  IsKnown-next : (es : List MessageEntity) → All (IsKnown u a (b ∷ bs)) es → All (IsKnown u b bs) es
  IsKnown-next [] h = tt
  IsKnown-next (e ∷ es) h =
      ((h.0.0, Known-next _ a b bs l h.0.1, Known-next _ a b bs l h.0.2), IsKnown-next es h.1)

-- The text of a segment has as many units as the segment.
segment_units :
    (u : List ℕ) (a b : ℕ)
    → IsUnits u
    → a ≤ b
    → b ≤ length u
    → utf16_len (decode (slice u a b)) ≡ b - a
unfolding utf16_len
segment_units u a b h l k =
    length-encode-decode (slice u a b) (All-take _ (b - a) (drop a u) (All-drop _ a u h))
    ∙ length-slice u a b l k

module _ (u : List ℕ) (units : IsUnits u) (short : length u < 0x8000000000000000)
    (es : List MessageEntity) where
  pub segments_from-entities_at :
      (a : ℕ) (bs : List ℕ) (i : ℕ)
      → Chain u a bs
      → All (IsKnown u a bs) es
      → a + i < length u
      → entities_at (segments_from u es a bs) i ≡ entities_over es (a + i)
  unfolding segments_from entities_at
  segments_from-entities_at a [] i c p h = absurd (omega arith)
  segments_from-entities_at a (b ∷ bs) i c p h =
      let e : leb b a ≡ false = ground (arith, c.0) in
      let n = segment_units u a b units (omega (arith, c.0)) c.1 in
      elim (Bool-cases (ltb i (b - a))) [
        | inl k ↦
            rw (e, n, k)
              (covering_entities-over (length u) short es a b (a + i) c.1 (omega arith)
                (ground arith) (IsKnown-IsClear u a b bs c.0 es p))
        | inr k ↦
            let same : b + (i - (b - a)) ≡ a + i = ground (arith, c.0) in
            rw (e, n, k)
              (segments_from-entities_at b bs (i - (b - a)) c.3 (IsKnown-next u a b bs c.0 es p)
                  (omega arith)
                ∙ ap (entities_over es) same)
      ]
