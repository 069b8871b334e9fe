-- ===== src/Format/Positions.antt =====
-- Where the text of a part stands in the whole text, counted in UTF-16 units, and what EntityText
-- (entity_text.go) reads there.
use golagram.Base.{
  ℕ, ◌+◌, ◌-◌, ◌≤◌, ◌<◌, ◌≡◌, refl, sym, ap, ◌∙◌, true, List, [], ◌∷◌, ◌++◌, append_assoc, All,
  length, length-append, take, drop, slice, arith,
}
use golagram.Utf16.{is_scalar, encode, decode, utf16_len}
use golagram.Utf16.Laws.{decode-encode}
use golagram.Format.{MessageEntity, int64, entity_stop, signed_le, slice_utf16, entity_text}

-- Every rune is a Unicode scalar value, as in each valid Go string.
abbrev pub IsText : List ℕ → Type 0
IsText = All (λ r. is_scalar r ≡ true)

pub encode-append : (a b : List ℕ) → encode (a ++ b) ≡ encode a ++ encode b
unfolding encode
encode-append [] b = refl
encode-append (r ∷ a) b = rw (encode-append a b, append_assoc) refl

pub utf16_len-append : (a b : List ℕ) → utf16_len (a ++ b) ≡ utf16_len a + utf16_len b
unfolding utf16_len
utf16_len-append a b = rw (encode-append a b) (length-append (encode a) (encode b))

drop-length-append : (a b : List ℕ) → drop (length a) (a ++ b) ≡ b
drop-length-append [] b = refl
drop-length-append (x ∷ a) b = drop-length-append a b

take-length-append : (a b : List ℕ) → take (length a) (a ++ b) ≡ a
take-length-append [] b = refl
take-length-append (x ∷ a) b = ap (λ t. x ∷ t) (take-length-append a b)

slice-middle : (a b c : List ℕ) → slice (a ++ (b ++ c)) (length a) (length a + length b) ≡ b
slice-middle a b c =
    let e : length a + length b - length a ≡ length b = omega arith in
    rw (e, drop-length-append a (b ++ c)) (take-length-append b c)

-- Within a text of less than 2^63 units, positions are signed as they are.
slice_utf16-slice :
    (s : List ℕ) (start units : ℕ)
    → utf16_len s < 0x8000000000000000
    → start + units ≤ utf16_len s
    → slice_utf16 s start (start + units) ≡ decode (slice (encode s) start (start + units))
unfolding slice_utf16 signed_le utf16_len
slice_utf16-slice s start units h k = ground arith

IsText-left : (a b : List ℕ) → IsText (a ++ b) → IsText a
IsText-left [] b h = tt
IsText-left (x ∷ a) b h = (h.0, IsText-left a b h.1)

IsText-right : (a b : List ℕ) → IsText (a ++ b) → IsText b
IsText-right [] b h = h
IsText-right (x ∷ a) b h = IsText-right a b h.1

-- The text b stands in s at the position pos.
pub record Stands (s b : List ℕ) (pos : ℕ) : Type 0 where
  pub before : List ℕ
  pub behind : List ℕ
  pub whole : s ≡ before ++ (b ++ behind)
  pub at : pos ≡ utf16_len before

module _ (s : List ℕ) where
  pub Stands-left : (b c : List ℕ) {pos : ℕ} → Stands s (b ++ c) pos → Stands s b pos
  Stands-left b c h = record {
    before = h.before;
    behind = c ++ h.behind;
    whole = h.whole ∙ ap (λ t. h.before ++ t) (append_assoc b c h.behind);
    at = h.at;
  }

  pub Stands-right :
      (b c : List ℕ) {pos : ℕ} → Stands s (b ++ c) pos → Stands s c (pos + utf16_len b)
  Stands-right b c h = record {
    before = h.before ++ b;
    behind = h.behind;
    whole =
        h.whole
        ∙ ap (λ t. h.before ++ t) (append_assoc b c h.behind)
        ∙ sym (append_assoc h.before b (c ++ h.behind));
    at = rw (h.at) (sym (utf16_len-append h.before b));
  }

  -- Positions within a text of less than 2^63 units are not wrapped.
  Stands-le : (b : List ℕ) (pos : ℕ) → Stands s b pos → pos + utf16_len b ≤ utf16_len s
  Stands-le b pos h = omega (
    arith,
    h.at,
    ap utf16_len h.whole,
    utf16_len-append h.before (b ++ h.behind),
    utf16_len-append b h.behind,
  )

  slice-Stands :
      (b : List ℕ) (pos : ℕ) → Stands s b pos → slice (encode s) pos (pos + utf16_len b) ≡ encode b
  unfolding utf16_len
  slice-Stands b pos h =
      rw (h.whole, h.at, encode-append h.before (b ++ h.behind), encode-append b h.behind)
        (slice-middle (encode h.before) (encode b) (encode h.behind))

  pub entity_text-Stands :
      (b : List ℕ) (pos : ℕ) (e : MessageEntity)
      → utf16_len s < 0x8000000000000000
      → IsText s
      → Stands s b pos
      → e.offset ≡ int64 pos
      → e.length_units ≡ int64 (utf16_len b)
      → entity_text s e ≡ b
  unfolding entity_text
  entity_text-Stands b pos e h t k o l =
      let fits = Stands-le b pos k in
      let start : e.offset ≡ pos = omega arith in
      let stop : entity_stop e ≡ pos + utf16_len b = omega arith in
      let inner : IsText b =
        IsText-left b k.behind (IsText-right k.before (b ++ k.behind) (rw (k.whole) at t)) in
      ap (λ i. slice_utf16 s i (entity_stop e)) start
      ∙ ap (λ i. slice_utf16 s pos i) stop
      ∙ slice_utf16-slice s pos (utf16_len b) h fits
      ∙ ap decode (slice-Stands b pos k)
      ∙ decode-encode b inner
