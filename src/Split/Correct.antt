-- ===== src/Split/Correct.antt =====
-- The theorems about SplitTextWithEntities of format.go.
use golagram.Base.{
  ℕ, zero, suc, ◌+◌, ◌-◌, ◌≤◌, ◌<◌, ◌≡◌, ◌≢◌, ◌∙◌, ap, refl, true, ◌&&◌, List, [], ◌∷◌, Option,
  none, some, ltb, leb, if◌then◌else◌, Bool-cases, inl, inr, All, All-take, All-drop, length, slice,
  drop, length-slice, min, max, arith,
}
use golagram.Utf16.{is_scalar, encode, decode, utf16_len}
use golagram.Utf16.Laws.{
  Paired, encode-Paired, decode-encode, IsUnits, encode-IsUnits, length-encode-decode,
}
use golagram.Split.{
  Entity, TextChunk, entity_end, chunk_limit, chunks_from, clip_entities, split_text_with_entities,
}
use golagram.Split.Seams.{strip}
use golagram.Split.Boundary.{StartAtBoundaries}
use golagram.Split.Chunks.{texts, chunk_cut, chunk_next, chunk-Round, chunks_from-strip}

chunk_limit_pos : (limit : Option ℕ) → 0 < chunk_limit limit
chunk_limit_pos none = omega arith
chunk_limit_pos (some l) = ground arith

-- For a text of Unicode scalar values and entities that begin at character boundaries, none of them
-- inside a surrogate pair, the chunks together hold every character of the text in order, except spaces, newlines, carriage returns
-- and tabs: nothing else is lost, and no character is broken in half.
pub split_text_with_entities-strip :
    (text : List ℕ) (es : List Entity) (limit : Option ℕ)
    → All (λ r. is_scalar r ≡ true) text
    → StartAtBoundaries (encode text) es
    → strip (texts (split_text_with_entities text es limit)) ≡ strip text
unfolding split_text_with_entities
split_text_with_entities-strip [] es limit v s = refl
split_text_with_entities-strip (r ∷ rs) es limit v s =
    let u = encode (r ∷ rs) in
    chunks_from-strip (suc (length u)) u es (chunk_limit limit) 0 (encode-Paired (r ∷ rs)) s
      (chunk_limit_pos limit) (omega arith) (omega arith)
    ∙ ap strip (decode-encode (r ∷ rs) v)

-- A chunk that can be sent: not empty, within the limit, and each entity is a non-empty range of it.
pub record IsSendable (limit : ℕ) (c : TextChunk) : Type 0 where
  pub filled : c.text ≢ []
  pub fits : utf16_len c.text ≤ limit
  pub ranges :
      All (λ (e : Entity). (0 < e.length_units) × (entity_end e ≤ utf16_len c.text)) c.entities

clip_entities-ranges :
    (es : List Entity) (start end : ℕ)
    → All
        (λ (e : Entity). (0 < e.length_units) × (entity_end e ≤ end - start))
        (clip_entities es start end)
unfolding clip_entities
clip_entities-ranges [] start end = tt
clip_entities-ranges (e ∷ es) start end =
    let off = max e.offset start in
    let stop = min (entity_end e) end in
    elim (Bool-cases (leb stop off)) [
      | inl c ↦ rw c (clip_entities-ranges es start end)
      | inr c ↦ rw c ((ground arith, ground arith), clip_entities-ranges es start end)
    ]

slice-IsUnits : (u : List ℕ) (a b : ℕ) → IsUnits u → IsUnits (slice u a b)
slice-IsUnits u a b h = All-take _ (b - a) (drop a u) (All-drop _ a u h)

utf16_len-slice :
    (u : List ℕ) (a b : ℕ)
    → IsUnits u
    → a ≤ b
    → b ≤ length u
    → utf16_len (decode (slice u a b)) ≡ b - a
unfolding utf16_len
utf16_len-slice u a b h k w =
    length-encode-decode (slice u a b) (slice-IsUnits u a b h) ∙ length-slice u a b k w

utf16_len-nil : utf16_len [] ≡ 0
unfolding utf16_len encode
utf16_len-nil = refl

chunk-IsSendable :
    (u : List ℕ) (es : List Entity) (limit start cut : ℕ)
    → IsUnits u
    → start < cut
    → cut ≤ length u
    → cut ≤ start + limit
    → IsSendable limit
        (record { text = decode (slice u start cut); entities = clip_entities es start cut })
chunk-IsSendable u es limit start cut h a w f =
    let n = utf16_len-slice u start cut h (omega arith) w in
    record {
      filled = λ e. absurd (omega (arith, n, utf16_len-nil, ap utf16_len e));
      fits = omega (arith, n);
      ranges = rw n (clip_entities-ranges es start cut);
    }

chunks_from-IsSendable :
    (fuel : ℕ) (u : List ℕ) (es : List Entity) (limit start : ℕ)
    → Paired u
    → IsUnits u
    → StartAtBoundaries u es
    → 0 < limit
    → All (IsSendable (max 2 limit)) (chunks_from fuel u es limit start)
unfolding chunks_from
chunks_from-IsSendable zero u es limit start p n s l = tt
chunks_from-IsSendable (suc fuel) u es limit start p n s l =
    elim (Bool-cases (ltb start (length u))) [
      | inl e ↦
          let r = chunk-Round u es limit start p s l (ground arith) in
          let next = chunk_next u es limit start in
          let rest = chunks_from-IsSendable fuel u es limit next p n s l in
          elim (Bool-cases (ltb start (chunk_cut u es limit start))) [
            | inl c ↦
                rw (e, c)
                  (
                    chunk-IsSendable u es (max 2 limit) start (chunk_cut u es limit start) n
                        (ground arith) (omega (arith, r.before, r.within)) r.fits,
                    rest,
                  )
            | inr c ↦ rw (e, c) rest
          ]
      | inr e ↦ rw e tt
    ]

-- For entities that begin at character boundaries of the text, none of them inside a surrogate pair:
-- every chunk can be sent, that is, it is not empty, has at most as many UTF-16 units as the limit or,
-- where the limit is one, two units, and its entities are non-empty ranges of it.
pub split_text_with_entities-IsSendable :
    (text : List ℕ) (es : List Entity) (limit : Option ℕ)
    → StartAtBoundaries (encode text) es
    → All (IsSendable (max 2 (chunk_limit limit))) (split_text_with_entities text es limit)
unfolding split_text_with_entities
split_text_with_entities-IsSendable [] es limit s = tt
split_text_with_entities-IsSendable (r ∷ rs) es limit s =
    let u = encode (r ∷ rs) in
    chunks_from-IsSendable (suc (length u)) u es (chunk_limit limit) 0 (encode-Paired (r ∷ rs))
      (encode-IsUnits (r ∷ rs)) s (chunk_limit_pos limit)

-- The kinds of formatting that cover one unit.
pub formatting_at : List Entity → ℕ → List ℕ
formatting_at [] k = []
formatting_at (e ∷ es) k =
    if leb e.offset k && ltb k (entity_end e)
    then e.kind ∷ formatting_at es k
    else formatting_at es k

-- Clipping and re-basing the entities to [start, end) leaves every unit of that range with the
-- formatting that it had in the whole text, in the same order.
clip_entities-formatting_at :
    (es : List Entity) (start end k : ℕ)
    → k < end - start
    → formatting_at (clip_entities es start end) k ≡ formatting_at es (start + k)
unfolding clip_entities formatting_at
clip_entities-formatting_at [] start end k h = refl
clip_entities-formatting_at (e ∷ es) start end k h =
    ground (arith, clip_entities-formatting_at es start end k)
