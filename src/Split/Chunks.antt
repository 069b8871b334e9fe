-- ===== src/Split/Chunks.antt =====
-- What the chunks of SplitTextWithEntities (format.go) hold, together and each for itself.
use mathlib.Core.Path.{subst}
use golagram.Base.{
  max, ℕ, zero, suc, ◌+◌, ◌-◌, ◌≤◌, ◌<◌, ◌≡◌, ◌∙◌, sym, ap, refl, false, List, ◌++◌, ltb,
  Bool-cases, inl, inr, map, concat, length, slice, slice-append, drop-length, slice-append-drop,
  All-append, drop, arith,
}
use golagram.Utf16.{decode}
use golagram.Utf16.Laws.{ends_high, decode-append, Paired}
use golagram.Split.{Entity, TextChunk, trim_end, skip_spaces, split_point, chunks_from}
use golagram.Split.Point.{split_point-IsSplit}
use golagram.Split.Seams.{
  AllSpace, strip, strip-append, strip-AllSpace, decode-space, ends_high-space, Trimmed,
  trim_end-Trimmed, skip_spaces-Skipped,
}
use golagram.Split.Boundary.{
  IsBoundary, StartAtBoundaries, ends_high-slice, space_not_low, before_other,
  split_point-IsBoundary,
}

abbrev pub texts : List TextChunk → List ℕ
texts cs = concat (map (λ (c : TextChunk). c.text) cs)

-- The trimmed end of a chunk is a boundary too: a space is no half of a pair.
cut-IsBoundary :
    (u : List ℕ) {start end cut : ℕ}
    → Paired u
    → IsBoundary u end
    → start < cut
    → Trimmed u start end cut
    → IsBoundary u cut
cut-IsBoundary u {cut = zero} p b h t = absurd (omega arith)
cut-IsBoundary u {cut = suc k} p b h t = elim t.seam [
  | inl e ↦ subst (IsBoundary u) (sym e) b
  | inr s ↦ before_other u k p (space_not_low _ s)
]

-- What a round of the loop cuts off: a chunk [start, cut), then spaces up to next.
pub record Round (u : List ℕ) (limit start cut next : ℕ) : Type 0 where
  pub after : start ≤ cut
  pub before : cut ≤ next
  pub progress : start < next
  pub within : next ≤ length u
  pub fits : cut ≤ start + max 2 limit
  pub whole : ends_high (slice u start cut) ≡ false
  pub spaces : AllSpace (slice u cut next)

module _ (u : List ℕ) (es : List Entity) (limit start : ℕ) where
  abbrev pub chunk_end : ℕ
  chunk_end = split_point u es start limit

  abbrev pub chunk_cut : ℕ
  chunk_cut = trim_end u start (chunk_end - start)

  abbrev pub chunk_next : ℕ
  chunk_next = skip_spaces u (length u - chunk_end) chunk_end

  cut-ends_high :
      Paired u
      → Trimmed u start chunk_end chunk_cut
      → IsBoundary u chunk_end
      → chunk_end ≤ length u
      → ends_high (slice u start chunk_cut) ≡ false
  cut-ends_high p t b w = elim (Bool-cases (ltb start chunk_cut)) [
    | inl c ↦
        ends_high-slice u start chunk_cut t.after (omega (arith, t.within))
          (cut-IsBoundary u p b (ground arith) t)
    | inr c ↦ let z : chunk_cut - start ≡ 0 = ground (arith, t.after) in rw z refl
  ]

  pub chunk-Round :
      Paired u
      → StartAtBoundaries u es
      → 0 < limit
      → start < length u
      → Round u limit start chunk_cut chunk_next
  chunk-Round p s l h =
      let i = split_point-IsSplit u es start limit h l in
      let b = split_point-IsBoundary u es start limit p s h l in
      let e : start + (chunk_end - start) ≡ chunk_end = omega (arith, i.after) in
      let t : Trimmed u start chunk_end chunk_cut =
        rw e at (trim_end-Trimmed u start (chunk_end - start) (omega (arith, i.after, i.within))) in
      let k = skip_spaces-Skipped u (length u - chunk_end) chunk_end (omega (arith, i.within)) in
      record {
        after = t.after;
        before = omega (arith, t.within, k.after);
        progress = omega (arith, i.after, k.after);
        within = k.within;
        fits = omega (arith, t.within, i.fits);
        whole = cut-ends_high p t b i.within;
        spaces =
            rw (← slice-append u chunk_cut chunk_end chunk_next t.within k.after)
              (All-append _ _ _ t.spaces k.spaces);
      }

-- A piece of the text that ends at a boundary, and spaces behind it.
strip-Round :
    (u : List ℕ) {limit start cut next : ℕ}
    → Round u limit start cut next
    → strip (decode (drop start u))
      ≡ strip (decode (slice u start cut)) ++ strip (decode (drop next u))
strip-Round u {start = a} {cut = b} {next = c} r =
    let sp = slice u b c in
    let d1 = decode-append (slice u a b) (sp ++ drop c u) r.whole in
    let d2 = decode-append sp (drop c u) (ends_high-space sp r.spaces) in
    ap (λ t. strip (decode t))
      (sym (slice-append-drop u a b r.after)
        ∙ ap (λ t. slice u a b ++ t) (sym (slice-append-drop u b c r.before)))
    ∙ ap strip (d1 ∙ ap (λ t. decode (slice u a b) ++ t) d2)
    ∙ strip-append (decode (slice u a b)) (decode sp ++ decode (drop c u))
    ∙ ap (λ t. strip (decode (slice u a b)) ++ t)
        (strip-append (decode sp) (decode (drop c u))
          ∙ rw (decode-space sp r.spaces, strip-AllSpace sp r.spaces) refl)

pub chunks_from-strip :
    (fuel : ℕ) (u : List ℕ) (es : List Entity) (limit start : ℕ)
    → Paired u
    → StartAtBoundaries u es
    → 0 < limit
    → start ≤ length u
    → length u - start < fuel
    → strip (texts (chunks_from fuel u es limit start)) ≡ strip (decode (drop start u))
unfolding chunks_from strip decode
chunks_from-strip zero u es limit start p s l h f = absurd (omega arith)
chunks_from-strip (suc fuel) u es limit start p s l h f = elim (Bool-cases (ltb start (length u))) [
  | inl e ↦
      let r = chunk-Round u es limit start p s l (ground arith) in
      let cut = trim_end u start (split_point u es start limit - start) in
      let next = chunk_next u es limit start in
      let ih =
        chunks_from-strip fuel u es limit next p s l r.within
          (omega (arith, r.progress, r.within)) in
      elim (Bool-cases (ltb start cut)) [
        | inl c ↦
            rw (e, c)
              (strip-append (decode (slice u start cut)) (texts (chunks_from fuel u es limit next))
                ∙ ap (λ t. strip (decode (slice u start cut)) ++ t) ih
                ∙ sym (strip-Round u r))
        | inr c ↦
            let z : cut - start ≡ 0 = ground (arith, r.after) in
            rw (e, c) (ih ∙ sym (strip-Round u r ∙ rw z refl))
      ]
  | inr e ↦ let z : start ≡ length u = ground arith in rw e (rw (z, drop-length u) refl)
]
