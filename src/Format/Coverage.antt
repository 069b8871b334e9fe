-- ===== src/Format/Coverage.antt =====
-- Which entities the segments of EntitySegments (entity_text.go) carry.
use mathlib.Core.Path.{subst}
use golagram.Base.{
  ℕ, zero, suc, ◌-◌, ◌+◌, ◌<◌, ◌≡◌, refl, ap, ◌∙◌, sym, false, List, [], ◌∷◌, ◌==◌, length, All,
  arith,
}
use golagram.Utf16.{encode, utf16_len}
use golagram.Utf16.Laws.{Paired, encode-Paired, IsUnits, encode-IsUnits}
use golagram.Split.Boundary.{IsBoundary}
use golagram.Format.{
  MessageEntity, segments_of, entity_segments, entity_boundaries, entity_stop, clip_range,
  snap_out_of_surrogate, add_bound,
}
use golagram.Format.Bounds.{
  IsBounds, IsBound, add_bound-IsBounds, add_bound-IsBound, snap-IsCut, entity_boundaries-IsBounds,
}
use golagram.Format.Covering.{
  IsInText, IsKnown, entities_at, entities_over, segments_from-entities_at,
}

snap-IsBoundary : (u : List ℕ) (b : ℕ) → IsBoundary u b → snap_out_of_surrogate u b ≡ b
unfolding snap_out_of_surrogate
snap-IsBoundary u zero h = ground arith
snap-IsBoundary u (suc b) h = let e : suc b - 1 ≡ b = omega arith in rw (e, h) (ground arith)

clip_range-IsInText :
    (u : List ℕ) (e : MessageEntity)
    → length u < 0x8000000000000000
    → IsInText u e
    → clip_range e.offset (entity_stop e) (length u) ≡ (e.offset, e.offset + e.length_units)
unfolding clip_range
clip_range-IsInText u e s h =
    let stop : entity_stop e ≡ e.offset + e.length_units = omega (arith, h.0) in
    rw stop (ground (arith, h.0))

-- Both ends of the entity are among the boundaries.
abbrev HasBounds : List ℕ → MessageEntity → Type 0
HasBounds xs e = IsBound e.offset xs × IsBound (e.offset + e.length_units) xs

module _ (u : List ℕ) (paired : Paired u) (short : length u < 0x8000000000000000) where
  HasBounds-add_bound :
      (b : ℕ) (xs : List ℕ) (es : List MessageEntity)
      → IsBounds u xs
      → All (HasBounds xs) es
      → All (HasBounds (add_bound b xs)) es
  HasBounds-add_bound b xs [] g h = tt
  HasBounds-add_bound b xs (e ∷ es) g h = (
    (add_bound-IsBound u b _ xs g h.0.0, add_bound-IsBound u b _ xs g h.0.1),
    HasBounds-add_bound b xs es g h.1,
  )

  -- An entity in the text adds the ends of its range as they are.
  entity_boundaries-IsInText :
      (e : MessageEntity) (es : List MessageEntity)
      → IsInText u e
      → entity_boundaries (e ∷ es) u
        ≡ add_bound (e.offset + e.length_units) (add_bound e.offset (entity_boundaries es u))
  unfolding entity_boundaries
  entity_boundaries-IsInText e es i =
      rw (clip_range-IsInText u e short i, snap-IsBoundary u _ i.1, snap-IsBoundary u _ i.2) refl

  HasBounds-both :
      (e : MessageEntity) (xs : List ℕ) (es : List MessageEntity)
      → IsInText u e
      → IsBounds u xs
      → All (HasBounds xs) es
      → All (HasBounds (add_bound (e.offset + e.length_units) (add_bound e.offset xs))) (e ∷ es)
  HasBounds-both e xs es i b h =
      let stop = e.offset + e.length_units in
      let ys = add_bound e.offset xs in
      let cut_start =
        rw (snap-IsBoundary u _ i.1) at (snap-IsCut u e.offset paired (omega (arith, i.0))) in
      let cut_stop = rw (snap-IsBoundary u _ i.2) at (snap-IsCut u stop paired i.0) in
      let first = add_bound-IsBounds u e.offset xs b cut_start in
      let second = add_bound-IsBounds u stop ys first.0 cut_stop in
      (
        (add_bound-IsBound u stop e.offset ys first.0 first.1, second.1),
        HasBounds-add_bound stop ys es first.0 (HasBounds-add_bound e.offset xs es b h),
      )

  entity_boundaries-HasBounds :
      (es : List MessageEntity)
      → 0 < length u
      → All (IsInText u) es
      → All (HasBounds (entity_boundaries es u)) es
  entity_boundaries-HasBounds [] l h = tt
  entity_boundaries-HasBounds (e ∷ es) l h =
      subst (λ xs. All (HasBounds xs) (e ∷ es)) (sym (entity_boundaries-IsInText e es h.0))
        (HasBounds-both e _ es h.0 (entity_boundaries-IsBounds es u paired l)
          (entity_boundaries-HasBounds es l h.1))

HasBounds-IsKnown :
    (u : List ℕ) (a : ℕ) (bs : List ℕ) (es : List MessageEntity)
    → All (IsInText u) es
    → All (HasBounds (a ∷ bs)) es
    → All (IsKnown u a bs) es
HasBounds-IsKnown u a bs [] i h = tt
HasBounds-IsKnown u a bs (e ∷ es) i h = ((i.0.0, h.0.0, h.0.1), HasBounds-IsKnown u a bs es i.1 h.1)

segments_of-entities_at :
    (u : List ℕ) (es : List MessageEntity) (xs : List ℕ) (i : ℕ)
    → IsUnits u
    → length u < 0x8000000000000000
    → i < length u
    → IsBounds u xs
    → All (IsInText u) es
    → All (HasBounds xs) es
    → entities_at (segments_of u es xs) i ≡ entities_over es i
segments_of-entities_at u es [] i v s l b t h = absurd b
segments_of-entities_at u es (a ∷ bs) i v s l b t h =
    let at : a + i ≡ i = omega (arith, b.0) in
    segments_from-entities_at u v s es a bs i b.1 (HasBounds-IsKnown u a bs es t h)
      (omega (arith, b.0))
    ∙ ap (entities_over es) at

-- Let the text have less than 2^63 UTF-16 units, and let every entity lie in it and begin and end
-- at whole characters. Then the segment with the unit at i carries exactly the entities whose range
-- holds that unit, in their order: nested and overlapping entities all stand in it.
pub entity_segments-entities_over :
    (s : List ℕ) (es : List MessageEntity) (i : ℕ)
    → utf16_len s < 0x8000000000000000
    → All (IsInText (encode s)) es
    → i < utf16_len s
    → entities_at (entity_segments s es) i ≡ entities_over es i
unfolding entity_segments utf16_len
entity_segments-entities_over s es i short h l =
    let u = encode s in
    let some_units : (length u == 0) ≡ false = ground arith in
    let paired = encode-Paired s in
    rw some_units (
      segments_of-entities_at u es (entity_boundaries es u) i (encode-IsUnits s) short l
        (entity_boundaries-IsBounds es u paired (omega arith)) h
        (entity_boundaries-HasBounds u paired short es (omega arith) h))
