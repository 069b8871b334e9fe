-- ===== src/Format/Bounds.antt =====
-- The boundaries that entityBoundaries (entity_text.go) finds.
use mathlib.Core.Path.{subst, sym}
use golagram.Base.{
  ℕ, zero, suc, ◌-◌, ◌≤◌, ◌<◌, ◌≡◌, refl, true, false, ◌&&◌, List, [], ◌∷◌, ◌⊎◌, inl, inr, ltb,
  ◌==◌, Bool-cases, length, arith,
}
use golagram.Utf16.{is_high_surrogate}
use golagram.Utf16.Laws.{Paired}
use golagram.Split.{unit}
use golagram.Split.Boundary.{IsBoundary, before_other, high_not_low, end-IsBoundary}
use golagram.Format.{
  MessageEntity, clip_range, snap_out_of_surrogate, add_bound, entity_boundaries, entity_stop,
}

-- Boundaries that ascend from a to the end of the text, none of them inside a surrogate pair.
abbrev pub Chain : List ℕ → ℕ → List ℕ → Type 0
Chain u a [] = a ≡ length u
Chain u a (b ∷ bs) = (a < b) × (b ≤ length u) × IsBoundary u b × Chain u b bs

-- The position x is one of the boundaries behind a, or is not behind a.
abbrev pub Known : ℕ → ℕ → List ℕ → Type 0
Known x a [] = x ≤ a
Known x a (b ∷ bs) = (x ≤ a) ⊎ ((b ≤ x) × Known x b bs)

abbrev pub IsBounds : List ℕ → List ℕ → Type 0
IsBounds u [] = ⊥
IsBounds u (a ∷ bs) = (a ≡ 0) × Chain u a bs

abbrev pub IsBound : ℕ → List ℕ → Type 0
IsBound x [] = ⊥
IsBound x (a ∷ bs) = Known x a bs

pub Known-at : (x a : ℕ) (bs : List ℕ) → x ≤ a → Known x a bs
Known-at x a [] h = h
Known-at x a (b ∷ bs) h = inl h

-- A position in the text, not inside a surrogate pair.
abbrev pub IsCut : List ℕ → ℕ → Type 0
IsCut u b = (b ≤ length u) × IsBoundary u b

module _ (u : List ℕ) (b : ℕ) where
  add_bound-Chain :
      (a : ℕ) (bs : List ℕ)
      → Chain u a bs
      → a < b
      → b ≤ length u
      → IsBoundary u b
      → Chain u a (add_bound b bs) × Known b a (add_bound b bs)
  unfolding add_bound
  add_bound-Chain a [] h l k s = absurd (omega arith)
  add_bound-Chain a (c ∷ cs) h l k s = elim (Bool-cases (ltb b c)) [
    | inl e ↦
        let below : b < c = ground arith in
        rw e ((l, k, s, (below, h.1, h.2, h.3)), inr (ground arith, inl (ground arith)))
    | inr e ↦ elim (Bool-cases (b == c)) [
      | inl d ↦
          let same : b ≡ c = ground arith in
          rw (e, d) (h, inr (ground arith, Known-at b c cs (ground arith)))
      | inr d ↦
          let above : c < b = ground arith in
          let rest = add_bound-Chain c cs h.3 above k s in
          rw (e, d) ((h.0, h.1, h.2, rest.0), inr (ground arith, rest.1))
    ]
  ]

  add_bound-Known : (x a : ℕ) (bs : List ℕ) → Known x a bs → Known x a (add_bound b bs)
  unfolding add_bound
  add_bound-Known x a [] h = inl h
  add_bound-Known x a (c ∷ cs) (inl h) = elim (Bool-cases (ltb b c)) [
    | inl e ↦ rw e (inl h)
    | inr e ↦ elim (Bool-cases (b == c)) [ inl d ↦ rw (e, d) (inl h) | inr d ↦ rw (e, d) (inl h) ]
  ]
  add_bound-Known x a (c ∷ cs) (inr h) = elim (Bool-cases (ltb b c)) [
    | inl e ↦ rw e (inr (ground arith, inr h))
    | inr e ↦ elim (Bool-cases (b == c)) [
      | inl d ↦ rw (e, d) (inr h)
      | inr d ↦ rw (e, d) (inr (h.0, add_bound-Known x c cs h.1))
    ]
  ]

  -- A cut is added to the boundaries, which keep those they have.
  pub add_bound-IsBounds :
      (xs : List ℕ)
      → IsBounds u xs
      → IsCut u b
      → IsBounds u (add_bound b xs) × IsBound b (add_bound b xs)
  unfolding add_bound
  add_bound-IsBounds [] h c = absurd h
  add_bound-IsBounds (a ∷ bs) h c = elim (Bool-cases (ltb b a)) [
    | inl e ↦ absurd (ground (arith, h.0))
    | inr e ↦ elim (Bool-cases (b == a)) [
      | inl d ↦ rw (e, d) (h, Known-at b a bs (ground arith))
      | inr d ↦
          let above : a < b = ground arith in
          rw (e, d) (let r = add_bound-Chain a bs h.1 above c.0 c.1 in ((h.0, r.0), r.1))
    ]
  ]

  pub add_bound-IsBound :
      (x : ℕ) (xs : List ℕ) → IsBounds u xs → IsBound x xs → IsBound x (add_bound b xs)
  unfolding add_bound
  add_bound-IsBound x [] g h = absurd h
  add_bound-IsBound x (a ∷ bs) g h = elim (Bool-cases (ltb b a)) [
    | inl e ↦ absurd (ground (arith, g.0))
    | inr e ↦ elim (Bool-cases (b == a)) [
      | inl d ↦ rw (e, d) h
      | inr d ↦ rw (e, d) (add_bound-Known x a bs h)
    ]
  ]

snapped-IsCut :
    (u : List ℕ) (b : ℕ)
    → Paired u
    → suc b < length u
    → is_high_surrogate (unit u b) ≡ true
    → IsCut u b
snapped-IsCut u zero p h e = (omega arith, tt)
snapped-IsCut u (suc k) p h e = (omega arith, before_other u k p (high_not_low _ e))

kept-IsCut :
    (u : List ℕ) (b : ℕ)
    → Paired u
    → suc b ≤ length u
    → (ltb (suc b) (length u) && is_high_surrogate (unit u b)) ≡ false
    → IsCut u (suc b)
kept-IsCut u b p h e = elim (Bool-cases (is_high_surrogate (unit u b))) [
  | inl s ↦
      let last : suc b ≡ length u = ground arith in
      (h, subst (IsBoundary u) (sym last) (end-IsBoundary u {i = b} p (omega arith)))
  | inr s ↦ (h, s)
]

pub snap-IsCut :
    (u : List ℕ) (b : ℕ) → Paired u → b ≤ length u → IsCut u (snap_out_of_surrogate u b)
unfolding snap_out_of_surrogate
snap-IsCut u zero p h = (h, tt)
snap-IsCut u (suc b) p h =
    let back : suc b - 1 ≡ b = omega arith in
    let pos : ltb 0 (suc b) ≡ true = ground arith in
    elim (Bool-cases (ltb (suc b) (length u) && is_high_surrogate (unit u b))) [
      | inl e ↦ rw (pos, back, e) (snapped-IsCut u b p (ground arith) (ground arith))
      | inr e ↦ rw (pos, back, e) (kept-IsCut u b p h e)
    ]

pub clip_range_bounds :
    (start stop top : ℕ)
    → ((clip_range start stop top).0 ≤ top) × ((clip_range start stop top).1 ≤ top)
unfolding clip_range
clip_range_bounds start stop top = ground arith

base-IsBounds : (u : List ℕ) → Paired u → 0 < length u → IsBounds u (add_bound (length u) (0 ∷ []))
unfolding add_bound
base-IsBounds u p h =
    let e : ltb (length u) 0 ≡ false = ground arith in
    let d : (length u == 0) ≡ false = ground arith in
    rw (e, d) (refl, (h, omega arith, end-IsBoundary u p h, refl))

pub entity_boundaries-IsBounds :
    (es : List MessageEntity) (u : List ℕ)
    → Paired u
    → 0 < length u
    → IsBounds u (entity_boundaries es u)
unfolding entity_boundaries
entity_boundaries-IsBounds [] u p h = base-IsBounds u p h
entity_boundaries-IsBounds (e ∷ es) u p h =
    let c = clip_range_bounds e.offset (entity_stop e) (length u) in
    let rest = entity_boundaries-IsBounds es u p h in
    (add_bound-IsBounds u _ _ (add_bound-IsBounds u _ _ rest (snap-IsCut u _ p c.0)).0
      (snap-IsCut u _ p c.1)).0
