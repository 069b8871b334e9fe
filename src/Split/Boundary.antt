-- ===== src/Split/Boundary.antt =====
-- Why no chunk of SplitTextWithEntities (format.go) begins or ends inside a surrogate pair.
use golagram.Base.{
  ℕ, zero, suc, ◌+◌, ◌-◌, ◌≤◌, ◌<◌, ◌≡◌, refl, Bool, true, false, List, [], ◌∷◌, leb, ◌==◌,
  Bool-cases, ==_iff, inl, inr, All, length, slice, slice-snoc, arith,
}
use golagram.Utf16.{is_high_surrogate, is_low_surrogate}
use golagram.Utf16.Laws.{ends_high, Paired, Paired-get_or}
use golagram.Split.{
  Entity, is_split_space, unit, last_break, cuts_avoidable, retreat_pass, retreat,
  entity_start_before, settle, window_edge, split_point,
}
use golagram.Split.Point.{last_break-IsBreak, window_edge_bounds}
use golagram.Split.Seams.{ends_high-snoc}

-- Position r is not inside a surrogate pair.
abbrev pub IsBoundary : List ℕ → ℕ → Type 0
IsBoundary u zero = Unit
IsBoundary u (suc r) = is_high_surrogate (unit u r) ≡ false

unit-IsBoundary : (u : List ℕ) (r : ℕ) → is_high_surrogate (unit u (r - 1)) ≡ false → IsBoundary u r
unit-IsBoundary u zero h = tt
unit-IsBoundary u (suc r) h = let e : suc r - 1 ≡ r = omega arith in rw e at h

-- No entity begins inside a surrogate pair.
abbrev pub StartAtBoundaries : List ℕ → List Entity → Type 0
StartAtBoundaries u = All (λ (e : Entity). IsBoundary u e.offset)

pub ends_high-slice :
    (u : List ℕ) (a b : ℕ) → a ≤ b → b ≤ length u → IsBoundary u b → ends_high (slice u a b) ≡ false
ends_high-slice u a zero h l s = let z : 0 - a ≡ 0 = omega arith in rw z refl
ends_high-slice u a (suc b) h l s = elim (Bool-cases (leb a b)) [
  | inl k ↦ rw (slice-snoc u a b 0 (ground arith) l, ends_high-snoc (slice u a b) (unit u b)) s
  | inr k ↦ let z : suc b - a ≡ 0 = ground arith in rw z refl
]

low_not_high : (c : ℕ) → is_low_surrogate c ≡ true → is_high_surrogate c ≡ false
unfolding is_high_surrogate is_low_surrogate
low_not_high c h = ground arith

pub high_not_low : (c : ℕ) → is_high_surrogate c ≡ true → is_low_surrogate c ≡ false
unfolding is_high_surrogate is_low_surrogate
high_not_low c h = ground arith

no_unit_not_low : is_low_surrogate 0 ≡ false
unfolding is_low_surrogate
no_unit_not_low = refl

pub space_not_high : (c : ℕ) → is_split_space c ≡ true → is_high_surrogate c ≡ false
unfolding is_high_surrogate is_split_space
space_not_high c h = ground arith

pub space_not_low : (c : ℕ) → is_split_space c ≡ true → is_low_surrogate c ≡ false
unfolding is_low_surrogate is_split_space
space_not_low c h = ground arith

-- The unit before one that is no low surrogate is no high one.
pub before_other :
    (u : List ℕ) (i : ℕ)
    → Paired u
    → is_low_surrogate (unit u (suc i)) ≡ false
    → is_high_surrogate (unit u i) ≡ false
before_other u i p h = elim (Bool-cases (is_high_surrogate (unit u i))) [
  | inl e ↦ cc (Paired-get_or u i p e)
  | inr e ↦ e
]

retreat_pass-IsBoundary :
    (u : List ℕ) (es : List Entity) (start limit q : ℕ) (moved : Bool)
    → StartAtBoundaries u es
    → IsBoundary u q
    → IsBoundary u (retreat_pass es start limit q moved).0
unfolding retreat_pass
retreat_pass-IsBoundary u [] start limit q moved s b = b
retreat_pass-IsBoundary u (e ∷ es) start limit q moved s b =
    elim (Bool-cases (cuts_avoidable start limit q e)) [
      | inl c ↦ rw c (retreat_pass-IsBoundary u es start limit e.offset true s.1 s.0)
      | inr c ↦ rw c (retreat_pass-IsBoundary u es start limit q moved s.1 b)
    ]

retreat-IsBoundary :
    (fuel : ℕ) (u : List ℕ) (es : List Entity) (start limit q : ℕ)
    → StartAtBoundaries u es
    → IsBoundary u q
    → IsBoundary u (retreat fuel es start limit q)
unfolding retreat
retreat-IsBoundary zero u es start limit q s b = b
retreat-IsBoundary (suc fuel) u es start limit q s b =
    elim (Bool-cases (retreat_pass es start limit q false).1) [
      | inl m ↦ rw m (
          retreat-IsBoundary fuel u es start limit _ s
            (retreat_pass-IsBoundary u es start limit q false s b))
      | inr m ↦ rw m b
    ]

last_break-IsBoundary :
    (u : List ℕ) (start p : ℕ) → start < p → IsBoundary u p → IsBoundary u (last_break u start p)
last_break-IsBoundary u start p h b = elim (last_break-IsBreak u start p h).seam [
  | inl e ↦ rw e b
  | inr s ↦ unit-IsBoundary u _ (space_not_high _ s)
]

settle-IsBoundary :
    (fuel : ℕ) (u : List ℕ) (es : List Entity) (start limit w p : ℕ)
    → StartAtBoundaries u es
    → IsBoundary u w
    → start < p
    → IsBoundary u p
    → IsBoundary u (settle fuel u es start limit w p)
unfolding settle entity_start_before
settle-IsBoundary zero u es start limit w p s bw h b = bw
settle-IsBoundary (suc fuel) u es start limit w p s bw h b =
    let i = last_break u start p in
    let q = retreat (suc i) es start limit i in
    let bq =
      retreat-IsBoundary (suc i) u es start limit i s (last_break-IsBoundary u start p h b) in
    elim (Bool-cases (leb q start)) [
      | inl e ↦ rw e bw
      | inr e ↦ elim (Bool-cases (q == p)) [
        | inl d ↦ rw (e, d) bq
        | inr d ↦ rw (e, d) (settle-IsBoundary fuel u es start limit w q s bw (ground arith) bq)
      ]
    ]

window_edge-IsBoundary :
    (u : List ℕ) (start limit : ℕ) → Paired u → 0 < limit → IsBoundary u (window_edge u start limit)
unfolding window_edge
window_edge-IsBoundary u start limit p h =
    let i = start + limit - 1 in
    elim (Bool-cases (is_high_surrogate (unit u i))) [
      | inl e ↦ elim (Bool-cases (i == start)) [
        | inl d ↦
            let at_start : i ≡ start = (==_iff i start).0 d in
            let k : start + 2 - 1 ≡ suc start = omega arith in
            rw (e, d)
              (unit-IsBoundary u (start + 2)
                (rw k (low_not_high _ (Paired-get_or u start p (rw at_start at e)))))
        | inr d ↦
            let k : suc (i - 1) ≡ i = ground arith in
            rw (e, d) (unit-IsBoundary u i (before_other u (i - 1) p (rw k (high_not_low _ e))))
      ]
      | inr e ↦ rw e (unit-IsBoundary u (start + limit) e)
    ]

get_or_end : (u : List ℕ) (i : ℕ) → length u ≤ i → unit u i ≡ 0
get_or_end [] i h = refl
get_or_end (c ∷ u) zero h = absurd (omega arith)
get_or_end (c ∷ u) (suc i) h = get_or_end u i (omega arith)

pub end-IsBoundary : (u : List ℕ) {i : ℕ} → Paired u → i < length u → IsBoundary u (length u)
end-IsBoundary u p h =
    let k : suc (length u - 1) ≡ length u = omega arith in
    unit-IsBoundary u (length u) (
      before_other u (length u - 1) p
        (rw (get_or_end u (suc (length u - 1)) (omega arith)) no_unit_not_low))

pub split_point-IsBoundary :
    (u : List ℕ) (es : List Entity) (start limit : ℕ)
    → Paired u
    → StartAtBoundaries u es
    → start < length u
    → 0 < limit
    → IsBoundary u (split_point u es start limit)
unfolding split_point
split_point-IsBoundary u es start limit p s h l =
    let w = window_edge u start limit in
    let bw = window_edge-IsBoundary u start limit p l in
    elim (Bool-cases (leb (length u) (start + limit))) [
      | inl e ↦ rw e (end-IsBoundary u p h)
      | inr e ↦ rw e (
          settle-IsBoundary (suc w) u es start limit w w s bw
            (window_edge_bounds u start limit l (ground arith)).0 bw)
    ]
