-- ===== src/Keyboard/Rows.antt =====
-- adjustRows keeps every item in order, and its rows have the sizes asked for.
use golagram.Base.{
  ℕ, zero, suc, ◌≡◌, ◌∙◌, ◌≤◌, min, refl, ap, sym, ◌⊎◌, inl, inr, Bool-cases, List, [], ◌∷◌, ◌++◌,
  length, get_or, take, drop, concat, if◌then◌else◌, ltb, leb, arith, length-drop, length-take,
  take-append-drop,
}
use golagram.Keyboard.{next_size, adjust_from, adjust_rows}

-- The size of row i: the i-th of the sizes, the last for the rows beyond, and 1 for none.
abbrev pub row_size : List ℕ → ℕ → ℕ
row_size [] i = 1
row_size (s ∷ sizes) i =
    let size = get_or (s ∷ sizes) (min i (length sizes)) 0 in if ltb 0 size then size else 1

module _ {B : Type 0} where
  -- Rows from number i on: all full but the last, which is not empty.
  abbrev pub IsLaidOut : List ℕ → ℕ → List (List B) → Type 0
  IsLaidOut sizes i [] = Unit
  IsLaidOut sizes i (r ∷ []) = (1 ≤ length r) × (length r ≤ row_size sizes i)
  IsLaidOut sizes i (r ∷ r' ∷ rest) =
      (length r ≡ row_size sizes i) × IsLaidOut sizes (suc i) (r' ∷ rest)

next_size-row_size :
    (sizes : List ℕ) (i idx : ℕ)
    → min i (length sizes) ≡ min idx (length sizes)
    → (next_size sizes idx).0 ≡ row_size sizes i
unfolding next_size
next_size-row_size [] i idx h = refl
next_size-row_size (s ∷ sizes) i idx h =
    let same : (if leb (suc (length sizes)) idx then length sizes else idx) ≡ min i (length sizes) =
      ground arith in
    rw same refl

next_size-index :
    (sizes : List ℕ) (i idx : ℕ)
    → min i (length sizes) ≡ min idx (length sizes)
    → min (suc i) (length sizes) ≡ min (next_size sizes idx).1 (length sizes)
unfolding next_size
next_size-index [] i idx h = omega arith
next_size-index (s ∷ sizes) i idx h = ground arith

pub row_size-pos : (sizes : List ℕ) (i : ℕ) → 1 ≤ row_size sizes i
row_size-pos [] i = omega arith
row_size-pos (s ∷ sizes) i = ground arith

module _ {B : Type 0} where
  concat-adjust_from :
      (fuel : ℕ) (items : List B) (sizes : List ℕ) (idx : ℕ)
      → length items ≤ fuel
      → concat (adjust_from fuel items sizes idx) ≡ items
  unfolding adjust_from
  concat-adjust_from zero [] sizes idx h = refl
  concat-adjust_from zero (x ∷ items) sizes idx h = absurd (omega arith)
  concat-adjust_from (suc fuel) [] sizes idx h = refl
  concat-adjust_from (suc fuel) (x ∷ items) sizes idx h =
      let n = min (next_size sizes idx).0 (suc (length items)) in
      let size = next_size-row_size sizes idx idx refl in
      let pos = row_size-pos sizes idx in
      let left = length-drop n (x ∷ items) in
      ap (λ t. take n (x ∷ items) ++ t)
        (concat-adjust_from fuel (drop n (x ∷ items)) sizes (next_size sizes idx).1 (omega arith))
      ∙ take-append-drop n (x ∷ items)

  adjust_from-nil :
      (fuel : ℕ) (sizes : List ℕ) (idx : ℕ) → adjust_from {B = B} fuel [] sizes idx ≡ []
  unfolding adjust_from
  adjust_from-nil zero sizes idx = refl
  adjust_from-nil (suc fuel) sizes idx = refl

  length-zero : (xs : List B) → length xs ≡ 0 → xs ≡ []
  length-zero [] h = refl
  length-zero (x ∷ xs) h = absurd (omega arith)

  IsLaidOut-cons :
      (sizes : List ℕ) (i : ℕ) (r : List B) (rest : List (List B))
      → 1 ≤ length r
      → length r ≤ row_size sizes i
      → (rest ≡ []) ⊎ (length r ≡ row_size sizes i)
      → IsLaidOut sizes (suc i) rest
      → IsLaidOut sizes i (r ∷ rest)
  IsLaidOut-cons sizes i r [] lo hi full h = (lo, hi)
  IsLaidOut-cons sizes i r (r' ∷ rest) lo hi (inl e) h = cc
  IsLaidOut-cons sizes i r (r' ∷ rest) lo hi (inr e) h = (e, h)

  last-or-full :
      (fuel n size : ℕ) (xs : List B) (sizes : List ℕ) (next : ℕ)
      → n ≡ min size (length xs)
      → (adjust_from fuel (drop n xs) sizes next ≡ []) ⊎ (length (take n xs) ≡ size)
  last-or-full fuel n size xs sizes next h = elim (Bool-cases (leb (length xs) size)) [
    | inl q ↦ inl (
        rw (length-zero (drop n xs) (let left = length-drop n xs in ground arith))
          (adjust_from-nil fuel sizes next))
    | inr q ↦ inr (let kept = length-take n xs in ground arith)
  ]

  IsLaidOut-adjust_from :
      (fuel : ℕ) (items : List B) (sizes : List ℕ) (i idx : ℕ)
      → min i (length sizes) ≡ min idx (length sizes)
      → IsLaidOut sizes i (adjust_from fuel items sizes idx)
  unfolding adjust_from
  IsLaidOut-adjust_from zero items sizes i idx h = tt
  IsLaidOut-adjust_from (suc fuel) [] sizes i idx h = tt
  IsLaidOut-adjust_from (suc fuel) (x ∷ items) sizes i idx h =
      let n = min (next_size sizes idx).0 (suc (length items)) in
      let size = next_size-row_size sizes i idx h in
      let pos = row_size-pos sizes i in
      let kept = length-take n (x ∷ items) in
      IsLaidOut-cons sizes i (take n (x ∷ items)) _ (omega arith) (omega arith)
        (rw (sym size) (last-or-full fuel n (next_size sizes idx).0 (x ∷ items) sizes _ refl))
        (IsLaidOut-adjust_from fuel (drop n (x ∷ items)) sizes (suc i) (next_size sizes idx).1
          (next_size-index sizes i idx h))

  -- For any items and sizes, the rows of adjustRows joined are the items in their order, and the
  -- rows have the sizes in turn, the last size repeating and 1 standing for none or for one that is
  -- not positive, where the last row may be shorter but is not empty.
  pub adjust_rows-IsLaidOut :
      (items : List B) (sizes : List ℕ)
      → (concat (adjust_rows items sizes) ≡ items) × IsLaidOut sizes 0 (adjust_rows items sizes)
  unfolding adjust_rows
  adjust_rows-IsLaidOut items sizes = (
    concat-adjust_from (length items) items sizes 0 (omega arith),
    IsLaidOut-adjust_from (length items) items sizes 0 0 refl,
  )
