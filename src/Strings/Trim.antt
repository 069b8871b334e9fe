-- ===== src/Strings/Trim.antt =====
-- Laws of trimming white space.
use golagram.Base.{ℕ, ◌≡◌, ◌∙◌, refl, ap, false, List, [], ◌∷◌, Bool-cases, inl, inr, arith}
use golagram.Strings.{is_space, trim_left, trim_cons, trim_right, trim_space}

-- The text neither begins nor ends with white space.
abbrev pub IsTrimmed : List ℕ → Type 0
IsTrimmed s = trim_space s ≡ s

trim_right-trim_cons :
    (c : ℕ) (r : List ℕ) → trim_right r ≡ r → trim_right (trim_cons c r) ≡ trim_cons c r
unfolding trim_right
trim_right-trim_cons c [] h = elim (Bool-cases (is_space c)) [
  | inl e ↦ rw e refl
  | inr e ↦ rw e (rw e refl)
]
trim_right-trim_cons c (d ∷ r) h = rw h refl

trim_right_idem : (s : List ℕ) → trim_right (trim_right s) ≡ trim_right s
unfolding trim_right
trim_right_idem [] = refl
trim_right_idem (c ∷ s) = trim_right-trim_cons c (trim_right s) (trim_right_idem s)

trim_left-trim_cons :
    (c : ℕ) (r : List ℕ) → is_space c ≡ false → trim_left (trim_cons c r) ≡ trim_cons c r
unfolding trim_left trim_cons
trim_left-trim_cons c [] h = rw h (rw h refl)
trim_left-trim_cons c (d ∷ r) h = rw h refl

trim_left_idem : (s : List ℕ) → trim_left (trim_left s) ≡ trim_left s
unfolding trim_left
trim_left_idem [] = refl
trim_left_idem (c ∷ s) = ground (arith, trim_left_idem s)

-- Trimming leaves nothing to trim.
pub trim_space-IsTrimmed : (s : List ℕ) → IsTrimmed (trim_space s)
unfolding trim_space
trim_space-IsTrimmed [] = refl
trim_space-IsTrimmed (c ∷ s) = elim (Bool-cases (is_space c)) [
  | inl e ↦ rw e (trim_space-IsTrimmed s)
  | inr e ↦ rw e (ap trim_right (trim_left-trim_cons c (trim_right s) e) ∙ trim_right_idem (c ∷ s))
]
