-- ===== src/Base/Slices.antt =====
-- Slices xs[a:b] of a list.
use Prim.Native.Nat.{ℕ, zero, suc, ◌+◌, ◌-◌, ◌≤◌, ◌<◌}
use mathlib.Core.Path.{◌≡◌, refl, ap, sym, ◌∙◌}
use mathlib.Core.List.{List, [], ◌∷◌, ◌++◌}
use native.Mathlib.Omega.{arith}
use golagram.Base.Lists.{length, get_or, take, drop, take-append-drop, length-take, length-drop}

module _ {ℓ} {A : Type ℓ} where
  -- xs[a:b], for a ≤ b ≤ len(xs).
  abbrev pub slice : List A → ℕ → ℕ → List A
  slice xs a b = take (b - a) (drop a xs)

  drop-nil : (n : ℕ) → drop {A = A} n [] ≡ []
  drop-nil zero = refl
  drop-nil (suc n) = refl

  take-nil : (n : ℕ) → take {A = A} n [] ≡ []
  take-nil zero = refl
  take-nil (suc n) = refl

  take-snoc :
      (n : ℕ) (xs : List A) (d : A)
      → n < length xs
      → take (suc n) xs ≡ take n xs ++ get_or xs n d ∷ []
  take-snoc n [] d h = absurd (omega arith)
  take-snoc zero (x ∷ xs) d h = refl
  take-snoc (suc n) (x ∷ xs) d h = ap (λ t. x ∷ t) (take-snoc n xs d (omega arith))

  pub get_or-drop : (a n : ℕ) (xs : List A) (d : A) → get_or (drop a xs) n d ≡ get_or xs (a + n) d
  get_or-drop zero n xs d = ap (λ k. get_or xs k d) (omega arith)
  get_or-drop (suc a) n [] d = refl
  get_or-drop (suc a) n (x ∷ xs) d =
      let e : suc a + n ≡ suc (a + n) = omega arith in rw e (get_or-drop a n xs d)

  pub drop-drop : (a b : ℕ) (xs : List A) → drop b (drop a xs) ≡ drop (a + b) xs
  drop-drop zero b xs = ap (λ k. drop k xs) (omega arith)
  drop-drop (suc a) b [] = drop-nil b ∙ sym (drop-nil (suc a + b))
  drop-drop (suc a) b (x ∷ xs) =
      let e : suc a + b ≡ suc (a + b) = omega arith in rw e (drop-drop a b xs)

  pub slice-append-drop : (xs : List A) (a b : ℕ) → a ≤ b → slice xs a b ++ drop b xs ≡ drop a xs
  slice-append-drop xs a b h =
      ap (λ t. slice xs a b ++ t) (ap (λ k. drop k xs) (omega arith) ∙ sym (drop-drop a (b - a) xs))
      ∙ take-append-drop (b - a) (drop a xs)

  pub length-slice : (xs : List A) (a b : ℕ) → a ≤ b → b ≤ length xs → length (slice xs a b) ≡ b - a
  length-slice xs a b h l = omega (arith, length-take (b - a) (drop a xs), length-drop a xs)

  pub drop-get_or :
      (xs : List A) (k : ℕ) (d : A) → k < length xs → drop k xs ≡ get_or xs k d ∷ drop (suc k) xs
  drop-get_or [] k d h = absurd (omega arith)
  drop-get_or (x ∷ xs) zero d h = refl
  drop-get_or (x ∷ xs) (suc k) d h = drop-get_or xs k d (omega arith)

  pub slice-cons :
      (xs : List A) (a b : ℕ) (d : A)
      → a < length xs
      → a < b
      → slice xs a b ≡ get_or xs a d ∷ slice xs (suc a) b
  slice-cons xs a b d l h =
      let e : b - a ≡ suc (b - suc a) = omega arith in rw (e, drop-get_or xs a d l) refl

  -- A slice ends with the item before its end.
  pub slice-snoc :
      (xs : List A) (a b : ℕ) (d : A)
      → a ≤ b
      → b < length xs
      → slice xs a (suc b) ≡ slice xs a b ++ get_or xs b d ∷ []
  slice-snoc xs a b d h l =
      let e : suc b - a ≡ suc (b - a) = omega arith in
      let k : a + (b - a) ≡ b = omega arith in
      rw
        (
          e,
          take-snoc (b - a) (drop a xs) d (omega (arith, length-drop a xs)),
          get_or-drop a (b - a) xs d,
          k,
        )
        refl

  take-add : (m n : ℕ) (xs : List A) → take (m + n) xs ≡ take m xs ++ take n (drop m xs)
  take-add zero n xs = ap (λ k. take k xs) (omega arith)
  take-add (suc m) n [] = let e : suc m + n ≡ suc (m + n) = omega arith in rw (e, take-nil n) refl
  take-add (suc m) n (x ∷ xs) =
      let e : suc m + n ≡ suc (m + n) = omega arith in rw e (ap (λ t. x ∷ t) (take-add m n xs))

  pub slice-append :
      (xs : List A) (a b c : ℕ) → a ≤ b → b ≤ c → slice xs a b ++ slice xs b c ≡ slice xs a c
  slice-append xs a b c h k =
      let e : c - a ≡ (b - a) + (c - b) = omega arith in
      let f : a + (b - a) ≡ b = omega arith in
      rw (e, take-add (b - a) (c - b) (drop a xs), drop-drop a (b - a) xs, f) refl

  pub drop-length : (xs : List A) → drop (length xs) xs ≡ []
  drop-length [] = refl
  drop-length (x ∷ xs) = drop-length xs
