-- ===== src/KeyedMutex/Counts.antt =====
-- Counting the threads of a list that pass a test, and changing one of them.
use golagram.Base.{
  ℕ, zero, suc, ◌≡◌, ◌≢◌, ◌≤◌, ◌+◌, refl, ap, some_inj, Bool, true, false, List, [], ◌∷◌, some,
  get_elem?, All, arith,
}
use mathlib.Core.Path.{subst}
use golagram.KeyedMutex.{set_at}

abbrev pub bit : Bool → ℕ
bit true = 1
bit false = 0

bit-zero : (b : Bool) → bit b ≡ 0 → b ≡ false
bit-zero true h = absurd (omega arith)
bit-zero false h = refl

module _ {A : Type 0} where
  abbrev pub count : (A → Bool) → List A → ℕ
  count p [] = 0
  count p (x ∷ xs) = bit (p x) + count p xs

  pub count-set_at :
      (p : A → Bool) (t : ℕ) (x y : A) (xs : List A)
      → get_elem? xs t ≡ some x
      → count p (set_at t y xs) + bit (p x) ≡ count p xs + bit (p y)
  count-set_at p t x y [] h = cc
  count-set_at p zero x y (z ∷ xs) h = rw (some_inj h) (omega arith)
  count-set_at p (suc t) x y (z ∷ xs) h = omega (arith, count-set_at p t x y xs h)

  pub count-get_elem? :
      (p : A → Bool) (t : ℕ) (x : A) (xs : List A)
      → get_elem? xs t ≡ some x
      → p x ≡ true
      → 1 ≤ count p xs
  count-get_elem? p t x [] h q = cc
  count-get_elem? p zero x (z ∷ xs) h q = rw (some_inj h, q) (omega arith)
  count-get_elem? p (suc t) x (z ∷ xs) h q = omega (arith, count-get_elem? p t x xs h q)

  -- Two different elements that pass.
  pub count-two :
      (p : A → Bool) (t t' : ℕ) (x y : A) (xs : List A)
      → t ≢ t'
      → get_elem? xs t ≡ some x
      → get_elem? xs t' ≡ some y
      → p x ≡ true
      → p y ≡ true
      → 2 ≤ count p xs
  count-two p t t' x y [] d h h' q q' = cc
  count-two p zero zero x y (z ∷ xs) d h h' q q' = absurd (d refl)
  count-two p zero (suc t') x y (z ∷ xs) d h h' q q' =
      rw (some_inj h, q) (omega (arith, count-get_elem? p t' y xs h' q'))
  count-two p (suc t) zero x y (z ∷ xs) d h h' q q' =
      rw (some_inj h', q') (omega (arith, count-get_elem? p t x xs h q))
  count-two p (suc t) (suc t') x y (z ∷ xs) d h h' q q' =
      omega (arith, count-two p t t' x y xs (λ e. d (ap suc e)) h h' q q')

  pub count-none : (p : A → Bool) (xs : List A) → count p xs ≡ 0 → All (λ x. p x ≡ false) xs
  count-none p [] h = tt
  count-none p (x ∷ xs) h = (bit-zero (p x) (omega arith), count-none p xs (omega arith))

  pub All-get_elem? :
      (P : A → Type 0) (t : ℕ) (x : A) (xs : List A) → All P xs → get_elem? xs t ≡ some x → P x
  All-get_elem? P t x [] h e = cc
  All-get_elem? P zero x (z ∷ xs) h e = subst P (some_inj e) h.0
  All-get_elem? P (suc t) x (z ∷ xs) h e = All-get_elem? P t x xs h.1 e

  pub All-set_at :
      (P : A → Type 0) (t : ℕ) (y : A) (xs : List A) → All P xs → P y → All P (set_at t y xs)
  All-set_at P t y [] h q = tt
  All-set_at P zero y (x ∷ xs) h q = (q, h.1)
  All-set_at P (suc t) y (x ∷ xs) h q = (h.0, All-set_at P t y xs h.1 q)

  pub All-map : (P Q : A → Type 0) (xs : List A) → ((x : A) → P x → Q x) → All P xs → All Q xs
  All-map P Q [] f h = tt
  All-map P Q (x ∷ xs) f h = (f x h.0, All-map P Q xs f h.1)

  pub All-both : (P Q : A → Type 0) (xs : List A) → All P xs → All Q xs → All (λ x. P x × Q x) xs
  All-both P Q [] h k = tt
  All-both P Q (x ∷ xs) h k = ((h.0, k.0), All-both P Q xs h.1 k.1)
