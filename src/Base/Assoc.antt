-- ===== src/Base/Assoc.antt =====
-- Go maps as association lists: a key that is written stays in place, a new key goes to the end.
use Prim.Native.Nat.{ℕ}
use mathlib.Core.Path.{◌≡◌, refl}
use mathlib.Core.Logic.{◌↔◌, inl, inr}
use mathlib.Core.Bool.{Bool, true}
use mathlib.Core.List.{List, [], ◌∷◌}
use mathlib.Core.Option.{Option, none, some}
use native.Mathlib.Omega.{arith}
use golagram.Base.Tests.{if◌then◌else◌, Bool-cases, text_eq, text_eq_iff, ==_iff}
use golagram.Base.Tests

-- A key type with Go's comparison ==.
pub record Eq {ℓ} (K : Type ℓ) : Type ℓ where
  pub beq : K → K → Bool
  pub beq_iff : (a b : K) → (beq a b ≡ true) ↔ (a ≡ b)

pub beq_refl {ℓ} : {K : Type ℓ} (e : Eq K) (a : K) → e.beq a a ≡ true
beq_refl e a = (e.beq_iff a a).1 refl

instance abbrev pub text_key : Eq (List ℕ)
text_key = record { beq = text_eq; beq_iff = text_eq_iff }

abbrev pub nat_beq : ℕ → ℕ → Bool
nat_beq a b = Tests.◌==◌ a b

instance abbrev pub nat_key : Eq ℕ
nat_key = record { beq = nat_beq; beq_iff = ==_iff }

module _ {ℓ κ} {K : Type ℓ} {V : Type κ} ⦃e : Eq K⦄ where
  unfoldable pub lookup : K → List (K × V) → Option V
  lookup k [] = none
  lookup k ((j, v) ∷ m) = if e.beq j k then some v else lookup k m

  unfoldable pub insert : K → V → List (K × V) → List (K × V)
  insert k v [] = (k, v) ∷ []
  insert k v ((j, w) ∷ m) = if e.beq j k then (j, v) ∷ m else (j, w) ∷ insert k v m

  -- delete(m, k)
  unfoldable pub erase : K → List (K × V) → List (K × V)
  erase k [] = []
  erase k ((j, w) ∷ m) = let rest = erase k m in if e.beq j k then rest else (j, w) ∷ rest

  -- for k, v := range other { m[k] = v }
  unfoldable pub merge : List (K × V) → List (K × V) → List (K × V)
  merge m [] = m
  merge m ((k, v) ∷ other) = merge (insert k v m) other

  pub lookup-insert :
      (k j : K) (v : V) (m : List (K × V))
      → lookup j (insert k v m) ≡ (if e.beq k j then some v else lookup j m)
  unfolding lookup insert
  lookup-insert k j v [] = refl
  lookup-insert k j v ((i, w) ∷ m) =
      ground (arith, e.beq_iff k j, e.beq_iff i k, e.beq_iff i j, lookup-insert k j v m)

  pub lookup-erase :
      (k j : K) (m : List (K × V)) → lookup j (erase k m) ≡ (if e.beq k j then none else lookup j m)
  unfolding lookup erase
  lookup-erase k j [] = elim (Bool-cases (e.beq k j)) [ inl h ↦ rw h refl | inr h ↦ rw h refl ]
  lookup-erase k j ((i, w) ∷ m) =
      ground (arith, e.beq_iff k j, e.beq_iff i k, e.beq_iff i j, lookup-erase k j m)

  -- for k, v := range m { if !keep(v) { delete(m, k) } }
  unfoldable pub retain : (V → Bool) → List (K × V) → List (K × V)
  retain keep [] = []
  retain keep ((j, v) ∷ m) = let rest = retain keep m in if keep v then (j, v) ∷ rest else rest

  -- Each key stands once, as in every Go map.
  abbrev pub Unique : List (K × V) → Type (ℓ ⊔ κ)
  Unique [] = Unit
  Unique ((j, v) ∷ m) = (lookup j m ≡ none) × Unique m

  pub insert-Unique : (k : K) (v : V) (m : List (K × V)) → Unique m → Unique (insert k v m)
  unfolding insert lookup
  insert-Unique k v [] h = (refl, tt)
  insert-Unique k v ((j, w) ∷ m) h = ground (
    arith,
    h.0,
    h.1,
    insert-Unique k v m h.1,
    lookup-insert k j v m,
    e.beq_iff k j,
    e.beq_iff j k,
  )

  pub erase-Unique : (k : K) (m : List (K × V)) → Unique m → Unique (erase k m)
  unfolding erase
  erase-Unique k [] h = tt
  erase-Unique k ((j, w) ∷ m) h = elim (Bool-cases (e.beq j k)) [
    | inl q ↦ rw q (erase-Unique k m h.1)
    | inr q ↦ rw q (ground (arith, h.0, lookup-erase k j m), erase-Unique k m h.1)
  ]

  pub lookup-retain :
      (keep : V → Bool) (k : K) (m : List (K × V))
      → Unique m
      → lookup k (retain keep m)
        ≡ elim (lookup k m) [ some v ↦ if keep v then some v else none | none ↦ none ]
  unfolding lookup retain
  lookup-retain keep k [] h = refl
  lookup-retain keep k ((j, w) ∷ m) h =
      let ih = lookup-retain keep k m h.1 in
      elim (Bool-cases (e.beq j k)) [
        | inl q ↦ elim (Bool-cases (keep w)) [
          | inl p ↦ rw (q, p) (rw (q) refl)
          | inr p ↦
              (let jk : j ≡ k = (e.beq_iff j k).0 q in
                let absent = h.0 in
                let gone : lookup k m ≡ none = cc in rw (q, p) (rw (ih, gone) refl))
        ]
        | inr q ↦ elim (Bool-cases (keep w)) [ inl p ↦ rw (q, p) (rw q ih) | inr p ↦ rw (q, p) ih ]
      ]
