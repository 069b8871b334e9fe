-- ===== src/Router/Include/Paths.antt =====
-- Paths of inclusions, and that the test for cycles finds exactly them.
use golagram.Base.{
  ℕ, zero, suc, ◌≡◌, ◌∙◌, ◌⊎◌, inl, inr, ap, sym, ◌<◌, refl, Bool, true, false, List, [], ◌∷◌,
  Option, none, some, ◌==◌, ==_iff, Bool-cases, arith,
}
use golagram.Router.Include.{Includes, or_further, any_reaches, reaches}

abbrev pub Among : ℕ → List ℕ → Type 0
Among y [] = ⊥
Among y (x ∷ xs) = (y ≡ x) ⊎ Among y xs

-- A path of inclusions.
pub data Reach (g : Includes) : ℕ → ℕ → Type 0 where
  here : (t : ℕ) → Reach g t t
  via : (x y t : ℕ) → Among y (g x) → Reach g y t → Reach g x t

-- Each router includes routers of a lower rank only.
abbrev pub Ranked : Includes → (ℕ → ℕ) → Type 0
Ranked g rank = (x y : ℕ) → Among y (g x) → rank y < rank x

abbrev pub Decided : Includes → ℕ → ℕ → Option Bool → Type 0
Decided g x t answer =
    ((answer ≡ some true) × Reach g x t) ⊎ ((answer ≡ some false) × (Reach g x t → ⊥))

abbrev DecidedAmong : Includes → List ℕ → ℕ → Option Bool → Type 0
DecidedAmong g ys t answer =
    ((answer ≡ some true) × ((y : ℕ) × (Among y ys × Reach g y t)))
    ⊎ ((answer ≡ some false) × ((y : ℕ) → Among y ys → Reach g y t → ⊥))

path_from : {g : Includes} {x y t : ℕ} → y ≡ x → Reach g y t → Reach g x t
path_from {g} {x} {y} {t} e p = rw (sym e) p

any_reaches-Decided :
    (g : Includes) (t : ℕ) (f : ℕ → Option Bool) (ys : List ℕ)
    → ((y : ℕ) → Among y ys → Decided g y t (f y))
    → DecidedAmong g ys t (any_reaches f ys)
unfolding any_reaches
any_reaches-Decided g t f [] h = inr (refl, λ y m p. absurd m)
any_reaches-Decided g t f (y ∷ ys) h = elim (h y (inl refl)) [
  | inl (e, p) ↦ inl (rw e refl, (y, (inl refl, p)))
  | inr (e, apart) ↦ elim (any_reaches-Decided g t f ys (λ z m. h z (inr m))) [
    | inl (e', (z, (m, p))) ↦ inl (rw (e, e') refl, (z, (inr m, p)))
    | inr (e', none_of) ↦ inr (
      rw (e, e') refl,
      λ z m p. elim m [ inl same ↦ apart (path_from same p) | inr deeper ↦ none_of z deeper p ],
    )
  ]
]

-- A path that is not empty goes through an included router.
path_cases :
    (g : Includes) (x t : ℕ) → Reach g x t → (x ≡ t) ⊎ ((y : ℕ) × (Among y (g x) × Reach g y t))
path_cases g x t (here _) = inl refl
path_cases g x t (via _ y _ m p) = inr (y, (m, p))

unequal : {x t : ℕ} → (x == t) ≡ false → x ≡ t → ⊥
unequal {x} {t} e same = let yes = (==_iff x t).1 same in cc

pub reaches-Decided :
    (g : Includes) (rank : ℕ → ℕ) (fuel x t : ℕ)
    → Ranked g rank
    → rank x < fuel
    → Decided g x t (reaches fuel g x t)
unfolding reaches
reaches-Decided g rank zero x t ranked low = absurd (omega arith)
reaches-Decided g rank (suc fuel) x t ranked low = elim (Bool-cases (x == t)) [
  | inl e ↦ inl (rw e refl, path_from (sym ((==_iff x t).0 e)) (here t))
  | inr e ↦
      elim (any_reaches-Decided g t (λ y. reaches fuel g y t) (g x)
        (λ y m. reaches-Decided g rank fuel y t ranked (omega (arith, ranked x y m)))) [
          | inl (a, (y, (m, p))) ↦ inl (rw (e, a) refl, via x y t m p)
          | inr (a, none_of) ↦ inr (
            rw (e, a) refl,
            λ p. elim (path_cases g x t p) [
              | inl same ↦ absurd (unequal e same)
              | inr (y, (m, q)) ↦ none_of y m q
            ],
          )
        ]
]

-- A test that answers false is right, whatever its fuel.
or_further-false :
    (o rest : Option Bool) → or_further o rest ≡ some false → (o ≡ some false) × (rest ≡ some false)
or_further-false none rest h = cc
or_further-false (some true) rest h = cc
or_further-false (some false) rest h = (refl, h)

any_reaches-false :
    (f : ℕ → Option Bool) (ys : List ℕ) (y : ℕ)
    → any_reaches f ys ≡ some false
    → Among y ys
    → f y ≡ some false
unfolding any_reaches
any_reaches-false f [] y h m = absurd m
any_reaches-false f (x ∷ ys) y h m =
    let (first, further) = or_further-false (f x) (any_reaches f ys) h in
    elim m [ inl e ↦ ap f e ∙ first | inr deeper ↦ any_reaches-false f ys y further deeper ]

pub reaches-false :
    (g : Includes) (fuel x t : ℕ) → reaches fuel g x t ≡ some false → Reach g x t → ⊥
unfolding reaches
reaches-false g zero x t h p = cc
reaches-false g (suc fuel) x t h p = elim (Bool-cases (x == t)) [
  | inl e ↦ (let wrong : some true ≡ some false = rw e at h in cc)
  | inr e ↦
      (let further : any_reaches (λ y. reaches fuel g y t) (g x) ≡ some false = rw e at h in
        elim (path_cases g x t p) [
          | inl same ↦ unequal e same
          | inr (y, (m, q)) ↦
              reaches-false g fuel y t
                (any_reaches-false (λ z. reaches fuel g z t) (g x) y further m) q
        ])
]
