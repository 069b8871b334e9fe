-- ===== src/Router/Include/Acyclic.antt =====
-- Include keeps the graph of routers without cycles, and its test terminates.
use golagram.Base.{
  ℕ, suc, ◌≡◌, ◌⊎◌, inl, inr, sym, ◌≤◌, ◌<◌, ◌+◌, refl, Bool, true, false, List, [], ◌∷◌, ◌++◌,
  Option, none, some, ◌==◌, ==_iff, Bool-cases, arith,
}
use golagram.Router.Include.{
  Includes, reaches, Inclusion, panicked, included, append_sub, include_unless, include_mutable,
  include,
}
use golagram.Router.Include.Paths.{Among, Reach, here, via, Ranked, reaches-Decided, reaches-false}

-- The routers that reach r move above sub.
abbrev bump : ℕ → Option Bool → ℕ
bump n none = 0
bump n (some true) = suc n
bump n (some false) = 0

abbrev lifted : Includes → (ℕ → ℕ) → ℕ → ℕ → ℕ → ℕ
lifted g rank r sub x = rank x + bump (rank sub) (reaches (suc (rank x)) g x r)

lifted_old :
    (g : Includes) (rank : ℕ → ℕ) (r sub x y : ℕ)
    → Ranked g rank
    → Among y (g x)
    → lifted g rank r sub y < lifted g rank r sub x
lifted_old g rank r sub x y ranked m =
    let below = ranked x y m in
    elim (reaches-Decided g rank (suc (rank x)) x r ranked (omega arith)) [
      | inl (e, p) ↦ elim (reaches-Decided g rank (suc (rank y)) y r ranked (omega arith)) [
        | inl (e', q) ↦ rw (e, e') (omega arith)
        | inr (e', q) ↦ rw (e, e') (omega arith)
      ]
      | inr (e, apart) ↦ elim (reaches-Decided g rank (suc (rank y)) y r ranked (omega arith)) [
        | inl (e', q) ↦ absurd (apart (via x y r m q))
        | inr (e', q) ↦ rw (e, e') (omega arith)
      ]
    ]

lifted_new :
    (g : Includes) (rank : ℕ → ℕ) (r sub : ℕ)
    → Ranked g rank
    → (Reach g sub r → ⊥)
    → lifted g rank r sub sub < lifted g rank r sub r
lifted_new g rank r sub ranked apart =
    elim (reaches-Decided g rank (suc (rank r)) r r ranked (omega arith)) [
      | inl (e, p) ↦ elim (reaches-Decided g rank (suc (rank sub)) sub r ranked (omega arith)) [
        | inl (e', q) ↦ absurd (apart q)
        | inr (e', q) ↦ rw (e, e') (omega arith)
      ]
      | inr (e, alone) ↦ absurd (alone (here r))
    ]

Among-snoc : (y s : ℕ) (xs : List ℕ) → Among y (xs ++ s ∷ []) → Among y xs ⊎ (y ≡ s)
Among-snoc y s [] m = elim m [ inl e ↦ inr e | inr m' ↦ absurd m' ]
Among-snoc y s (x ∷ xs) m = elim m [
  | inl e ↦ inl (inl e)
  | inr m' ↦ elim (Among-snoc y s xs m') [ inl k ↦ inl (inr k) | inr e ↦ inr e ]
]

append_sub-Ranked :
    (g : Includes) (rank : ℕ → ℕ) (r sub : ℕ)
    → Ranked g rank
    → (Reach g sub r → ⊥)
    → Ranked (append_sub r sub g) (lifted g rank r sub)
append_sub-Ranked g rank r sub ranked apart x y m = elim (Bool-cases (x == r)) [
  | inl e ↦ elim (Among-snoc y sub (g x) (rw e at m)) [
    | inl old ↦ lifted_old g rank r sub x y ranked old
    | inr same ↦ rw (same, (==_iff x r).0 e) (lifted_new g rank r sub ranked apart)
  ]
  | inr e ↦ lifted_old g rank r sub x y ranked (rw e at m)
]

include_cases :
    (o : Option Bool) (r sub : ℕ) (g g' : Includes)
    → include_unless o r sub g ≡ included g'
    → (o ≡ some false) × (append_sub r sub g ≡ g')
include_cases none r sub g g' h = cc
include_cases (some true) r sub g g' h = cc
include_cases (some false) r sub g g' h = (refl, included_inj h)
  where
    included_inj : {a b : Includes} → included a ≡ included b → a ≡ b
    included_inj h = cc

-- The graphs that calls of Include build out of new routers.
pub data Built : Includes → Type 0 where
  fresh : Built (λ x. [])
  grown :
      (frozen : ℕ → Bool) (fuel r sub : ℕ) (g g' : Includes)
      → Built g
      → include frozen fuel r (some sub) g ≡ included g'
      → Built g'

include_was_mutable :
    (frozen : ℕ → Bool) (fuel r sub : ℕ) (g g' : Includes)
    → include frozen fuel r (some sub) g ≡ included g'
    → include_mutable fuel r sub g ≡ included g'
unfolding include
include_was_mutable frozen fuel r sub g g' h = elim (Bool-cases (frozen r)) [
  | inl e ↦ (let wrong : panicked ≡ included g' = rw e at h in cc)
  | inr e ↦ rw e at h
]

Built-Ranked : (g : Includes) → Built g → (rank : ℕ → ℕ) × Ranked g rank
unfolding include_mutable
Built-Ranked _ fresh = (λ x. 0, λ x y m. absurd m)
Built-Ranked _ (grown frozen fuel r sub g g' built h) =
    let (rank, ranked) = Built-Ranked g built in
    let (answer, same) =
      include_cases (reaches fuel g sub r) r sub g g'
        (include_was_mutable frozen fuel r sub g g' h) in
    (
      lifted g rank r sub,
      rw (sym same) (append_sub-Ranked g rank r sub ranked (reaches-false g fuel sub r answer)),
    )

rank_falls : (g : Includes) (rank : ℕ → ℕ) (x t : ℕ) → Ranked g rank → Reach g x t → rank t ≤ rank x
rank_falls g rank x t ranked (here _) = omega arith
rank_falls g rank x t ranked (via _ y _ m p) =
    omega (arith, ranked x y m, rank_falls g rank y t ranked p)

-- What a call of Include comes to: a panic where sub reaches r, and the new edge otherwise.
abbrev pub IsDecided : Includes → ℕ → ℕ → Inclusion → Type 0
IsDecided g r sub outcome =
    ((outcome ≡ panicked) × Reach g sub r)
    ⊎ ((outcome ≡ included (append_sub r sub g)) × (Reach g sub r → ⊥))

include-IsDecided :
    (frozen : ℕ → Bool) (g : Includes) (rank : ℕ → ℕ) (fuel r sub : ℕ)
    → frozen r ≡ false
    → Ranked g rank
    → rank sub < fuel
    → IsDecided g r sub (include frozen fuel r (some sub) g)
unfolding include include_mutable
include-IsDecided frozen g rank fuel r sub thawed ranked low =
    rw thawed elim (reaches-Decided g rank fuel sub r ranked low) [
      | inl (e, p) ↦ inl (rw e refl, p)
      | inr (e, apart) ↦ inr (rw e refl, apart)
    ]

-- In every graph of routers that calls of Include built out of new routers: no router reaches itself
-- through a router that it includes; and a further call on a router that is not frozen ends, on some
-- fuel and on any more, with a panic where the included router reaches the including one, and with the new edge where
-- it does not.
pub include-terminates :
    (frozen : ℕ → Bool) (g : Includes) (r sub : ℕ)
    → frozen r ≡ false
    → Built g
    → ((x : ℕ) → ((y : ℕ) × (Among y (g x) × Reach g y x)) → ⊥)
      × ((enough : ℕ) × ((more : ℕ)
            → IsDecided g r sub (include frozen (enough + more) r (some sub) g)))
include-terminates frozen g r sub thawed built =
    let (rank, ranked) = Built-Ranked g built in
    (
      λ x (y, (m, p)). omega (arith, ranked x y m, rank_falls g rank y x ranked p),
      (
        suc (rank sub),
        λ more.
            include-IsDecided frozen g rank (suc (rank sub) + more) r sub thawed ranked
              (omega arith),
      ),
    )
