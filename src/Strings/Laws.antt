-- ===== src/Strings/Laws.antt =====
-- Laws of cutting, splitting and joining.
use golagram.Base.{ℕ, ◌≡◌, ◌∙◌, refl, ap, false, List, [], ◌∷◌, ◌++◌, some, ==_refl, All, arith}
use golagram.Strings.{Lacks, cut_prefix, contains, cut, split, join}

pub cut-append : (a b : List ℕ) (sep : ℕ) → Lacks sep a → cut (a ++ sep ∷ b) sep ≡ (a, b)
unfolding cut
cut-append [] b sep h = rw ==_refl
cut-append (c ∷ a) b sep h = ground (arith, cut-append a b sep h.1)

pub cut-Lacks_self : (a : List ℕ) (sep : ℕ) → Lacks sep a → cut a sep ≡ (a, [])
unfolding cut
cut-Lacks_self [] sep h = refl
cut-Lacks_self (c ∷ a) sep h = ground (arith, cut-Lacks_self a sep h.1)

pub cut-Lacks : (s : List ℕ) (sep : ℕ) → Lacks sep (cut s sep).0
unfolding cut
cut-Lacks [] sep = tt
cut-Lacks (c ∷ s) sep = ground (arith, cut-Lacks s sep)

pub cut-keeps-Lacks :
    (s : List ℕ) (sep other : ℕ)
    → Lacks other s
    → Lacks other (cut s sep).0 × Lacks other (cut s sep).1
unfolding cut
cut-keeps-Lacks [] sep other h = (tt, tt)
cut-keeps-Lacks (c ∷ s) sep other h = ground (arith, cut-keeps-Lacks s sep other h.1)

pub contains-Lacks : (s : List ℕ) (sep : ℕ) → contains s sep ≡ false → Lacks sep s
unfolding contains
contains-Lacks [] sep h = tt
contains-Lacks (c ∷ s) sep h = ground (arith, contains-Lacks s sep)

pub Lacks-contains : (s : List ℕ) (sep : ℕ) → Lacks sep s → contains s sep ≡ false
unfolding contains
Lacks-contains [] sep h = refl
Lacks-contains (c ∷ s) sep h = ground (arith, Lacks-contains s sep h.1)

pub cut_prefix-append : (p s : List ℕ) → cut_prefix (p ++ s) p ≡ some s
unfolding cut_prefix
cut_prefix-append [] s = refl
cut_prefix-append (c ∷ p) s = rw (==_refl c) (cut_prefix-append p s)

pub split-Lacks_self : (p : List ℕ) (sep : ℕ) → Lacks sep p → split p sep ≡ p ∷ []
unfolding split
split-Lacks_self [] sep h = refl
split-Lacks_self (c ∷ p) sep h = ground (arith, split-Lacks_self p sep h.1)

pub split-append :
    (p s : List ℕ) (sep : ℕ) → Lacks sep p → split (p ++ sep ∷ s) sep ≡ p ∷ split s sep
unfolding split
split-append [] s sep h = rw ==_refl
split-append (c ∷ p) s sep h = ground (arith, split-append p s sep h.1)

-- Splitting a join gives the parts back.
pub split-join :
    (p : List ℕ) (ps : List (List ℕ)) (sep : ℕ)
    → All (Lacks sep) (p ∷ ps)
    → split (join (p ∷ ps) sep) sep ≡ p ∷ ps
unfolding join
split-join p [] sep h = split-Lacks_self p sep h.0
split-join p (q ∷ ps) sep h =
    split-append p (join (q ∷ ps) sep) sep h.0 ∙ ap (λ t. p ∷ t) (split-join q ps sep h.1)
