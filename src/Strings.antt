-- ===== src/Strings.antt =====
-- The functions of Go's package strings that the modelled code calls, on texts as lists of runes.
pub mod Laws
pub mod Trim
use golagram.Base.{
  ℕ, ◌≢◌, Bool, true, false, ◌&&◌, ◌||◌, List, [], ◌∷◌, ◌++◌, Option, none, some, leb, ◌==◌,
  if◌then◌else◌, All,
}

abbrev pub Lacks : ℕ → List ℕ → Type 0
Lacks sep = All (λ c. c ≢ sep)

-- strings.HasPrefix(s, prefix)
unfoldable pub has_prefix : List ℕ → List ℕ → Bool
has_prefix s [] = true
has_prefix [] (p ∷ prefix) = false
has_prefix (c ∷ s) (p ∷ prefix) = c == p && has_prefix s prefix

-- strings.CutPrefix(s, prefix)
unfoldable pub cut_prefix : List ℕ → List ℕ → Option (List ℕ)
cut_prefix s [] = some s
cut_prefix [] (p ∷ prefix) = none
cut_prefix (c ∷ s) (p ∷ prefix) = if c == p then cut_prefix s prefix else none

-- strings.Contains(s, sep) for a separator of one character
unfoldable pub contains : List ℕ → ℕ → Bool
contains [] sep = false
contains (c ∷ s) sep = c == sep || contains s sep

-- strings.Cut(s, sep): what stands before the first separator, and behind it
unfoldable pub cut : List ℕ → ℕ → List ℕ × List ℕ
cut [] sep = ([], [])
cut (c ∷ s) sep = let rest = cut s sep in if c == sep then ([], s) else (c ∷ rest.0, rest.1)

-- unicode.IsSpace
unfoldable pub is_space : ℕ → Bool
is_space c =
    (leb 9 c && leb c 13)
    || (c == 0x20
        || (c == 0x85
            || (c == 0xA0
                || (c == 0x1680
                    || ((leb 0x2000 c && leb c 0x200A)
                        || (c == 0x2028
                            || (c == 0x2029 || (c == 0x202F || (c == 0x205F || c == 0x3000)))))))))

unfoldable pub trim_left : List ℕ → List ℕ
trim_left [] = []
trim_left (c ∷ s) = if is_space c then trim_left s else c ∷ s

-- Drops the white space at the end: what stands before it is kept as soon as one character is not.
unfoldable pub trim_cons : ℕ → List ℕ → List ℕ
trim_cons c [] = if is_space c then [] else c ∷ []
trim_cons c (d ∷ r) = c ∷ d ∷ r

unfoldable pub trim_right : List ℕ → List ℕ
unfolding trim_cons
trim_right [] = []
trim_right (c ∷ s) = trim_cons c (trim_right s)

-- strings.TrimSpace(s)
unfoldable pub trim_space : List ℕ → List ℕ
unfolding trim_left trim_right
trim_space s = trim_right (trim_left s)

-- strings.Split(s, sep): the parts, at least one
unfoldable pub cons_part : ℕ → List (List ℕ) → List (List ℕ)
cons_part c [] = (c ∷ []) ∷ []
cons_part c (p ∷ ps) = (c ∷ p) ∷ ps

unfoldable pub split : List ℕ → ℕ → List (List ℕ)
unfolding cons_part
split [] sep = [] ∷ []
split (c ∷ s) sep = let rest = split s sep in if c == sep then [] ∷ rest else cons_part c rest

-- strings.Join(parts, sep)
unfoldable pub join : List (List ℕ) → ℕ → List ℕ
join [] sep = []
join (p ∷ []) sep = p
join (p ∷ q ∷ ps) sep = p ++ sep ∷ join (q ∷ ps) sep
