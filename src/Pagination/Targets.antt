-- ===== src/Pagination/Targets.antt =====
-- The pages that the buttons of a row lead to.
use golagram.Base.{
  ℕ, ◌≡◌, ◌≢◌, ◌↔◌, ◌⊎◌, ◌∙◌, ap, ◌≤◌, ◌<◌, ◌+◌, ◌-◌, ◌^◌, refl, Bool, true, false, List, [], ◌∷◌,
  ◌++◌, Option, none, some, ltb, ==_refl, if◌then◌else◌, codes, arith,
}
use golagram.Strings.{cut_prefix}
use golagram.Strconv.{format_int}
use golagram.Strconv.RoundTrip.{parse_int-format_int}
use golagram.Filters.{any_id}
use golagram.Pagination.{
  InlineKeyboardButton, below, page_data, page_button, indicator, append_if, clamp, row_at, row,
  page_of,
}

-- Page of each button's data, where there is one.
abbrev pub cons_page : Option ℕ → List ℕ → List ℕ
cons_page none pages = pages
cons_page (some page) pages = page ∷ pages

unfoldable pub targets : List ℕ → List InlineKeyboardButton → List ℕ
targets prefix [] = []
targets prefix (b ∷ buttons) = cons_page (page_of prefix b.callback_data) (targets prefix buttons)

cut_prefix-same : (p a b : List ℕ) → cut_prefix (p ++ a) (p ++ b) ≡ cut_prefix a b
unfolding cut_prefix
cut_prefix-same [] a b = refl
cut_prefix-same (c ∷ p) a b = rw (==_refl c) (cut_prefix-same p a b)

page_of-page_data :
    (prefix : List ℕ) (page : ℕ)
    → 1 ≤ page
    → page < 2 ^ 63
    → page_of prefix (page_data prefix page) ≡ some page
unfolding page_of page_data cut_prefix
page_of-page_data prefix page low high =
    rw (cut_prefix-same prefix (codes ":pg:" ++ format_int page) (codes ":pg:"))
      (rw (parse_int-format_int page (omega arith)) (ground arith))

page_of-indicator :
    (prefix : List ℕ) (page total : ℕ)
    → page_of prefix (indicator prefix page total).callback_data ≡ none
unfolding page_of indicator cut_prefix
page_of-indicator prefix page total =
    rw (cut_prefix-same prefix (codes ":pgcur") (codes ":pg:")) refl

abbrev put_if : Bool → ℕ → List ℕ → List ℕ
put_if c page pages = if c then page ∷ pages else pages

targets-append_if :
    (prefix text : List ℕ) (c : Bool) (page : ℕ) (rest : List InlineKeyboardButton)
    → (c ≡ true → (1 ≤ page) × (page < 2 ^ 63))
    → targets prefix (append_if c (page_button prefix text page) rest)
      ≡ put_if c page (targets prefix rest)
unfolding targets page_button page_data
targets-append_if prefix text true page rest fits =
    ap (λ o. cons_page o (targets prefix rest))
      (page_of-page_data prefix page (fits refl).0 (fits refl).1)
targets-append_if prefix text false page rest fits = refl

targets-indicator :
    (prefix : List ℕ) (page total : ℕ) (rest : List InlineKeyboardButton)
    → targets prefix (indicator prefix page total ∷ rest) ≡ targets prefix rest
unfolding targets
targets-indicator prefix page total rest =
    ap (λ o. cons_page o (targets prefix rest)) (page_of-indicator prefix page total)

-- The pages in the order of the buttons.
abbrev steps : ℕ → ℕ → List ℕ
steps page total = put_if (ltb 2 page) 1 (
    put_if (ltb 1 page) (page - 1)
      (put_if (ltb page total) (page + 1) (put_if (ltb page (total - 1)) total [])))

targets-row_at :
    (prefix : List ℕ) (page total : ℕ)
    → 1 ≤ page
    → page ≤ total
    → total < 2 ^ 63
    → targets prefix (row_at prefix page total) ≡ steps page total
unfolding row_at targets
targets-row_at prefix page total low high fits =
    targets-append_if prefix _ (ltb 2 page) 1 _ (λ h. omega arith)
    ∙ ap (put_if (ltb 2 page) 1) (
        targets-append_if prefix _ (ltb 1 page) (page - 1) _ (λ h. ground arith)
        ∙ ap (put_if (ltb 1 page) (page - 1)) (
            targets-indicator prefix page total _
            ∙ (targets-append_if prefix _ (ltb page total) (page + 1) _ (λ h. ground arith)
                ∙ ap (put_if (ltb page total) (page + 1)) (
                    targets-append_if prefix _ (ltb page (total - 1)) total []
                      (λ h. ground arith)))))

-- The pages next to a page, and the first and the last one.
abbrev pub IsStep : ℕ → ℕ → ℕ → Type 0
IsStep page total q =
    (q ≢ page)
    × (((1 ≤ q) × (q ≤ total)) × (((q ≡ 1) ⊎ (q + 1 ≡ page)) ⊎ ((q ≡ page + 1) ⊎ (q ≡ total))))

steps_iff :
    (page total q : ℕ)
    → 1 ≤ page
    → page ≤ total
    → (any_id (steps page total) q ≡ true) ↔ IsStep page total q
steps_iff page total q low high = ground arith

abbrev pub Distinct : List ℕ → Type 0
Distinct [] = Unit
Distinct (q ∷ pages) = (any_id pages q ≡ false) × Distinct pages

steps-Distinct : (page total : ℕ) → 1 ≤ page → page ≤ total → Distinct (steps page total)
steps-Distinct page total low high = ground arith

-- The page out of 1 to the total that is nearest to a page, whose int is the bit pattern `page`.
abbrev pub IsNearest : ℕ → ℕ → ℕ → Type 0
IsNearest page total nearest =
    ((nearest ≡ 1) × ((page ≡ 0) ⊎ (2 ^ 63 ≤ page)))
    ⊎ (((nearest ≡ page) × ((1 ≤ page) × (page ≤ total)))
        ⊎ ((nearest ≡ total) × ((total < page) × (page < 2 ^ 63))))

clamp-IsNearest :
    (page total : ℕ) → 2 ≤ total → total < 2 ^ 63 → IsNearest page total (clamp page total)
unfolding clamp
clamp-IsNearest page total h fits = ground arith

clamp_range : (page total : ℕ) → 2 ≤ total → (1 ≤ clamp page total) × (clamp page total ≤ total)
unfolding clamp
clamp_range page total h = ground arith

-- For a total of 2 or more, there is a page out of 1 to the total, the given page where that is in
-- this range and else the nearest in it, such that the buttons of the given page's row lead, each to
-- another page, to exactly the first and the last page and the pages before and behind that page,
-- out of 1 to the total and without that page itself.
pub row-IsStep :
    (prefix : List ℕ) (page total q : ℕ)
    → 2 ≤ total
    → total < 2 ^ 63
    → (here : ℕ) × (IsNearest page total here
        × (((any_id (targets prefix (row prefix page total)) q ≡ true) ↔ IsStep here total q)
            × (Distinct (targets prefix (row prefix page total)) × ((1 ≤ here) × (here ≤ total)))))
unfolding row
row-IsStep prefix page total q two fits =
    let not_small : below total 2 ≡ false = ground arith in
    let (low, high) = clamp_range page total two in
    let found = targets-row_at prefix (clamp page total) total low high fits in
    (
      clamp page total,
      (
        clamp-IsNearest page total two fits,
        rw (not_small, found)
            (
              steps_iff (clamp page total) total q low high,
              (steps-Distinct (clamp page total) total low high, (low, high)),
            ),
      ),
    )
