-- ===== src/Pagination/Tests.antt =====
-- The row under page 3 of 10.
use golagram.Base.{ℕ, ◌≡◌, ◌≤◌, ◌↔◌, refl, true, [], ◌∷◌, codes, arith}
use golagram.Strings.{cut_prefix}
use golagram.Strconv.{parse_int, format_int}
use golagram.Filters.{any_id}
use golagram.Pagination.{row, page_of, page_button}
use golagram.Pagination.Targets.{targets, IsNearest, IsStep, Distinct, row-IsStep}

three_of_ten : targets (codes "res") (row (codes "res") 3 10) ≡ 1 ∷ 2 ∷ 4 ∷ 10 ∷ []
unfolding targets row page_of cut_prefix page_button parse_int format_int
three_of_ten = refl

row-IsStep_example :
    (here : ℕ) × (IsNearest 12 10 here
      × (((any_id (targets (codes "res") (row (codes "res") 12 10)) 9 ≡ true) ↔ IsStep here 10 9)
          × (Distinct (targets (codes "res") (row (codes "res") 12 10))
              × ((1 ≤ here) × (here ≤ 10)))))
row-IsStep_example = row-IsStep (codes "res") 12 10 9 (omega arith) (omega arith)
