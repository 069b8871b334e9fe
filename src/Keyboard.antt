-- ===== src/Keyboard.antt =====
-- keyboard.go and inline_keyboard.go: the two builders, which differ in their buttons only, and the
-- layout of rows. A row size is an int of which the code asks only whether it is positive, and 0
-- stands for the sizes that are not.
pub mod Rows
pub mod Built
mod Tests
use golagram.Base.{
  ℕ, zero, suc, ◌-◌, min, List, [], ◌∷◌, ◌++◌, map, if◌then◌else◌, ltb, leb, length, get_or, take,
  drop, concat,
}

pub record Keyboard (B : Type 0) : Type 0 where
  pub rows : List (List B)
  pub current_row : List B

-- The size of the next row, and the index of the size after it.
unfoldable pub next_size : List ℕ → ℕ → ℕ × ℕ
next_size [] idx = (1, idx)
next_size (s ∷ sizes) idx =
    let i = if leb (length (s ∷ sizes)) idx then length sizes else idx in
    let size = get_or (s ∷ sizes) i 0 in ((if ltb 0 size then size else 1), suc i)

module _ {B : Type 0} where
  -- The loop of adjustRows; each round takes an item, so as many rounds as items are enough.
  unfoldable pub adjust_from : ℕ → List B → List ℕ → ℕ → List (List B)
  adjust_from zero items sizes idx = []
  adjust_from (suc fuel) [] sizes idx = []
  adjust_from (suc fuel) (x ∷ items) sizes idx =
      let (size, next) = next_size sizes idx in
      let n = min size (length (x ∷ items)) in
      take n (x ∷ items) ∷ adjust_from fuel (drop n (x ∷ items)) sizes next

  unfoldable pub adjust_rows : List B → List ℕ → List (List B)
  adjust_rows items sizes = adjust_from (length items) items sizes 0

  abbrev pub new_keyboard : Keyboard B
  new_keyboard = record { rows = []; current_row = [] }

  -- Adds the row under construction, when it has buttons.
  unfoldable pub append_row : List (List B) → List B → List (List B)
  append_row rows [] = rows
  append_row rows (b ∷ bs) = rows ++ (b ∷ bs) ∷ []

  unfoldable pub row : List B → Keyboard B → Keyboard B
  row buttons kb = record {
    rows = append_row (append_row kb.rows kb.current_row) buttons;
    current_row = [];
  }

  unfoldable pub add : List B → Keyboard B → Keyboard B
  add buttons kb = record kb { rows = kb.rows ++ map (λ b. b ∷ []) buttons }

  unfoldable pub insert_button : B → Keyboard B → Keyboard B
  insert_button button kb = record kb { current_row = kb.current_row ++ button ∷ [] }

  unfoldable pub adjust : List ℕ → Keyboard B → Keyboard B
  adjust sizes kb = record {
    rows = adjust_rows (concat kb.rows ++ kb.current_row) sizes;
    current_row = [];
  }

  -- Build: the rows of the markup, and the builder with the row under construction ended.
  unfoldable pub build : Keyboard B → List (List B) × Keyboard B
  build kb =
      let rows = append_row kb.rows kb.current_row in
      (rows, record { rows = rows; current_row = [] })
