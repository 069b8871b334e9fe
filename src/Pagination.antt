-- ===== src/Pagination.antt =====
-- pagination.go: the row of buttons under a page, and the page that a tap on one of them asks for. An
-- int is the bit pattern of an int64.
pub mod Targets
mod Tests
use golagram.Base.{
  ℕ, ◌+◌, ◌-◌, ◌^◌, min, max, Bool, true, false, ◌||◌, List, [], ◌∷◌, ◌++◌, Option, none, some, leb,
  ltb, ◌==◌, if◌then◌else◌, codes,
}
use golagram.Strings.{cut_prefix}
use golagram.Strconv.{format_int, parse_int}
use golagram.Update.{CallbackQuery}
use golagram.Update.Context.{on}
use golagram.Update.Kinds.{is_set}
use golagram.Filters.{Ctx}

pub record InlineKeyboardButton : Type 0 where
  pub text : List ℕ
  pub callback_data : List ℕ

-- i < n, for a positive n
abbrev pub below : ℕ → ℕ → Bool
below i n = leb (2 ^ 63) i || ltb i n

-- fmt.Sprintf("%s:pg:%d", p.prefix, page)
unfoldable pub page_data : List ℕ → ℕ → List ℕ
page_data prefix page = prefix ++ (codes ":pg:" ++ format_int page)

abbrev pub page_button : List ℕ → List ℕ → ℕ → InlineKeyboardButton
unfolding page_data
page_button prefix text page = record { text = text; callback_data = page_data prefix page }

unfoldable pub indicator : List ℕ → ℕ → ℕ → InlineKeyboardButton
indicator prefix page total = record {
  text = format_int page ++ b'/' ∷ format_int total;
  callback_data = prefix ++ codes ":pgcur";
}

-- The statements `if c { row = append(row, button) }` in their order.
abbrev pub append_if :
    Bool → InlineKeyboardButton → List InlineKeyboardButton → List InlineKeyboardButton
append_if c button rest = if c then button ∷ rest else rest

-- min(max(page, 1), total) for a positive total
unfoldable pub clamp : ℕ → ℕ → ℕ
clamp page total = if below page 1 then 1 else min page total

-- The row of a page between 1 and total.
unfoldable pub row_at : List ℕ → ℕ → ℕ → List InlineKeyboardButton
unfolding indicator
row_at prefix page total = append_if (ltb 2 page) (page_button prefix (codes "« 1") 1) (
    append_if (ltb 1 page) (page_button prefix (codes "‹") (page - 1)) (
      indicator prefix page total
      ∷ append_if (ltb page total) (page_button prefix (codes "›") (page + 1)) (
          append_if (ltb page (total - 1))
            (page_button prefix (format_int total ++ codes " »") total) [])))

-- Row; nil is the empty row.
unfoldable pub row : List ℕ → ℕ → ℕ → List InlineKeyboardButton
unfolding clamp row_at
row prefix page total = if below total 2 then [] else row_at prefix (clamp page total) total

abbrev pub page_of_text : Option ℕ → Option ℕ
page_of_text none = none
page_of_text (some page) = if below page 1 then none else some page

abbrev pub page_of_rest : Option (List ℕ) → Option ℕ
page_of_rest none = none
page_of_rest (some rest) = page_of_text (parse_int rest)

-- Page on the data of a callback query; (0, false) is none.
unfoldable pub page_of : List ℕ → List ℕ → Option ℕ
page_of prefix text = page_of_rest (cut_prefix text (prefix ++ codes ":pg:"))

unfoldable pub page : List ℕ → Ctx → Option ℕ
unfolding page_of
page prefix c = on c.update.callback_query (λ (q : CallbackQuery). page_of prefix q.payload) none

unfoldable pub pages_filter : List ℕ → Ctx → Bool
unfolding page
pages_filter prefix c = is_set (page prefix c)
