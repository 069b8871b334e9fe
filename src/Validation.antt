-- ===== src/Validation.antt =====
-- validation.go: what is checked before a request is sent. A message text is a list of runes; a token
-- and the data of a button are lists of bytes. The error's message is not rendered: it is given by
-- what it is made of.
pub mod Accepted
mod Tests
use golagram.Base.{
  ℕ, suc, Bool, true, false, not, ◌&&◌, ◌||◌, List, [], ◌∷◌, Option, none, some, ltb, leb, ◌==◌,
  if◌then◌else◌, length,
}
use golagram.Utf16.{utf16_len}
use golagram.Strconv.{is_digit}
use golagram.Split.{max_text_length}
use golagram.CallbackData.{max_callback_data_length}
use golagram.Pagination.{InlineKeyboardButton}

pub data ValidationError : Type 0 where
  token_format : ValidationError
  empty_text : ValidationError
  text_too_long : ℕ → ValidationError
  callback_data_too_long : List ℕ → ℕ → ValidationError

-- [A-Za-z0-9_-]
unfoldable pub is_secret_char : ℕ → Bool
is_secret_char c =
    is_digit c
    || ((leb b'A' c && leb c b'Z') || ((leb b'a' c && leb c b'z') || (c == b'_' || c == b'-')))

unfoldable pub all_secret : List ℕ → Bool
unfolding is_secret_char
all_secret [] = true
all_secret (c ∷ s) = is_secret_char c && all_secret s

-- [A-Za-z0-9_-]{n}$
unfoldable pub is_secret : ℕ → List ℕ → Bool
unfolding all_secret
is_secret n s = all_secret s && length s == n

-- \d*:[A-Za-z0-9_-]{35}$
unfoldable pub is_token_tail : List ℕ → Bool
unfolding is_secret
is_token_tail [] = false
is_token_tail (c ∷ s) =
    let more = is_token_tail s in if is_digit c then more else c == b':' && is_secret 35 s

-- tokenPattern.MatchString
unfoldable pub is_token : List ℕ → Bool
unfolding is_token_tail
is_token [] = false
is_token (c ∷ s) = is_digit c && is_token_tail s

unfoldable pub validate_token : List ℕ → Option ValidationError
unfolding is_token
validate_token token = if is_token token then none else some token_format

unfoldable pub validate_outgoing_text : List ℕ → Option ValidationError
unfolding utf16_len
validate_outgoing_text [] = some empty_text
validate_outgoing_text (r ∷ text) =
    let units = utf16_len (r ∷ text) in
    if ltb max_text_length units then some (text_too_long units) else none

-- A markup of another type, or a nil *InlineKeyboardMarkup, is not checked.
pub data ReplyMarkup : Type 0 where
  inline_keyboard : List (List InlineKeyboardButton) → ReplyMarkup
  other_markup : ReplyMarkup

unfoldable pub validate_row : List InlineKeyboardButton → Option ValidationError
validate_row [] = none
validate_row (btn ∷ row) =
    let n = length btn.callback_data in
    let rest = validate_row row in
    if ltb max_callback_data_length n then some (callback_data_too_long btn.text n) else rest

abbrev pub first_error : Option ValidationError → Option ValidationError → Option ValidationError
first_error none rest = rest
first_error (some err) rest = some err

unfoldable pub validate_rows : List (List InlineKeyboardButton) → Option ValidationError
unfolding validate_row
validate_rows [] = none
validate_rows (row ∷ rows) = first_error (validate_row row) (validate_rows rows)

unfoldable pub validate_reply_markup : ReplyMarkup → Option ValidationError
unfolding validate_rows
validate_reply_markup (inline_keyboard rows) = validate_rows rows
validate_reply_markup other_markup = none
