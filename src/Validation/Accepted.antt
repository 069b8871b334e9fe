-- ===== src/Validation/Accepted.antt =====
-- What the checks of validation.go accept: the chunks of the splitter, packed button data, and tokens
-- that the client can redact.
use golagram.Base.{
  max, ℕ, ◌≤◌, ◌≡◌, ◌≢◌, ◌↔◌, refl, sym, true, false, ◌&&◌, List, [], ◌∷◌, Option, none, some,
  none_ne_some, ltb, Bool-cases, inl, inr, All, length, arith,
}
use golagram.Utf16.{encode, utf16_len}
use golagram.Strings.{Lacks}
use golagram.Strconv.{is_digit}
use golagram.Split.{Entity, TextChunk, max_text_length, chunk_limit, split_text_with_entities}
use golagram.Split.Boundary.{StartAtBoundaries}
use golagram.Split.Correct.{IsSendable, split_text_with_entities-IsSendable}
use golagram.Api.{sanitize_token}
use golagram.Api.Redacted.{contains_text, sanitize_token-contains_text}
use golagram.Pagination.{InlineKeyboardButton}
use golagram.Validation.{
  ValidationError, first_error, is_secret_char, all_secret, is_secret, is_token_tail, is_token,
  validate_token, validate_outgoing_text, ReplyMarkup, inline_keyboard, other_markup, validate_row,
  validate_rows, validate_reply_markup,
}

validate_outgoing_text-short :
    (text : List ℕ) → text ≢ [] → utf16_len text ≤ 4096 → validate_outgoing_text text ≡ none
unfolding validate_outgoing_text
validate_outgoing_text-short [] f h = absurd (f refl)
validate_outgoing_text-short (r ∷ text) f h =
    let e : ltb max_text_length (utf16_len (r ∷ text)) ≡ false = ground arith in rw e refl

chunks_validated :
    (limit : ℕ) (cs : List TextChunk)
    → limit ≤ 4096
    → All (IsSendable limit) cs
    → All (λ (c : TextChunk). validate_outgoing_text c.text ≡ none) cs
chunks_validated limit [] l h = tt
chunks_validated limit (c ∷ cs) l h = (
  validate_outgoing_text-short c.text h.0.filled (omega (arith, h.0.fits)),
  chunks_validated limit cs l h.1,
)

-- For any text, entities that do not begin inside a surrogate pair, and a limit of at most 4096 units,
-- every chunk of the splitter passes the check of outgoing texts.
validate_outgoing_text-split :
    (text : List ℕ) (es : List Entity) (limit : Option ℕ)
    → StartAtBoundaries (encode text) es
    → chunk_limit limit ≤ 4096
    → All
        (λ (c : TextChunk). validate_outgoing_text c.text ≡ none)
        (split_text_with_entities text es limit)
validate_outgoing_text-split text es limit s h =
    chunks_validated (max 2 (chunk_limit limit)) _ (omega (arith, h))
      (split_text_with_entities-IsSendable text es limit s)

-- Every button's data is within the limit.
abbrev pub Fits : ReplyMarkup → Type 0
Fits (inline_keyboard rows) =
    All (All (λ (b : InlineKeyboardButton). length b.callback_data ≤ 64)) rows
Fits other_markup = Unit

validate_row_iff :
    (row : List InlineKeyboardButton)
    → (validate_row row ≡ none)
      ↔ All (λ (b : InlineKeyboardButton). length b.callback_data ≤ 64) row
unfolding validate_row
validate_row_iff [] = (λ _. tt, λ _. refl)
validate_row_iff (b ∷ row) = elim (Bool-cases (ltb 64 (length b.callback_data))) [
  | inl e ↦ rw e ((λ h. cc), λ h. absurd (ground (arith, h.0)))
  | inr e ↦
      let rest = validate_row_iff row in rw e ((λ h. (ground arith, rest.0 h)), λ h. rest.1 h.1)
]

either :
    {P Q : Type 0} (first rest : Option ValidationError)
    → (first ≡ none) ↔ P
    → (rest ≡ none) ↔ Q
    → (first_error first rest ≡ none) ↔ P × Q
either none rest p q = ((λ h. (p.0 refl, q.0 h)), λ h. q.1 h.1)
either (some err) rest p q = ((λ h. cc), λ h. p.1 h.0)

validate_rows_iff :
    (rows : List (List InlineKeyboardButton))
    → (validate_rows rows ≡ none)
      ↔ All (All (λ (b : InlineKeyboardButton). length b.callback_data ≤ 64)) rows
unfolding validate_rows
validate_rows_iff [] = (λ _. tt, λ _. refl)
validate_rows_iff (row ∷ rows) =
    either (validate_row row) (validate_rows rows) (validate_row_iff row) (validate_rows_iff rows)

-- A markup passes the check exactly when the data of every button of an inline keyboard is within
-- 64 bytes.
pub validate_reply_markup_iff :
    (markup : ReplyMarkup) → (validate_reply_markup markup ≡ none) ↔ Fits markup
unfolding validate_reply_markup
validate_reply_markup_iff (inline_keyboard rows) = validate_rows_iff rows
validate_reply_markup_iff other_markup = (λ _. tt, λ _. refl)

secret-Lacks : (s : List ℕ) → all_secret s ≡ true → Lacks b'<' s
unfolding all_secret is_secret_char
secret-Lacks [] h = tt
secret-Lacks (c ∷ s) h = ((λ e. ground arith), secret-Lacks s (ground arith))

tail-Lacks : (s : List ℕ) → is_token_tail s ≡ true → Lacks b'<' s
unfolding is_token_tail is_secret
tail-Lacks [] h = tt
tail-Lacks (c ∷ s) h = elim (Bool-cases (is_digit c)) [
  | inl e ↦ ((λ k. ground arith), tail-Lacks s (rw e at h))
  | inr e ↦ let colon = rw e at h in ((λ k. ground arith), secret-Lacks s (ground arith))
]

-- A token that ValidateToken accepts does not stand in the URL of any error that the client reports,
-- wherever and however often the URL had it.
pub sanitize_token-validate_token :
    (token url : List ℕ)
    → validate_token token ≡ none
    → contains_text (sanitize_token token url) token ≡ false
unfolding validate_token is_token
sanitize_token-validate_token [] url h = absurd (cc)
sanitize_token-validate_token (d ∷ token) url h =
    elim (Bool-cases (is_digit d && is_token_tail token)) [
      | inl e ↦
          sanitize_token-contains_text d token url (ground arith)
            ((λ k. ground arith), tail-Lacks token (ground arith))
      | inr e ↦ let wrong = rw e at h in absurd (none_ne_some (sym wrong))
    ]
