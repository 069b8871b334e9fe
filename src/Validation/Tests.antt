-- ===== src/Validation/Tests.antt =====
-- The checks of validation.go at concrete values.
use golagram.Base.{ℕ, ◌≡◌, refl, false, List, ◌++◌, some, codes}
use golagram.Api.{sanitize_token}
use golagram.Api.Redacted.{contains_text}
use golagram.Validation
use golagram.Validation.{
  validate_token, is_token, is_token_tail, is_secret, all_secret, is_secret_char,
  validate_outgoing_text,
}
use golagram.Validation.Accepted.{sanitize_token-validate_token}

abbrev token : List ℕ
token = codes "42:ABCDEFGHIJKLMNOPQRSTUVWXYZ_abcdef-0"

short_token : validate_token (codes "42:ABC") ≡ some Validation.token_format
unfolding validate_token
short_token = refl

sanitize_token-validate_token_example :
    contains_text (sanitize_token token (codes "https://host/bot" ++ token)) token ≡ false
unfolding validate_token
sanitize_token-validate_token_example =
    sanitize_token-validate_token token (codes "https://host/bot" ++ token) refl
