-- ===== src/WebApp.antt =====
-- webapp.go: the validation of what a Mini App or a login widget sends. The parser of query strings,
-- HMAC-SHA256, SHA-256, Ed25519, the JSON decoder and the clock are parameters. A text is a list of
-- bytes, a url.UrlValues a list of keys with their values, and an int64 its bit pattern.
pub mod Validators
pub mod Checked
mod Tests
use golagram.Base.{
  ℕ, ◌+◌, ◌*◌, ◌/◌, ◌%◌, ◌-◌, ◌^◌, Bool, true, false, ◌&&◌, ◌||◌, List, [], ◌∷◌, ◌++◌, not, map,
  Option, none, some, ◌⊎◌, inl, inr, ltb, leb, ◌==◌, if◌then◌else◌, codes, text_eq,
}
use golagram.Base.Assoc.{lookup, text_key}
use golagram.Strings.{join}
use golagram.Strconv.{parse_int, format_int}
use golagram.Backoff.{int_less, second}

abbrev pub UrlValues : Type 0
UrlValues = List (List ℕ × List (List ℕ))

abbrev pub first_or_empty : Option (List (List ℕ)) → List ℕ
first_or_empty (some (v ∷ vs)) = v
first_or_empty _ = []

-- values.Get(key)
unfoldable pub get : UrlValues → List ℕ → List ℕ
unfolding lookup
get values key = first_or_empty (lookup key values)

-- a <= b of strings, byte by byte
unfoldable pub text_le : List ℕ → List ℕ → Bool
text_le [] t = true
text_le (c ∷ s) [] = false
text_le (c ∷ s) (d ∷ t) = ltb c d || (c == d && text_le s t)

unfoldable pub insert_key : List ℕ → List (List ℕ) → List (List ℕ)
unfolding text_le
insert_key k [] = k ∷ []
insert_key k (j ∷ js) = if text_le k j then k ∷ j ∷ js else j ∷ insert_key k js

-- sort.Strings
unfoldable pub sort_keys : List (List ℕ) → List (List ℕ)
unfolding insert_key
sort_keys [] = []
sort_keys (k ∷ ks) = insert_key k (sort_keys ks)

unfoldable pub is_skipped : List (List ℕ) → List ℕ → Bool
unfolding text_eq
is_skipped [] k = false
is_skipped (e ∷ exclude) k = text_eq e k || is_skipped exclude k

unfoldable pub kept_keys : List (List ℕ) → UrlValues → List (List ℕ)
unfolding is_skipped
kept_keys exclude [] = []
kept_keys exclude ((k, vs) ∷ values) =
    let rest = kept_keys exclude values in if is_skipped exclude k then rest else k ∷ rest

abbrev pub values_or_nil : Option (List (List ℕ)) → List (List ℕ)
values_or_nil none = []
values_or_nil (some vs) = vs

-- The lines of one key.
unfoldable pub key_lines : UrlValues → List ℕ → List (List ℕ)
unfolding lookup
key_lines values k = map (λ v. k ++ b'=' ∷ v) (values_or_nil (lookup k values))

unfoldable pub all_lines : UrlValues → List (List ℕ) → List (List ℕ)
unfolding key_lines
all_lines values [] = []
all_lines values (k ∷ ks) = key_lines values k ++ all_lines values ks

unfoldable pub check_lines : UrlValues → List (List ℕ) → List (List ℕ)
unfolding all_lines sort_keys kept_keys
check_lines values exclude = all_lines values (sort_keys (kept_keys exclude values))

unfoldable pub data_check_string : UrlValues → List (List ℕ) → List ℕ
unfolding check_lines join
data_check_string values exclude = join (check_lines values exclude) b'\n'

abbrev pub hex_digit : ℕ → ℕ
hex_digit n = if ltb n 10 then b'0' + n else b'a' + (n - 10)

-- hex.EncodeToString
unfoldable pub hex_encode : List ℕ → List ℕ
hex_encode [] = []
hex_encode (b ∷ bs) = hex_digit (b / 16) ∷ hex_digit (b % 16) ∷ hex_encode bs

pub data InitDataError : Type 0 where
  bad_query : InitDataError
  no_hash : InitDataError
  no_signature : InitDataError
  bad_signature : InitDataError
  mismatch : InitDataError
  bad_number : List ℕ → InitDataError
  bad_json : InitDataError
  no_auth_date : InitDataError
  not_fresh : InitDataError

-- The fields of WebAppInitData; a user or a chat is what the JSON decoder gives.
pub record WebAppInitData {ℓ} (J : Type ℓ) : Type ℓ where
  pub query_id : List ℕ
  pub user : Option J
  pub receiver : Option J
  pub chat : Option J
  pub chat_type : List ℕ
  pub chat_instance : List ℕ
  pub start_param : List ℕ
  pub can_send_after : ℕ
  pub auth_date : Option ℕ
  pub hash : List ℕ
  pub signature : List ℕ
  pub raw : UrlValues

-- An absent field, or one that parses.
unfoldable pub number_field : UrlValues → List ℕ → InitDataError ⊎ Option ℕ
unfolding get parse_int
number_field values key =
    if text_eq (get values key) []
    then inr none
    else elim (parse_int (get values key)) [ none ↦ inl (bad_number key) | some n ↦ inr (some n) ]

abbrev pub five_minutes : ℕ
five_minutes = 300 * second

-- AuthDate.IsZero: no auth_date, or the one that stands for the year 1.
unfoldable pub is_zero_date : Option ℕ → Bool
is_zero_date none = true
is_zero_date (some unix) = unix == 2 ^ 64 - 62135596800

abbrev pub seconds_or_zero : Option ℕ → ℕ
seconds_or_zero none = 0
seconds_or_zero (some n) = n * second % 2 ^ 64

module _ (since : ℕ → ℕ) where
  -- The freshness check: time.Since gives the age of a unix time.
  unfoldable pub check_fresh : Option ℕ → ℕ → Option InitDataError
  unfolding int_less is_zero_date
  check_fresh none max_age = if int_less 0 max_age then some no_auth_date else none
  check_fresh (some unix) max_age =
      let age = since unix in
      let stale = int_less max_age age || int_less age (2 ^ 64 - five_minutes) in
      if not (int_less 0 max_age)
      then none
      else if is_zero_date (some unix)
      then some no_auth_date
      else if stale
      then some not_fresh
      else none
