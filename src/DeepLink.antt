-- ===== src/DeepLink.antt =====
-- deeplink.go: links to the bot that carry a payload to its /start handler. Texts are lists of bytes;
-- a ValidationError is one constructor for each of its messages.
pub mod Accepted
mod Tests
use golagram.Base.{
  ℕ, Bool, true, false, ◌&&◌, ◌||◌, ◌⊎◌, inl, inr, List, [], ◌∷◌, ◌++◌, Option, none, some, leb,
  ltb, ◌==◌, if◌then◌else◌, codes, length,
}
use golagram.Base64.{encode, decode}

pub data LinkError : Type 0 where
  username_unknown : LinkError
  payload_empty : LinkError
  payload_too_long : LinkError
  character_not_allowed : LinkError

abbrev pub max_start_payload_length : ℕ
max_start_payload_length = 64

unfoldable pub encode_start_payload : List ℕ → List ℕ
encode_start_payload raw = encode raw

-- The loop that drops the `=` at the end: a character stays unless it is `=` with none kept behind.
abbrev pub drop_pad : ℕ → List ℕ → List ℕ
drop_pad c [] = if c == b'=' then [] else c ∷ []
drop_pad c (d ∷ kept) = c ∷ d ∷ kept

unfoldable pub strip_padding : List ℕ → List ℕ
strip_padding [] = []
strip_padding (c ∷ payload) = drop_pad c (strip_padding payload)

unfoldable pub decode_start_payload : List ℕ → Option (List ℕ)
unfolding strip_padding
decode_start_payload payload = decode (strip_padding payload)

abbrev pub is_allowed : ℕ → Bool
is_allowed c =
    (leb b'A' c && leb c b'Z')
    || ((leb b'a' c && leb c b'z') || ((leb b'0' c && leb c b'9') || (c == b'_' || c == b'-')))

-- The loop over the characters: nil, or the error of the first that is not allowed.
unfoldable pub check_characters : List ℕ → Option LinkError
check_characters [] = none
check_characters (c ∷ payload) =
    let rest = check_characters payload in if is_allowed c then rest else some character_not_allowed

unfoldable pub validate_start_payload : List ℕ → Option LinkError
unfolding check_characters
validate_start_payload [] = some payload_empty
validate_start_payload (c ∷ payload) =
    if ltb max_start_payload_length (length (c ∷ payload))
    then some payload_too_long
    else check_characters (c ∷ payload)

-- fmt.Sprintf("https://t.me/%s?%s=%s", username, param, payload)
unfoldable pub link_of : List ℕ → List ℕ → List ℕ → List ℕ
link_of username param payload =
    codes "https://t.me/" ++ username ++ b'?' ∷ (param ++ b'=' ∷ payload)

abbrev pub link_unless : Option LinkError → List ℕ → LinkError ⊎ List ℕ
link_unless none link = inr link
link_unless (some e) link = inl e

unfoldable pub deep_link : List ℕ → List ℕ → List ℕ → Bool → LinkError ⊎ List ℕ
unfolding encode_start_payload validate_start_payload link_of
deep_link [] param raw encoded = inl username_unknown
deep_link (u ∷ username) param raw encoded =
    let payload = if encoded then encode_start_payload raw else raw in
    link_unless (validate_start_payload payload) (link_of (u ∷ username) param payload)

unfoldable pub create_start_link : List ℕ → List ℕ → Bool → LinkError ⊎ List ℕ
unfolding deep_link
create_start_link username payload encoded = deep_link username (codes "start") payload encoded

unfoldable pub create_start_group_link : List ℕ → List ℕ → Bool → LinkError ⊎ List ℕ
unfolding deep_link
create_start_group_link username payload encoded =
    deep_link username (codes "startgroup") payload encoded
