-- ===== src/Utf16.antt =====
-- UTF-16 as the source uses it: utf16.Encode([]rune(text)) and string(utf16.Decode(units)). A text
-- is the list of its runes.
pub mod Laws
use golagram.Base.{
  ℕ, ◌+◌, ◌-◌, ◌*◌, ◌/◌, ◌%◌, Bool, ◌&&◌, ◌||◌, List, [], ◌∷◌, ◌++◌, ltb, leb, if◌then◌else◌,
  length,
}

abbrev pub replacement : ℕ
replacement = 0xFFFD

unfoldable pub is_high_surrogate : ℕ → Bool
is_high_surrogate c = leb 0xD800 c && leb c 0xDBFF

unfoldable pub is_low_surrogate : ℕ → Bool
is_low_surrogate c = leb 0xDC00 c && leb c 0xDFFF

-- A rune that is a Unicode scalar value: every rune of a valid Go string.
unfoldable pub is_scalar : ℕ → Bool
is_scalar r = ltb r 0xD800 || (ltb 0xDFFF r && leb r 0x10FFFF)

-- One rune: itself, or a surrogate pair; what is no scalar value is replaced.
pub encode_rune : ℕ → List ℕ
unfolding is_scalar
encode_rune r =
    if is_scalar r
    then if ltb r 0x10000
      then r ∷ []
      else (0xD800 + (r - 0x10000) / 0x400) ∷ (0xDC00 + (r - 0x10000) % 0x400) ∷ []
    else replacement ∷ []

unfoldable pub encode : List ℕ → List ℕ
unfolding encode_rune
encode [] = []
encode (r ∷ rs) = encode_rune r ++ encode rs

-- A unit that is not part of a pair.
unfoldable pub decode_unit : ℕ → ℕ
unfolding is_high_surrogate is_low_surrogate
decode_unit c = if is_high_surrogate c || is_low_surrogate c then replacement else c

decode_pair : ℕ → ℕ → ℕ
decode_pair c d = (c - 0xD800) * 0x400 + (d - 0xDC00) + 0x10000

unfoldable pub decode : List ℕ → List ℕ
unfolding decode_unit decode_pair
decode [] = []
decode (c ∷ []) = decode_unit c ∷ []
decode (c ∷ d ∷ s) =
    let paired = decode_pair c d ∷ decode s in
    let lone = decode_unit c ∷ decode (d ∷ s) in
    if is_high_surrogate c && is_low_surrogate d then paired else lone

-- utf16Len of format_entities.go.
unfoldable pub utf16_len : List ℕ → ℕ
utf16_len s = length (encode s)
