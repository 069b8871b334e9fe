-- ===== src/Base64.antt =====
-- base64.RawURLEncoding of Go's standard library, on texts and byte strings as lists of bytes.
pub mod RoundTrip
use golagram.Base.{
  ℕ, ◌+◌, ◌-◌, ◌*◌, ◌/◌, ◌%◌, Bool, true, false, ◌&&◌, ◌||◌, List, [], ◌∷◌, map, Option, none, some,
  leb, ltb, ◌==◌, if◌then◌else◌,
}

-- The character of a six-bit value.
unfoldable pub char64 : ℕ → ℕ
char64 v =
    if ltb v 26
    then b'A' + v
    else if ltb v 52
    then b'a' + (v - 26)
    else if ltb v 62
    then b'0' + (v - 52)
    else if v == 62
    then b'-'
    else b'_'

unfoldable pub value64 : ℕ → Option ℕ
value64 c =
    if leb b'A' c && leb c b'Z'
    then some (c - b'A')
    else if leb b'a' c && leb c b'z'
    then some (c - b'a' + 26)
    else if leb b'0' c && leb c b'9'
    then some (c - b'0' + 52)
    else if c == b'-'
    then some 62
    else if c == b'_'
    then some 63
    else none

-- Three bytes are four values; one byte is two of them, two bytes are three.
unfoldable pub sextets : List ℕ → List ℕ
sextets [] = []
sextets (a ∷ []) = a / 4 ∷ a % 4 * 16 ∷ []
sextets (a ∷ b ∷ []) = a / 4 ∷ (a % 4 * 16 + b / 16) ∷ b % 16 * 4 ∷ []
sextets (a ∷ b ∷ c ∷ s) = a / 4 ∷ (a % 4 * 16 + b / 16) ∷ (b % 16 * 4 + c / 64) ∷ c % 64 ∷ sextets s

unfoldable pub encode : List ℕ → List ℕ
unfolding char64 sextets
encode s = map char64 (sextets s)

abbrev pub cons_value : Option ℕ → Option (List ℕ) → Option (List ℕ)
cons_value none rest = none
cons_value (some v) none = none
cons_value (some v) (some vs) = some (v ∷ vs)

-- The values of the characters; line ends are skipped.
unfoldable pub values : List ℕ → Option (List ℕ)
unfolding value64
values [] = some []
values (c ∷ s) =
    let rest = values s in
    let one = cons_value (value64 c) rest in if c == 10 || c == 13 then rest else one

abbrev pub cons_three : ℕ → ℕ → ℕ → Option (List ℕ) → Option (List ℕ)
cons_three a b c none = none
cons_three a b c (some s) = some (a ∷ b ∷ c ∷ s)

-- The bytes of the values; the bits behind the last byte are dropped, one value alone is an error.
unfoldable pub bytes_of : List ℕ → Option (List ℕ)
bytes_of [] = some []
bytes_of (v ∷ []) = none
bytes_of (v ∷ w ∷ []) = some ((v * 4 + w / 16) ∷ [])
bytes_of (v ∷ w ∷ x ∷ []) = some ((v * 4 + w / 16) ∷ (w % 16 * 16 + x / 4) ∷ [])
bytes_of (v ∷ w ∷ x ∷ y ∷ s) =
    cons_three (v * 4 + w / 16) (w % 16 * 16 + x / 4) (x % 4 * 64 + y) (bytes_of s)

abbrev pub bytes_of_values : Option (List ℕ) → Option (List ℕ)
bytes_of_values none = none
bytes_of_values (some vs) = bytes_of vs

unfoldable pub decode : List ℕ → Option (List ℕ)
unfolding values bytes_of
decode s = bytes_of_values (values s)
