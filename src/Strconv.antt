-- ===== src/Strconv.antt =====
-- The functions of Go's package strconv that the modelled code calls, on texts as lists of bytes.
-- A uint64 is a natural number, an int64 its bit pattern.
pub mod RoundTrip
mod Tests
use golagram.Base.{
  ℕ, zero, suc, ◌+◌, ◌-◌, ◌*◌, ◌/◌, ◌%◌, ◌^◌, Bool, true, false, ◌&&◌, ◌||◌, List, [], ◌∷◌, Option,
  none, some, leb, ltb, ◌==◌, if◌then◌else◌, codes, text_eq,
}

abbrev pub is_digit : ℕ → Bool
is_digit c = leb b'0' c && leb c b'9'

-- The digits of n before `out`; 20 rounds are enough for a uint64.
unfoldable pub digits_before : ℕ → ℕ → List ℕ → List ℕ
digits_before zero n out = out
digits_before (suc fuel) n out =
    let longer = digits_before fuel (n / 10) ((b'0' + n % 10) ∷ out) in
    if n == 0 then out else longer

-- strconv.FormatUint(n, 10)
unfoldable pub format_uint : ℕ → List ℕ
unfolding digits_before
format_uint n = if n == 0 then b'0' ∷ [] else digits_before 20 n []

-- The loop of ParseUint: the number so far is a uint64, and a step that overflows is an error.
unfoldable pub scan_digits : List ℕ → ℕ → Option ℕ
scan_digits [] n = some n
scan_digits (c ∷ s) n =
    let m = n * 10 + (c - b'0') in
    let rest = scan_digits s m in if is_digit c && ltb m (2 ^ 64) then rest else none

-- strconv.ParseUint(s, 10, 64), an error being none
unfoldable pub parse_uint : List ℕ → Option ℕ
unfolding scan_digits
parse_uint [] = none
parse_uint (c ∷ s) = scan_digits (c ∷ s) 0

-- strconv.FormatInt(i, 10) of the bit pattern i
unfoldable pub format_int : ℕ → List ℕ
unfolding format_uint
format_int i = if ltb i (2 ^ 63) then format_uint i else b'-' ∷ format_uint (2 ^ 64 - i)

-- The bounds of an int64 on what stands behind the sign.
unfoldable pub positive : Option ℕ → Option ℕ
positive none = none
positive (some n) = if ltb n (2 ^ 63) then some n else none

unfoldable pub negative : Option ℕ → Option ℕ
negative none = none
negative (some n) = if leb n (2 ^ 63) then some ((2 ^ 64 - n) % 2 ^ 64) else none

-- strconv.ParseInt(s, 10, 64), which is strconv.Atoi where int has 64 bits
unfoldable pub parse_int : List ℕ → Option ℕ
unfolding parse_uint positive negative
parse_int [] = none
parse_int (c ∷ s) =
    if c == b'-'
    then negative (parse_uint s)
    else if c == b'+'
    then positive (parse_uint s)
    else positive (parse_uint (c ∷ s))

-- strconv.FormatBool and strconv.ParseBool
unfoldable pub format_bool : Bool → List ℕ
format_bool true = codes "true"
format_bool false = codes "false"

abbrev pub is_one_of : List (List ℕ) → List ℕ → Bool
is_one_of [] s = false
is_one_of (t ∷ ts) s = text_eq s t || is_one_of ts s

unfoldable pub parse_bool : List ℕ → Option Bool
parse_bool s =
    if is_one_of
      (codes "1" ∷ codes "t" ∷ codes "T" ∷ codes "true" ∷ codes "TRUE" ∷ codes "True" ∷ []) s
    then some true
    else if is_one_of
        (codes "0" ∷ codes "f" ∷ codes "F" ∷ codes "false" ∷ codes "FALSE" ∷ codes "False" ∷ []) s
    then some false
    else none
