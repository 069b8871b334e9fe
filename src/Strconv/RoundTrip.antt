-- ===== src/Strconv/RoundTrip.antt =====
-- Reading what strconv prints gives the value back.
use golagram.Base.{
  ℕ, zero, suc, ◌≡◌, ◌∙◌, ◌+◌, ◌-◌, ◌*◌, ◌/◌, ◌%◌, ◌^◌, ◌≤◌, ◌<◌, refl, sym, Bool, true, false,
  List, [], ◌∷◌, some, Bool-cases, inl, inr, arith, text_eq, ltb,
}
use native.Mathlib.Nat.{pow-suc}
use golagram.Strings.{Lacks}
use golagram.Strconv.{
  digits_before, format_uint, scan_digits, parse_uint, format_int, positive, negative, parse_int,
  format_bool, parse_bool,
}

scan_last :
    (n : ℕ) (out : List ℕ)
    → n < 2 ^ 64
    → scan_digits ((b'0' + n % 10) ∷ out) (n / 10) ≡ scan_digits out n
unfolding scan_digits
scan_last n out h = ground arith

scan_digits-digits_before :
    (fuel n : ℕ) (out : List ℕ)
    → n < 10 ^ fuel
    → n < 2 ^ 64
    → scan_digits (digits_before fuel n out) 0 ≡ scan_digits out n
unfolding digits_before
scan_digits-digits_before zero n out h fits = let e : n ≡ 0 = omega arith in rw e refl
scan_digits-digits_before (suc fuel) n out h fits =
    let small : n < 10 ^ fuel * 10 = rw (sym (pow-suc 10 fuel)) h in
    ground
      (arith, scan_last n out fits, scan_digits-digits_before fuel (n / 10) ((b'0' + n % 10) ∷ out))

-- What a list of digits starts with.
abbrev StartsWithDigit : List ℕ → Type 0
StartsWithDigit [] = ⊥
StartsWithDigit (c ∷ s) = (b'0' ≤ c) × (c ≤ b'9')

digits_before-StartsWithDigit :
    (fuel n : ℕ) (out : List ℕ) → StartsWithDigit out → StartsWithDigit (digits_before fuel n out)
unfolding digits_before
digits_before-StartsWithDigit zero n out h = h
digits_before-StartsWithDigit (suc fuel) n out h =
    grind (arith, digits_before-StartsWithDigit fuel (n / 10) ((b'0' + n % 10) ∷ out))

-- A character that is no digit does not come up among the digits.
digits_before-Lacks :
    (fuel n sep : ℕ) (out : List ℕ)
    → b'9' < sep
    → Lacks sep out
    → Lacks sep (digits_before fuel n out)
unfolding digits_before
digits_before-Lacks zero n sep out far h = h
digits_before-Lacks (suc fuel) n sep out far h =
    grind (arith, digits_before-Lacks fuel (n / 10) sep ((b'0' + n % 10) ∷ out) far)

format_uint-StartsWithDigit : (n : ℕ) → StartsWithDigit (format_uint n)
unfolding format_uint digits_before
format_uint-StartsWithDigit n =
    ground (arith, digits_before-StartsWithDigit 19 (n / 10) ((b'0' + n % 10) ∷ []))

pub format_uint-Lacks : (n sep : ℕ) → b'9' < sep → Lacks sep (format_uint n)
unfolding format_uint
format_uint-Lacks n sep far = ground (arith, digits_before-Lacks 20 n sep [] far)

parse_uint-scan_digits : (s : List ℕ) → StartsWithDigit s → parse_uint s ≡ scan_digits s 0
unfolding parse_uint
parse_uint-scan_digits [] h = absurd h
parse_uint-scan_digits (c ∷ s) h = refl

scan_digits-format_uint : (n : ℕ) → n < 2 ^ 64 → scan_digits (format_uint n) 0 ≡ some n
unfolding format_uint scan_digits
scan_digits-format_uint n h = ground (arith, scan_digits-digits_before 20 n [])

pub parse_uint-format_uint : (n : ℕ) → n < 2 ^ 64 → parse_uint (format_uint n) ≡ some n
parse_uint-format_uint n h =
    parse_uint-scan_digits (format_uint n) (format_uint-StartsWithDigit n)
    ∙ scan_digits-format_uint n h

parse_int-positive : (s : List ℕ) → StartsWithDigit s → parse_int s ≡ positive (parse_uint s)
unfolding parse_int
parse_int-positive [] h = absurd h
parse_int-positive (c ∷ s) h = ground arith

positive_fits : (i : ℕ) → ltb i (2 ^ 63) ≡ true → positive (some i) ≡ some i
unfolding positive
positive_fits i small = rw small refl

negative_back :
    (i : ℕ)
    → ltb i (2 ^ 63) ≡ false
    → i < 2 ^ 64
    → parse_int (b'-' ∷ format_uint (2 ^ 64 - i)) ≡ some i
unfolding parse_int negative
negative_back i big h =
    let magnitude : 2 ^ 64 - i < 2 ^ 64 = ground arith in
    rw (parse_uint-format_uint (2 ^ 64 - i) magnitude) (ground arith)

pub parse_int-format_int : (i : ℕ) → i < 2 ^ 64 → parse_int (format_int i) ≡ some i
unfolding format_int
parse_int-format_int i h = elim (Bool-cases (ltb i (2 ^ 63))) [
  | inl small ↦
      rw
        (
          small,
          parse_int-positive (format_uint i) (format_uint-StartsWithDigit i),
          parse_uint-format_uint i h,
        )
        (positive_fits i small)
  | inr big ↦ rw big (negative_back i big h)
]

pub format_int-Lacks : (i sep : ℕ) → b'9' < sep → Lacks sep (format_int i)
unfolding format_int
format_int-Lacks i sep far =
    ground (arith, format_uint-Lacks i sep far, format_uint-Lacks (2 ^ 64 - i) sep far)

pub parse_bool-format_bool : (b : Bool) → parse_bool (format_bool b) ≡ some b
unfolding parse_bool format_bool text_eq
parse_bool-format_bool true = refl
parse_bool-format_bool false = refl

pub format_bool-Lacks : (b : Bool) → Lacks b':' (format_bool b)
unfolding format_bool
format_bool-Lacks true = ground arith
format_bool-Lacks false = ground arith
