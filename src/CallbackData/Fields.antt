-- ===== src/CallbackData/Fields.antt =====
-- Reading the parts of a payload back into its fields.
use golagram.Base.{
  ℕ, suc, ◌≡◌, ◌∙◌, ◌⊎◌, inl, inr, ap, sym, ◌<◌, ◌*◌, ◌%◌, ◌^◌, refl, Bool, true, false, List, [],
  ◌∷◌, Option, some, ltb, All, arith, length, if◌then◌else◌, Bool-cases,
}
use mathlib.Core.Option
use golagram.Strings.{Lacks, contains}
use golagram.Strings.Laws.{contains-Lacks}
use golagram.Strconv.{format_uint, format_int, parse_uint, parse_int, parse_bool, format_bool}
use golagram.Strconv.RoundTrip.{
  parse_uint-format_uint, format_uint-Lacks, parse_int-format_int, format_int-Lacks,
  parse_bool-format_bool, format_bool-Lacks,
}
use golagram.CallbackData.{
  Width, bits8, bits16, bits32, bits64, size, FieldKind, string_field, bool_field, float_field,
  uint_field, int_field, FieldType, Payload, PackError, contains_separator, widen, narrow,
  format_field, cons_part_of, format_fields, parse_field, cons_field, parse_fields,
  callback_data_sep,
}

-- An exponent of ones and a fraction: the patterns that print as "NaN".
abbrev pub is_nan : ℕ → Bool
is_nan f = ltb (2047 * 2 ^ 52) (f % 2 ^ 63)

-- A value that a field of the kind can hold, NaN left out.
abbrev pub IsField : (k : FieldKind) → FieldType k → Type 0
IsField string_field s = Unit
IsField bool_field b = Unit
IsField float_field f = (f < 2 ^ 64) × (is_nan f ≡ false)
IsField (uint_field w) n = n < size w
IsField (int_field w) i = i < size w

abbrev pub IsPayload : (ks : List FieldKind) → Payload ks → Type 0
IsPayload [] v = Unit
IsPayload (k ∷ ks) (x, v) = IsField k x × IsPayload ks v

-- A string field has the separator in it.
abbrev pub HasSeparator : (ks : List FieldKind) → Payload ks → Type 0
HasSeparator [] v = ⊥
HasSeparator (string_field ∷ ks) (s, v) = (contains s callback_data_sep ≡ true) ⊎ HasSeparator ks v
HasSeparator (bool_field ∷ ks) (x, v) = HasSeparator ks v
HasSeparator (float_field ∷ ks) (x, v) = HasSeparator ks v
HasSeparator (uint_field w ∷ ks) (x, v) = HasSeparator ks v
HasSeparator (int_field w ∷ ks) (x, v) = HasSeparator ks v

narrow-uint : (w : Width) (n : ℕ) → n < size w → (n < 2 ^ 64) × (narrow w n ≡ n)
unfolding narrow
narrow-uint bits8 n h = (omega arith, omega arith)
narrow-uint bits16 n h = (omega arith, omega arith)
narrow-uint bits32 n h = (omega arith, omega arith)
narrow-uint bits64 n h = (omega arith, omega arith)

narrow-widen : (w : Width) (i : ℕ) → i < size w → (widen w i < 2 ^ 64) × (narrow w (widen w i) ≡ i)
unfolding narrow widen
narrow-widen bits8 i h = ground arith
narrow-widen bits16 i h = ground arith
narrow-widen bits32 i h = ground arith
narrow-widen bits64 i h = ground arith

cons_part_of-inr :
    (r : PackError ⊎ List ℕ) (rest : PackError ⊎ List (List ℕ)) (parts : List (List ℕ))
    → cons_part_of r rest ≡ inr parts
    → (s : List ℕ) × ((ps : List (List ℕ)) × ((r ≡ inr s) × ((rest ≡ inr ps) × (s ∷ ps ≡ parts))))
cons_part_of-inr (inl e) rest parts h = cc
cons_part_of-inr (inr s) (inl e) parts h = cc
cons_part_of-inr (inr s) (inr ps) parts h = (s, (ps, (refl, (refl, cc))))

abbrev pub fine : {B : Type 0} → B → PackError ⊎ B
fine b = inr b

inr_inj : {B : Type 0} {a b : B} → fine a ≡ fine b → a ≡ b
inr_inj h = cc

-- What is read from a part that is printed so.
of_printed :
    {A : Type 0} (read : List ℕ → Option A) (t s : List ℕ) (x : A)
    → fine t ≡ fine s
    → read t ≡ some x
    → Lacks b':' t
    → (read s ≡ some x) × Lacks b':' s
of_printed read t s x e back chars = let same : t ≡ s = inr_inj e in rw (sym same) (back, chars)

string_refused :
    (x s : List ℕ)
    → contains x b':' ≡ true
    → (if contains x b':' then inl contains_separator else inr x) ≡ fine s
    → ⊥
string_refused x s c h = let e : inl contains_separator ≡ fine s = rw c at h in cc

string_printed :
    (x s : List ℕ)
    → contains x b':' ≡ false
    → (if contains x b':' then inl contains_separator else inr x) ≡ fine s
    → fine x ≡ fine s
string_printed x s c h = rw c at h

module _ (mac : List ℕ → List ℕ → List ℕ) (format_float : ℕ → List ℕ)
    (parse_float : List ℕ → Option ℕ)
    (float_back : (f : ℕ) → f < 2 ^ 64 → is_nan f ≡ false → parse_float (format_float f) ≡ some f)
    (float_chars : (f : ℕ) → Lacks b':' (format_float f)) where
  parse_field-format_field :
      (k : FieldKind) (x : FieldType k) (s : List ℕ)
      → IsField k x
      → format_field mac format_float parse_float k x ≡ inr s
      → (parse_field mac format_float parse_float k s ≡ some x) × Lacks b':' s
  unfolding format_field parse_field
  parse_field-format_field string_field x s fits h = elim (Bool-cases (contains x b':')) [
    | inl c ↦ absurd (string_refused x s c h)
    | inr c ↦ of_printed some x s x (string_printed x s c h) refl (contains-Lacks x b':' c)
  ]
  parse_field-format_field bool_field x s fits h =
      of_printed parse_bool (format_bool x) s x h (parse_bool-format_bool x) (format_bool-Lacks x)
  parse_field-format_field float_field x s fits h =
      of_printed parse_float (format_float x) s x h (float_back x fits.0 fits.1) (float_chars x)
  parse_field-format_field (uint_field w) x s fits h =
      of_printed (λ t. Option.map (narrow w) (parse_uint t)) (format_uint x) s x h
        (rw (parse_uint-format_uint x (narrow-uint w x fits).0) (ap some (narrow-uint w x fits).1))
        (format_uint-Lacks x b':' (omega arith))
  parse_field-format_field (int_field w) x s fits h =
      of_printed (λ t. Option.map (narrow w) (parse_int t)) (format_int (widen w x)) s x h
        (rw (parse_int-format_int (widen w x) (narrow-widen w x fits).0)
          (ap some (narrow-widen w x fits).1))
        (format_int-Lacks (widen w x) b':' (omega arith))

  pub parse_fields-format_fields :
      (ks : List FieldKind) (v : Payload ks) (parts : List (List ℕ))
      → IsPayload ks v
      → format_fields mac format_float parse_float ks v ≡ inr parts
      → (parse_fields mac format_float parse_float ks parts ≡ some v)
        × (All (Lacks b':') parts × (length parts ≡ length ks))
  unfolding format_fields parse_fields
  parse_fields-format_fields [] v parts fits h =
      let e : [] ≡ parts = inr_inj h in rw (sym e) (refl, (tt, refl))
  parse_fields-format_fields (k ∷ ks) (x, v) parts fits h =
      let (s, (ps, (one, (rest, joined)))) =
        cons_part_of-inr (format_field mac format_float parse_float k x)
          (format_fields mac format_float parse_float ks v) parts h in
      let (back, chars) = parse_field-format_field k x s fits.0 one in
      let (backs, (all_chars, count)) = parse_fields-format_fields ks v ps fits.1 rest in
      rw (sym joined) (
        ap (λ o. cons_field o (parse_fields mac format_float parse_float ks ps)) back
            ∙ ap (cons_field (some x)) backs,
        ((chars, all_chars), ap suc count),
      )
