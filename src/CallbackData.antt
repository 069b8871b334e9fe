-- ===== src/CallbackData.antt =====
-- callback_data.go: a payload struct as the data of a button, "prefix:field1:field2:...", with an HMAC
-- tag behind it if the schema has a secret. Texts are lists of bytes. A struct is the tuple of its
-- fields by the schema; a number is its bit pattern of the field's width, a float64 its 64 bits.
pub mod Fields
pub mod Tags
pub mod RoundTrip
pub mod Errors
mod Tests
use golagram.Base.{
  ℕ, ◌≡◌, ◌+◌, ◌-◌, ◌*◌, ◌/◌, ◌%◌, ◌^◌, ◌<◌, Bool, true, false, ◌&&◌, ◌||◌, ◌⊎◌, inl, inr, List, [],
  ◌∷◌, ◌++◌, map, Option, none, some, leb, ltb, ◌==◌, if◌then◌else◌, codes, length, take, text_eq,
  drop,
}
use mathlib.Core.Option
use golagram.Strings.{contains, has_prefix, split, join}
use golagram.Strconv.{format_uint, format_int, parse_uint, parse_int, format_bool, parse_bool}
use golagram.Update.{CallbackQuery}
use golagram.Update.Context.{on}
use golagram.Filters.{Ctx}
use golagram.Base64.{encode, decode}

abbrev pub callback_data_sep : ℕ
callback_data_sep = b':'

abbrev pub hmac_tag_len : ℕ
hmac_tag_len = 8

abbrev pub max_callback_data_length : ℕ
max_callback_data_length = 64

-- The widths of Go's integers; int and uint have 64 bits.
pub data Width : Type 0 where
  bits8 : Width
  bits16 : Width
  bits32 : Width
  bits64 : Width

-- 2 to the width, and half of it.
abbrev pub size : Width → ℕ
size bits8 = 2 ^ 8
size bits16 = 2 ^ 16
size bits32 = 2 ^ 32
size bits64 = 2 ^ 64

abbrev pub half_size : Width → ℕ
half_size bits8 = 2 ^ 7
half_size bits16 = 2 ^ 15
half_size bits32 = 2 ^ 31
half_size bits64 = 2 ^ 63

-- The kinds of fields that a schema takes.
pub data FieldKind : Type 0 where
  string_field : FieldKind
  bool_field : FieldKind
  float_field : FieldKind
  uint_field : Width → FieldKind
  int_field : Width → FieldKind

abbrev pub FieldType : FieldKind → Type 0
FieldType string_field = List ℕ
FieldType bool_field = Bool
FieldType float_field = ℕ
FieldType (uint_field w) = ℕ
FieldType (int_field w) = ℕ

-- A value of the payload type T: one value for each field.
abbrev pub Payload : List FieldKind → Type 0
Payload [] = Unit
Payload (k ∷ ks) = FieldType k × Payload ks

pub record CallbackData : Type 0 where
  pub prefix : List ℕ
  pub fields : List FieldKind
  pub hmac_secret : Option (List ℕ)

pub data PackError : Type 0 where
  contains_separator : PackError
  too_long : PackError

pub data UnpackError : Type 0 where
  tampered : UnpackError
  other_prefix : UnpackError
  other_count : UnpackError
  bad_field : UnpackError
  no_callback_query : UnpackError

-- WithHMAC and NewCallbackData; a panic is none.
unfoldable pub with_hmac : List ℕ → CallbackData → Option CallbackData
with_hmac [] cd = none
with_hmac (b ∷ secret) cd = some (record cd { hmac_secret = some (b ∷ secret) })

unfoldable pub new_callback_data : List ℕ → List FieldKind → Option CallbackData
new_callback_data [] fields = none
new_callback_data (c ∷ prefix) fields =
    if contains (c ∷ prefix) callback_data_sep
    then none
    else some (record { prefix = c ∷ prefix; fields = fields; hmac_secret = none })

-- reflect's Int of a signed field, and SetInt and SetUint, which drop the bits beyond the width.
unfoldable pub widen : Width → ℕ → ℕ
widen w i = if ltb i (half_size w) then i else 2 ^ 64 - (size w - i)

unfoldable pub narrow : Width → ℕ → ℕ
narrow w i = i % size w

abbrev pub packed_or_panic : PackError ⊎ List ℕ → Option (List ℕ)
packed_or_panic (inl e) = none
packed_or_panic (inr s) = some s

abbrev pub cons_part_of : PackError ⊎ List ℕ → PackError ⊎ List (List ℕ) → PackError ⊎ List (List ℕ)
cons_part_of (inl e) rest = inl e
cons_part_of (inr s) (inl e) = inl e
cons_part_of (inr s) (inr parts) = inr (s ∷ parts)

abbrev pub checked_length : List ℕ → PackError ⊎ List ℕ
checked_length packed =
    if ltb max_callback_data_length (length packed) then inl too_long else inr packed

-- data[:idx] and data[idx+1:] at the last separator, none where there is none.
abbrev pub cut_behind : ℕ → List ℕ → Option (List ℕ × List ℕ) → Option (List ℕ × List ℕ)
cut_behind c s none = if c == callback_data_sep then some ([], s) else none
cut_behind c s (some (before, behind)) = some (c ∷ before, behind)

unfoldable pub last_cut : List ℕ → Option (List ℕ × List ℕ)
last_cut [] = none
last_cut (c ∷ s) = cut_behind c s (last_cut s)

abbrev pub cons_field : {A B : Type 0} → Option A → Option B → Option (A × B)
cons_field none rest = none
cons_field (some x) none = none
cons_field (some x) (some v) = some (x, v)

abbrev pub field_or_error : {A : Type 0} → Option A → UnpackError ⊎ A
field_or_error none = inl bad_field
field_or_error (some v) = inr v

-- Filter and FilterWhere on the data of a callback query.
unfoldable pub schema_filter : CallbackData → List ℕ → Bool
schema_filter cd text =
    text_eq text cd.prefix || has_prefix text (cd.prefix ++ callback_data_sep ∷ [])

abbrev pub holds_of : {A : Type 0} → (A → Bool) → UnpackError ⊎ A → Bool
holds_of pred (inl e) = false
holds_of pred (inr v) = pred v

-- hmac.New(sha256.New, secret) over a payload is `mac`; strconv's printer and reader of float64 are
-- `format_float` and `parse_float`.
module _ (mac : List ℕ → List ℕ → List ℕ) (format_float : ℕ → List ℕ)
    (parse_float : List ℕ → Option ℕ) where
  unfoldable pub format_field : (k : FieldKind) → FieldType k → PackError ⊎ List ℕ
  unfolding widen
  format_field string_field s =
      if contains s callback_data_sep then inl contains_separator else inr s
  format_field bool_field b = inr (format_bool b)
  format_field float_field f = inr (format_float f)
  format_field (uint_field w) n = inr (format_uint n)
  format_field (int_field w) i = inr (format_int (widen w i))

  -- The loop over the fields.
  unfoldable pub format_fields : (ks : List FieldKind) → Payload ks → PackError ⊎ List (List ℕ)
  unfolding format_field
  format_fields [] v = inr []
  format_fields (k ∷ ks) (x, v) = cons_part_of (format_field k x) (format_fields ks v)

  unfoldable pub tag_of : List ℕ → List ℕ → List ℕ
  tag_of secret payload = take hmac_tag_len (mac secret payload)

  unfoldable pub hmac_tag : List ℕ → List ℕ → List ℕ
  unfolding tag_of
  hmac_tag secret payload = encode (tag_of secret payload)

  abbrev pub signed_with : Option (List ℕ) → List ℕ → List ℕ
  signed_with none packed = packed
  signed_with (some secret) packed = packed ++ callback_data_sep ∷ hmac_tag secret packed

  abbrev pub pack_parts : CallbackData → PackError ⊎ List (List ℕ) → PackError ⊎ List ℕ
  pack_parts cd (inl e) = inl e
  pack_parts cd (inr parts) =
      checked_length (signed_with cd.hmac_secret (join (cd.prefix ∷ parts) callback_data_sep))

  unfoldable pub pack : (cd : CallbackData) → Payload cd.fields → PackError ⊎ List ℕ
  unfolding format_fields hmac_tag
  pack cd v = pack_parts cd (format_fields cd.fields v)

  -- MustPack; a panic is none.
  unfoldable pub must_pack : (cd : CallbackData) → Payload cd.fields → Option (List ℕ)
  unfolding pack
  must_pack cd v = packed_or_panic (pack cd v)

  -- The tag of a payload is the eight bytes that were decoded.
  abbrev pub tag_matches : List ℕ → List ℕ → Option (List ℕ) → Bool
  tag_matches secret payload none = false
  tag_matches secret payload (some want) =
      length want == hmac_tag_len && text_eq (tag_of secret payload) want

  abbrev pub untagged : List ℕ → Option (List ℕ × List ℕ) → Option (List ℕ)
  untagged secret none = none
  untagged secret (some (payload, tag)) =
      if tag_matches secret payload (decode tag) then some payload else none

  -- The payload of the data: all of it, or what stands before a tag that matches.
  unfoldable pub verified : Option (List ℕ) → List ℕ → Option (List ℕ)
  unfolding last_cut tag_of
  verified none text = some text
  verified (some secret) text = untagged secret (last_cut text)

  unfoldable pub parse_field : (k : FieldKind) → List ℕ → Option (FieldType k)
  unfolding narrow
  parse_field string_field part = some part
  parse_field bool_field part = parse_bool part
  parse_field float_field part = parse_float part
  parse_field (uint_field w) part = Option.map (narrow w) (parse_uint part)
  parse_field (int_field w) part = Option.map (narrow w) (parse_int part)

  unfoldable pub parse_fields : (ks : List FieldKind) → List (List ℕ) → Option (Payload ks)
  unfolding parse_field
  parse_fields [] parts = some tt
  parse_fields (k ∷ ks) [] = none
  parse_fields (k ∷ ks) (part ∷ parts) = cons_field (parse_field k part) (parse_fields ks parts)

  abbrev pub unpack_parts : (cd : CallbackData) → List (List ℕ) → UnpackError ⊎ Payload cd.fields
  unpack_parts cd [] = inl other_prefix
  unpack_parts cd (part ∷ parts) =
      if text_eq part cd.prefix
      then if length parts == length cd.fields
        then field_or_error (parse_fields cd.fields parts)
        else inl other_count
      else inl other_prefix

  abbrev pub unpack_payload :
      (cd : CallbackData) → Option (List ℕ) → UnpackError ⊎ Payload cd.fields
  unpack_payload cd none = inl tampered
  unpack_payload cd (some payload) = unpack_parts cd (split payload callback_data_sep)

  unfoldable pub unpack : (cd : CallbackData) → List ℕ → UnpackError ⊎ Payload cd.fields
  unfolding verified parse_fields
  unpack cd text = unpack_payload cd (verified cd.hmac_secret text)

  unfoldable pub filter_where : (cd : CallbackData) → (Payload cd.fields → Bool) → List ℕ → Bool
  unfolding unpack
  filter_where cd pred text = holds_of pred (unpack cd text)

  -- On a Ctx: an update that is no callback query does not match, and FromCtx fails on it.
  unfoldable pub callback_filter_where :
      (cd : CallbackData) → (Payload cd.fields → Bool) → Ctx → Bool
  unfolding filter_where
  callback_filter_where cd pred c =
      on c.update.callback_query (λ (q : CallbackQuery). filter_where cd pred q.payload) false

  unfoldable pub from_ctx : (cd : CallbackData) → Ctx → UnpackError ⊎ Payload cd.fields
  unfolding unpack
  from_ctx cd c =
      on c.update.callback_query (λ (q : CallbackQuery). unpack cd q.payload)
        (inl no_callback_query)

unfoldable pub callback_filter : CallbackData → Ctx → Bool
unfolding schema_filter
callback_filter cd c =
    on c.update.callback_query (λ (q : CallbackQuery). schema_filter cd q.payload) false
