-- ===== src/Generator.antt =====
-- internal/gen: what the generator of the Bot API types decides about names (naming.go) and about
-- unions (unions.go, prepareSpec), and the decoder that renderUnionUnmarshalers writes for a union. A
-- text is the list of its runes.
pub mod Decodable
mod Tests
use golagram.Base.{
  ℕ, zero, suc, ◌+◌, ◌-◌, Bool, true, false, not, ◌&&◌, ◌||◌, List, [], ◌∷◌, ◌++◌, map, concat,
  Option, none, some, ◌⊎◌, inl, inr, leb, ◌==◌, if◌then◌else◌, codes, text_eq,
}
use golagram.Strings.{cut_prefix, split}
use golagram.Strconv.{is_digit}

pub record Field : Type 0 where
  pub name : List ℕ
  pub description : List ℕ

-- An item of the specification; its fields are those of a type, its members those of a union.
pub record Item : Type 0 where
  pub name : List ℕ
  pub kind : List ℕ
  pub fields : List Field
  pub members : List (List ℕ)

-- goTypeName, with typeNameFixes
unfoldable pub go_type_name : List ℕ → List ℕ
unfolding text_eq
go_type_name s =
    if text_eq s (codes "LoginUrl")
    then codes "LoginURL"
    else if text_eq s (codes "MessageId")
    then codes "MessageID"
    else if text_eq s (codes "RichTextUrl")
    then codes "RichTextURL"
    else s

abbrev pub is_lower : ℕ → Bool
is_lower c = leb b'a' c && leb c b'z'

abbrev pub is_upper : ℕ → Bool
is_upper c = leb b'A' c && leb c b'Z'

-- The cases of ASCII letters.
abbrev pub to_upper : ℕ → ℕ
to_upper c = if is_lower c then c - 32 else c

abbrev pub to_lower : ℕ → ℕ
to_lower c = if is_upper c then c + 32 else c

unfoldable pub field_word : List ℕ → List ℕ
unfolding text_eq
field_word [] = []
field_word (c ∷ p) =
    if text_eq (map to_lower (c ∷ p)) (codes "id")
    then codes "ID"
    else if text_eq (map to_lower (c ∷ p)) (codes "url")
    then codes "URL"
    else to_upper c ∷ p

unfoldable pub field_name : List ℕ → List ℕ
unfolding field_word split
field_name json_name = concat (map field_word (split json_name b'_'))

-- [^close]+close, the first rune of it given by the caller as not close
unfoldable pub until : ℕ → List ℕ → Option (List ℕ)
until close [] = none
until close (c ∷ s) =
    let rest = until close s in
    if c == close then some [] else elim rest [ none ↦ none | some v ↦ some (c ∷ v) ]

abbrev pub filled : Option (List ℕ) → Option (List ℕ)
filled (some (c ∷ v)) = some (c ∷ v)
filled _ = none

abbrev pub first_of {ℓ} : {A : Type ℓ} → Option A → Option A → Option A
first_of none o = o
first_of (some a) o = some a

-- What stands quoted behind the first occurrence of a prefix that has it.
unfoldable pub quoted : List ℕ → ℕ → List ℕ → Option (List ℕ)
unfolding cut_prefix until
quoted prefix close [] = none
quoted prefix close (c ∷ s) =
    let here : Option (List ℕ) = elim (cut_prefix (c ∷ s) prefix) [
      | none ↦ none
      | some rest ↦ filled (until close rest)
    ] in
    first_of here (quoted prefix close s)

-- [a-z0-9_]+
unfoldable pub word_run : List ℕ → List ℕ
word_run [] = []
word_run (c ∷ s) = if is_lower c || (is_digit c || c == b'_') then c ∷ word_run s else []

abbrev pub nonempty : List ℕ → Option (List ℕ)
nonempty [] = none
nonempty (c ∷ s) = some (c ∷ s)

unfoldable pub bare : List ℕ → List ℕ → Option (List ℕ)
unfolding cut_prefix word_run
bare prefix [] = none
bare prefix (c ∷ s) =
    let here : Option (List ℕ) = elim (cut_prefix (c ∷ s) prefix) [
      | none ↦ none
      | some rest ↦ nonempty (word_run rest)
    ] in
    first_of here (bare prefix s)

-- The first of discValueREs that matches; the curly quotes are U+201C and U+201D.
unfoldable pub disc_value_in : List ℕ → Option (List ℕ)
unfolding quoted bare
disc_value_in s = first_of (quoted (codes "always " ++ 0x201C ∷ []) 0x201D s) (
    first_of (quoted (codes "always \"") b'"' s) (
      first_of (quoted (codes "must be " ++ 0x201C ∷ []) 0x201D s)
        (first_of (quoted (codes "must be \"") b'"' s) (bare (codes "must be ") s))))

unfoldable pub is_disc_field : List ℕ → Bool
unfolding text_eq
is_disc_field s =
    text_eq s (codes "type") || (text_eq s (codes "status") || text_eq s (codes "source"))

abbrev pub with_name : List ℕ → Option (List ℕ) → Option (List ℕ × List ℕ)
with_name name none = none
with_name name (some value) = some (name, value)

-- discriminatorOf: the field and its value
unfoldable pub discriminator_of : List Field → Option (List ℕ × List ℕ)
unfolding disc_value_in is_disc_field
discriminator_of [] = none
discriminator_of (f ∷ fs) =
    let rest = discriminator_of fs in
    if is_disc_field f.name
    then first_of (with_name f.name (disc_value_in f.description)) rest
    else rest

pub record UnionMemberInfo : Type 0 where
  pub spec_name : List ℕ
  pub go_name : List ℕ
  pub disc_value : List ℕ

pub record UnionInfo : Type 0 where
  pub spec_name : List ℕ
  pub go_name : List ℕ
  pub disc_field : List ℕ
  pub members : List UnionMemberInfo
  pub decodable : Bool

-- The union so far, and seenValues.
pub record Scan : Type 0 where
  pub info : UnionInfo
  pub seen : List (List ℕ)

unfoldable pub is_seen : List ℕ → List (List ℕ) → Bool
unfolding text_eq
is_seen v [] = false
is_seen v (w ∷ ws) = text_eq v w || is_seen v ws

-- A member without a discriminator.
unfoldable pub add_plain : List ℕ → Scan → Scan
unfolding go_type_name
add_plain m s =
    let member : UnionMemberInfo = record {
      spec_name = m;
      go_name = go_type_name m;
      disc_value = [];
    } in
    record s {
      info = record (s.info) { members = s.info.members ++ member ∷ []; decodable = false };
    }

-- A member with one; the discriminator's field is the union's by now.
unfoldable pub add_value : List ℕ → List ℕ → List ℕ → Scan → Scan
unfolding go_type_name is_seen
add_value m field value s =
    let member : UnionMemberInfo = record {
      spec_name = m;
      go_name = go_type_name m;
      disc_value = value;
    } in
    record {
      info = record (s.info) {
        disc_field = field;
        members = s.info.members ++ member ∷ [];
        decodable = s.info.decodable && not (is_seen value s.seen);
      };
      seen = s.seen ++ value ∷ [];
    }

-- None is the error of members that disagree on the field.
unfoldable pub scan_member : List ℕ → Option (List ℕ × List ℕ) → Scan → Option Scan
unfolding add_plain add_value
scan_member m none s = some (add_plain m s)
scan_member m (some d) s =
    if text_eq s.info.disc_field [] || text_eq s.info.disc_field d.0
    then some (add_value m d.0 d.1 s)
    else none

-- items[m]: the last item of the name wins, as each assignment replaces the one before.
unfoldable pub find_fields : List Item → List ℕ → Option (List Field)
unfolding text_eq
find_fields [] name = none
find_fields (it ∷ items) name =
    let here = if text_eq it.name name then some it.fields else none in
    first_of (find_fields items name) here

unfoldable pub found_discriminator : Option (List Field) → Option (List ℕ × List ℕ)
unfolding discriminator_of
found_discriminator none = none
found_discriminator (some fields) = discriminator_of fields

abbrev pub and_then : Option Scan → (Scan → Option Scan) → Option Scan
and_then none f = none
and_then (some s) f = f s

unfoldable pub scan_members : List Item → List (List ℕ) → Scan → Option Scan
unfolding scan_member found_discriminator find_fields
scan_members items [] s = some s
scan_members items (m ∷ ms) s =
    and_then (scan_member m (found_discriminator (find_fields items m)) s) (scan_members items ms)

abbrev pub scanned_info : Option Scan → Option UnionInfo
unfolding text_eq
scanned_info none = none
scanned_info (some s) =
    some (record (s.info) { decodable = s.info.decodable && not (text_eq s.info.disc_field []) })

-- The body of prepareSpec's loop for one union; none is an error.
unfoldable pub prepare_union : List Item → Item → Option UnionInfo
unfolding scan_members scanned_info go_type_name
prepare_union items it = scanned_info (
    scan_members items it.members (record {
      info = record {
        spec_name = it.name;
        go_name = go_type_name it.name;
        disc_field = [];
        members = [];
        decodable = true;
      };
      seen = [];
    }))

-- The switch that renderUnionUnmarshalers writes: the member of the first case with the value; none
-- is the error of the default.
unfoldable pub decode_member : List UnionMemberInfo → List ℕ → Option UnionMemberInfo
unfolding text_eq
decode_member [] value = none
decode_member (m ∷ ms) value = if text_eq m.disc_value value then some m else decode_member ms value
