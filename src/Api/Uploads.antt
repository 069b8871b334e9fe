-- ===== src/Api/Uploads.antt =====
-- internal/api/client.go, containsUpload and hoistUploads, over the values that reflect shows: what is
-- no pointer, interface, struct, slice or array has no parts. The content of an upload is a number.
use golagram.Base.{
  ℕ, Bool, true, false, ◌||◌, List, [], ◌∷◌, ◌++◌, Option, none, some, length, codes,
}
use golagram.Strconv.{format_uint}

-- InputFile of input_file.go; a reader of none is nil.
pub record InputFile : Type 0 where
  pub value : List ℕ
  pub filename : List ℕ
  pub reader : Option ℕ

unfoldable pub is_upload : InputFile → Bool
is_upload f = elim (f.reader) [ none ↦ false | some r ↦ true ]

unfoldable pub input_file_id : List ℕ → InputFile
input_file_id id = record { value = id; filename = []; reader = none }

-- nil_value is a nil pointer, interface or slice; zero_value the zero of an unexported field.
mutual
  pub data Value : Type 0 where
    nil_value : Value
    zero_value : Value
    scalar : ℕ → Value
    pointer : Value → Value
    interface : Value → Value
    file : InputFile → Value
    struct : Values → Value
    slice : Values → Value
    array : Values → Value

  -- The fields of a struct or the items of a slice or an array.
  pub data Values : Type 0 where
    end : Values
    item : Value → Values → Values
    unexported : Value → Values → Values

unfoldable mutual
  unfolding is_upload

  pub contains_upload : Value → Bool
  contains_upload nil_value = false
  contains_upload zero_value = false
  contains_upload (scalar n) = false
  contains_upload (pointer v) = contains_upload v
  contains_upload (interface v) = contains_upload v
  contains_upload (file f) = is_upload f
  contains_upload (struct vs) = any_contains_upload vs
  contains_upload (slice vs) = any_contains_upload vs
  contains_upload (array vs) = any_contains_upload vs

  pub any_contains_upload : Values → Bool
  any_contains_upload end = false
  any_contains_upload (item v vs) = contains_upload v || any_contains_upload vs
  any_contains_upload (unexported v vs) = any_contains_upload vs

pub record HoistedUpload : Type 0 where
  pub name : List ℕ
  pub file : InputFile

-- fmt.Sprintf("golagram_upload_%d", n)
unfoldable pub upload_name : ℕ → List ℕ
unfolding format_uint
upload_name n = codes "golagram_upload_" ++ format_uint n

unfoldable pub hoist_file : InputFile → List HoistedUpload → Value × List HoistedUpload
unfolding upload_name input_file_id
hoist_file f uploads =
    let name = upload_name (length uploads) in
    elim (f.reader) [
      | none ↦ (file f, uploads)
      | some r ↦ (
        file (input_file_id (codes "attach://" ++ name)),
        uploads ++ record { name = name; file = f } ∷ [],
      )
    ]

unfoldable mutual
  unfolding hoist_file

  pub hoist_uploads : Value → List HoistedUpload → Value × List HoistedUpload
  hoist_uploads nil_value uploads = (nil_value, uploads)
  hoist_uploads zero_value uploads = (zero_value, uploads)
  hoist_uploads (scalar n) uploads = (scalar n, uploads)
  hoist_uploads (pointer v) uploads =
      let inner = hoist_uploads v uploads in (pointer inner.0, inner.1)
  hoist_uploads (interface v) uploads =
      let inner = hoist_uploads v uploads in (interface inner.0, inner.1)
  hoist_uploads (file f) uploads = hoist_file f uploads
  hoist_uploads (struct vs) uploads = let inner = hoist_all vs uploads in (struct inner.0, inner.1)
  hoist_uploads (slice vs) uploads = let inner = hoist_all vs uploads in (slice inner.0, inner.1)
  hoist_uploads (array vs) uploads = (array vs, uploads)

  pub hoist_all : Values → List HoistedUpload → Values × List HoistedUpload
  hoist_all end uploads = (end, uploads)
  hoist_all (item v vs) uploads =
      let first = hoist_uploads v uploads in
      let rest = hoist_all vs first.1 in (item first.0 rest.0, rest.1)
  hoist_all (unexported v vs) uploads =
      let rest = hoist_all vs uploads in (unexported zero_value rest.0, rest.1)
