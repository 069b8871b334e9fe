-- ===== src/Api/Hoisted.antt =====
-- What hoistUploads (internal/api/client.go) leaves behind, and what it takes out.
use golagram.Base.{
  ℕ, suc, ◌+◌, ◌≡◌, refl, sym, ap, ◌∙◌, Bool, false, List, [], ◌∷◌, ◌++◌, append_assoc, append-nil,
  Option, none, some, length, length-append, arith,
}
use golagram.Api.Uploads.{
  InputFile, is_upload, Value, nil_value, zero_value, scalar, pointer, interface, file, struct,
  slice, array, Values, end, item, unexported, contains_upload, any_contains_upload, HoistedUpload,
  upload_name, hoist_file, hoist_uploads, hoist_all,
}

-- There is no array in the value, as in every generated request.
unfoldable mutual
  pub NoArray : Value → Type 0
  NoArray (pointer v) = NoArray v
  NoArray (interface v) = NoArray v
  NoArray (struct vs) = NoArrays vs
  NoArray (slice vs) = NoArrays vs
  NoArray (array vs) = ⊥
  NoArray v = Unit

  pub NoArrays : Values → Type 0
  NoArrays end = Unit
  NoArrays (item v vs) = NoArray v × NoArrays vs
  NoArrays (unexported v vs) = NoArrays vs

-- The files to upload, in the order in which the value holds them.
unfoldable mutual
  unfolding is_upload

  pub uploads_of : Value → List InputFile
  uploads_of nil_value = []
  uploads_of zero_value = []
  uploads_of (scalar n) = []
  uploads_of (pointer v) = uploads_of v
  uploads_of (interface v) = uploads_of v
  uploads_of (file f) = elim (f.reader) [ none ↦ [] | some r ↦ f ∷ [] ]
  uploads_of (struct vs) = uploads_of_all vs
  uploads_of (slice vs) = uploads_of_all vs
  uploads_of (array vs) = uploads_of_all vs

  pub uploads_of_all : Values → List InputFile
  uploads_of_all end = []
  uploads_of_all (item v vs) = uploads_of v ++ uploads_of_all vs
  uploads_of_all (unexported v vs) = uploads_of_all vs

-- Files under consecutive names.
unfoldable pub named_from : ℕ → List InputFile → List HoistedUpload
unfolding upload_name
named_from n [] = []
named_from n (f ∷ fs) = record { name = upload_name n; file = f } ∷ named_from (suc n) fs

named_from-append :
    (n : ℕ) (fs gs : List InputFile)
    → named_from n (fs ++ gs) ≡ named_from n fs ++ named_from (n + length fs) gs
unfolding named_from
named_from-append n [] gs = ap (λ k. named_from k gs) (omega arith)
named_from-append n (f ∷ fs) gs =
    let e : suc n + length fs ≡ n + suc (length fs) = omega arith in
    ap (λ t. record { name = upload_name n; file = f } ∷ t)
      (rw e at (named_from-append (suc n) fs gs))

length-named_from : (n : ℕ) (fs : List InputFile) → length (named_from n fs) ≡ length fs
unfolding named_from
length-named_from n [] = refl
length-named_from n (f ∷ fs) = ap suc (length-named_from (suc n) fs)

-- Two parts, hoisted one after the other.
named_from-twice :
    (us : List HoistedUpload) (fs gs : List InputFile)
    → (us ++ named_from (length us) fs) ++ named_from (length (us ++ named_from (length us) fs)) gs
      ≡ us ++ named_from (length us) (fs ++ gs)
named_from-twice us fs gs =
    let e : length (us ++ named_from (length us) fs) ≡ length us + length fs =
      length-append us (named_from (length us) fs)
      ∙ ap (λ k. length us + k) (length-named_from _ fs) in
    rw (e, append_assoc, named_from-append (length us) fs gs) refl

record IsHoisted (us : List HoistedUpload) (fs : List InputFile) (more : List HoistedUpload)
    (left : Bool) : Type 0 where
  parts : more ≡ us ++ named_from (length us) fs
  none_left : left ≡ false

abbrev kept : (us : List HoistedUpload) → IsHoisted us [] us false
unfolding named_from
kept us = record { parts = sym (append-nil us); none_left = refl }

hoist_file-IsHoisted :
    (value filename : List ℕ) (reader : Option ℕ) (us : List HoistedUpload)
    → let f : InputFile = record { value = value; filename = filename; reader = reader } in
      IsHoisted us (uploads_of (file f)) (hoist_file f us).1 (contains_upload (hoist_file f us).0)
unfolding hoist_file uploads_of contains_upload named_from
hoist_file-IsHoisted value filename none us = kept us
hoist_file-IsHoisted value filename (some r) us = record { parts = refl; none_left = refl }

mutual
  unfolding hoist_uploads uploads_of contains_upload NoArray

  hoist_uploads-IsHoisted :
      (v : Value) (us : List HoistedUpload)
      → NoArray v
      → IsHoisted us (uploads_of v) (hoist_uploads v us).1 (contains_upload (hoist_uploads v us).0)
  hoist_uploads-IsHoisted nil_value us h = kept us
  hoist_uploads-IsHoisted zero_value us h = kept us
  hoist_uploads-IsHoisted (scalar n) us h = kept us
  hoist_uploads-IsHoisted (pointer v) us h = hoist_uploads-IsHoisted v us h
  hoist_uploads-IsHoisted (interface v) us h = hoist_uploads-IsHoisted v us h
  hoist_uploads-IsHoisted (file f) us h = hoist_file-IsHoisted f.value f.filename f.reader us
  hoist_uploads-IsHoisted (struct vs) us h = hoist_all-IsHoisted vs us h
  hoist_uploads-IsHoisted (slice vs) us h = hoist_all-IsHoisted vs us h
  hoist_uploads-IsHoisted (array vs) us h = absurd h

  hoist_all-IsHoisted :
      (vs : Values) (us : List HoistedUpload)
      → NoArrays vs
      → IsHoisted us
          (uploads_of_all vs)
          (hoist_all vs us).1
          (any_contains_upload (hoist_all vs us).0)
  hoist_all-IsHoisted end us h = kept us
  hoist_all-IsHoisted (item v vs) us h =
      let first = hoist_uploads-IsHoisted v us h.0 in
      let rest = hoist_all-IsHoisted vs (hoist_uploads v us).1 h.1 in
      record {
        parts =
            rest.parts ∙ rw (first.parts) (named_from-twice us (uploads_of v) (uploads_of_all vs));
        none_left = rw (first.none_left) (rest.none_left);
      }
  hoist_all-IsHoisted (unexported v vs) us h = hoist_all-IsHoisted vs us h

-- In a value without arrays: hoisting leaves no upload behind, wherever it stood in pointers,
-- interfaces, structs and slices, so that the value can be encoded as JSON; and what it takes out is
-- exactly the files that were to be uploaded, in their order, under consecutive names.
pub hoist_uploads-named_from :
    (v : Value)
    → NoArray v
    → (contains_upload (hoist_uploads v []).0 ≡ false)
      × ((hoist_uploads v []).1 ≡ named_from 0 (uploads_of v))
hoist_uploads-named_from v h = let r = hoist_uploads-IsHoisted v [] h in (r.none_left, r.parts)
