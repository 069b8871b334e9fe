-- ===== src/MediaGroup.antt =====
-- media_group.go: the builder of an album. Files are numbers; Build fills the Type fields of the items
-- that the builder points to, also where it fails later.
pub mod Album
mod Tests
use golagram.Base.{
  ℕ, ◌+◌, Bool, true, false, not, ◌&&◌, ◌||◌, ◌⊎◌, inl, inr, List, [], ◌∷◌, ◌++◌, ltb, ◌==◌,
  if◌then◌else◌, codes, length,
}

-- The members of the InputMedia union; `unsupported` stands for those an album does not take.
pub data MediaKind : Type 0 where
  photo : MediaKind
  video : MediaKind
  live_photo : MediaKind
  audio : MediaKind
  document : MediaKind
  unsupported : MediaKind

pub record InputMedia : Type 0 where
  pub kind : MediaKind
  pub type_text : List ℕ
  pub media : ℕ
  pub still : ℕ
  pub caption : List ℕ

pub data BuildError : Type 0 where
  wrong_size : BuildError
  not_in_album : BuildError
  audio_mixed : BuildError
  documents_mixed : BuildError

abbrev pub min_media_group_size : ℕ
min_media_group_size = 2

abbrev pub max_media_group_size : ℕ
max_media_group_size = 10

-- A MediaGroup is its items.
abbrev pub MediaGroup : Type 0
MediaGroup = List InputMedia

unfoldable pub new_media_group : MediaGroup
new_media_group = []

unfoldable pub add : MediaGroup → InputMedia → MediaGroup
add g item = g ++ item ∷ []

abbrev pub first : List (List ℕ) → List ℕ
first [] = []
first (s ∷ ss) = s

-- The item of a typed method; only a live photo has a still.
abbrev pub item_of : MediaKind → ℕ → ℕ → List (List ℕ) → InputMedia
item_of kind media still caption = record {
  kind = kind;
  type_text = [];
  media = media;
  still = still;
  caption = first caption;
}

unfoldable pub add_photo : MediaGroup → ℕ → List (List ℕ) → MediaGroup
unfolding add
add_photo g media caption = add g (item_of photo media 0 caption)

unfoldable pub add_video : MediaGroup → ℕ → List (List ℕ) → MediaGroup
unfolding add
add_video g media caption = add g (item_of video media 0 caption)

unfoldable pub add_live_photo : MediaGroup → ℕ → ℕ → List (List ℕ) → MediaGroup
unfolding add
add_live_photo g video_file still caption = add g (item_of live_photo video_file still caption)

unfoldable pub add_audio : MediaGroup → ℕ → List (List ℕ) → MediaGroup
unfolding add
add_audio g media caption = add g (item_of audio media 0 caption)

unfoldable pub add_document : MediaGroup → ℕ → List (List ℕ) → MediaGroup
unfolding add
add_document g media caption = add g (item_of document media 0 caption)

abbrev pub set_if_empty : List ℕ → List ℕ → List ℕ
set_if_empty [] v = v
set_if_empty (c ∷ s) v = c ∷ s

unfoldable pub type_of : MediaKind → List ℕ
type_of photo = codes "photo"
type_of video = codes "video"
type_of live_photo = codes "live_photo"
type_of audio = codes "audio"
type_of document = codes "document"
type_of unsupported = []

abbrev pub is_allowed : MediaKind → Bool
is_allowed photo = true
is_allowed video = true
is_allowed live_photo = true
is_allowed audio = true
is_allowed document = true
is_allowed unsupported = false

unfoldable pub with_type : InputMedia → InputMedia
unfolding type_of
with_type item = record item { type_text = set_if_empty item.type_text (type_of item.kind) }

-- The loop: whether it came to the end, and the items after it.
unfoldable pub fill_types : List InputMedia → Bool × List InputMedia
unfolding with_type
fill_types [] = (true, [])
fill_types (item ∷ items) =
    let (done, filled) = fill_types items in
    if is_allowed item.kind then (done, with_type item ∷ filled) else (false, item ∷ items)

-- The counters audio and documents at the end of the loop.
unfoldable pub audio_count : List InputMedia → ℕ
audio_count [] = 0
audio_count (item ∷ items) = elim item.kind [
  | audio ↦ 1 + audio_count items
  | photo ↦ audio_count items
  | video ↦ audio_count items
  | live_photo ↦ audio_count items
  | document ↦ audio_count items
  | unsupported ↦ audio_count items
]

unfoldable pub document_count : List InputMedia → ℕ
document_count [] = 0
document_count (item ∷ items) = elim item.kind [
  | document ↦ 1 + document_count items
  | photo ↦ document_count items
  | video ↦ document_count items
  | live_photo ↦ document_count items
  | audio ↦ document_count items
  | unsupported ↦ document_count items
]

abbrev pub mixed : ℕ → ℕ → Bool
mixed count total = ltb 0 count && not (count == total)

abbrev pub build_filled :
    List InputMedia → Bool × List InputMedia → (BuildError ⊎ List InputMedia) × MediaGroup
unfolding audio_count document_count
build_filled items (done, filled) =
    if not done
    then (inl not_in_album, filled)
    else if mixed (audio_count items) (length items)
    then (inl audio_mixed, filled)
    else if mixed (document_count items) (length items)
    then (inl documents_mixed, filled)
    else (inr filled, filled)

-- The answer of Build, and the builder after it.
unfoldable pub build : MediaGroup → (BuildError ⊎ List InputMedia) × MediaGroup
unfolding fill_types build_filled
build g =
    if ltb (length g) min_media_group_size || ltb max_media_group_size (length g)
    then (inl wrong_size, g)
    else build_filled g (fill_types g)
