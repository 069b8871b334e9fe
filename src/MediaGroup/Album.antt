-- ===== src/MediaGroup/Album.antt =====
-- Build accepts the albums that Telegram takes.
use golagram.Base.{
  ℕ, ◌≡◌, ◌≢◌, ◌↔◌, ◌⊎◌, inl, inr, ◌≤◌, refl, Bool, true, false, ◌||◌, List, [], ◌∷◌, map, ltb,
  Bool-cases, All, arith, length, ap, sym, ◌∙◌, codes,
}
use mathlib.Core.Path.{ap₂}
use golagram.MediaGroup.{
  MediaKind, photo, video, live_photo, audio, document, unsupported, InputMedia, with_type,
  is_allowed, fill_types, audio_count, document_count, mixed, build_filled, build, MediaGroup,
  type_of, set_if_empty,
}

-- All items are of a kind, or none is.
abbrev pub Uniform : MediaKind → List InputMedia → Type 0
Uniform kind items =
    All (λ (i : InputMedia). i.kind ≢ kind) items ⊎ All (λ (i : InputMedia). i.kind ≡ kind) items

-- 2 to 10 items of the kinds that an album takes, audio and documents only among themselves.
abbrev pub IsAlbum : List InputMedia → Type 0
IsAlbum items =
    ((2 ≤ length items) × (length items ≤ 10))
    × (All (λ (i : InputMedia). i.kind ≢ unsupported) items
        × (Uniform audio items × Uniform document items))

-- The Type that Telegram knows a kind of an album's items by.
abbrev pub IsTypeOf : MediaKind → List ℕ → Type 0
IsTypeOf photo text = text ≡ codes "photo"
IsTypeOf video text = text ≡ codes "video"
IsTypeOf live_photo text = text ≡ codes "live_photo"
IsTypeOf audio text = text ≡ codes "audio"
IsTypeOf document text = text ≡ codes "document"
IsTypeOf unsupported text = ⊥

-- An item of the answer for an item of the builder: a Type that is set stays, an empty one is the
-- kind's, and nothing else changes.
pub record IsFilled (item out : InputMedia) : Type 0 where
  pub same : out ≡ record item { type_text = out.type_text }
  pub typed :
      ((item.type_text ≢ []) × (out.type_text ≡ item.type_text))
      ⊎ ((item.type_text ≡ []) × IsTypeOf item.kind out.type_text)

abbrev pub AreFilled : List InputMedia → List InputMedia → Type 0
AreFilled [] [] = Unit
AreFilled [] (o ∷ out) = ⊥
AreFilled (i ∷ items) [] = ⊥
AreFilled (i ∷ items) (o ∷ out) = IsFilled i o × AreFilled items out

abbrev TypedAs : MediaKind → List ℕ → List ℕ → Type 0
TypedAs k t u = ((t ≢ []) × (u ≡ t)) ⊎ ((t ≡ []) × IsTypeOf k u)

type_of-IsTypeOf : (k : MediaKind) → k ≢ unsupported → IsTypeOf k (type_of k)
unfolding type_of
type_of-IsTypeOf photo h = refl
type_of-IsTypeOf video h = refl
type_of-IsTypeOf live_photo h = refl
type_of-IsTypeOf audio h = refl
type_of-IsTypeOf document h = refl
type_of-IsTypeOf unsupported h = absurd (h refl)

IsTypeOf-type_of : (k : MediaKind) (u : List ℕ) → IsTypeOf k u → u ≡ type_of k
unfolding type_of
IsTypeOf-type_of photo u h = h
IsTypeOf-type_of video u h = h
IsTypeOf-type_of live_photo u h = h
IsTypeOf-type_of audio u h = h
IsTypeOf-type_of document u h = h
IsTypeOf-type_of unsupported u h = absurd h

set_if_empty-TypedAs :
    (k : MediaKind) (t : List ℕ) → k ≢ unsupported → TypedAs k t (set_if_empty t (type_of k))
set_if_empty-TypedAs k [] h = inr (refl, type_of-IsTypeOf k h)
set_if_empty-TypedAs k (c ∷ t) h = inl (λ e. cc, refl)

TypedAs-set_if_empty :
    (k : MediaKind) (t u : List ℕ) → TypedAs k t u → u ≡ set_if_empty t (type_of k)
TypedAs-set_if_empty k [] u (inl h) = absurd (h.0 refl)
TypedAs-set_if_empty k [] u (inr h) = IsTypeOf-type_of k u h.1
TypedAs-set_if_empty k (c ∷ t) u (inl h) = h.1
TypedAs-set_if_empty k (c ∷ t) u (inr h) = absurd (cc)

with_type-AreFilled :
    (items : List InputMedia)
    → All (λ (i : InputMedia). i.kind ≢ unsupported) items
    → AreFilled items (map with_type items)
unfolding with_type
with_type-AreFilled [] h = tt
with_type-AreFilled (i ∷ items) h = (
  record { same = refl; typed = set_if_empty-TypedAs i.kind i.type_text h.0 },
  with_type-AreFilled items h.1,
)

AreFilled-with_type :
    (items out : List InputMedia) → AreFilled items out → out ≡ map with_type items
unfolding with_type
AreFilled-with_type [] [] h = refl
AreFilled-with_type [] (o ∷ out) h = absurd h
AreFilled-with_type (i ∷ items) [] h = absurd h
AreFilled-with_type (i ∷ items) (o ∷ out) h =
    ap₂ (λ x xs. x ∷ xs)
      (h.0.same
        ∙ ap (λ t. record i { type_text = t })
            (TypedAs-set_if_empty i.kind i.type_text o.type_text h.0.typed))
      (AreFilled-with_type items out h.1)

fill_types-allowed :
    (items : List InputMedia)
    → All (λ (i : InputMedia). i.kind ≢ unsupported) items
    → fill_types items ≡ (true, map with_type items)
unfolding fill_types
fill_types-allowed [] h = refl
fill_types-allowed (i ∷ items) h = rw (fill_types-allowed items h.1, allowed i.kind h.0) refl
  where
    allowed : (k : MediaKind) → k ≢ unsupported → is_allowed k ≡ true
    allowed photo h = refl
    allowed video h = refl
    allowed live_photo h = refl
    allowed audio h = refl
    allowed document h = refl
    allowed unsupported h = absurd (h refl)

fill_types-done :
    (items : List InputMedia)
    → (fill_types items).0 ≡ true
    → All (λ (i : InputMedia). i.kind ≢ unsupported) items
unfolding fill_types
fill_types-done [] h = tt
fill_types-done (i ∷ items) h = ground (arith, fill_types-done items)

audio_count_iff :
    (items : List InputMedia)
    → ((audio_count items ≡ 0) ↔ All (λ (i : InputMedia). i.kind ≢ audio) items)
      × (((audio_count items ≡ length items) ↔ All (λ (i : InputMedia). i.kind ≡ audio) items)
          × (audio_count items ≤ length items))
unfolding audio_count
audio_count_iff [] = ground arith
audio_count_iff (i ∷ items) = ground (arith, audio_count_iff items)

document_count_iff :
    (items : List InputMedia)
    → ((document_count items ≡ 0) ↔ All (λ (i : InputMedia). i.kind ≢ document) items)
      × (((document_count items ≡ length items) ↔ All (λ (i : InputMedia). i.kind ≡ document) items)
          × (document_count items ≤ length items))
unfolding document_count
document_count_iff [] = ground arith
document_count_iff (i ∷ items) = ground (arith, document_count_iff items)

mixed_iff : (count total : ℕ) → (mixed count total ≡ false) ↔ ((count ≡ 0) ⊎ (count ≡ total))
mixed_iff count total = ground arith

audio_mixed-Uniform :
    (items : List InputMedia)
    → (mixed (audio_count items) (length items) ≡ false) ↔ Uniform audio items
audio_mixed-Uniform items =
    ground (arith, mixed_iff (audio_count items) (length items), audio_count_iff items)

documents_mixed-Uniform :
    (items : List InputMedia)
    → (mixed (document_count items) (length items) ≡ false) ↔ Uniform document items
documents_mixed-Uniform items =
    ground (arith, mixed_iff (document_count items) (length items), document_count_iff items)

build_filled_sound :
    (items filled out : List InputMedia) (done : Bool)
    → (build_filled items (done, filled)).0 ≡ inr out
    → (done ≡ true) × (Uniform audio items × Uniform document items)
unfolding build_filled
build_filled_sound items filled out false h = cc
build_filled_sound items filled out true h =
    elim (Bool-cases (mixed (audio_count items) (length items))) [
      | inl a ↦ (let wrong = rw a at h in cc)
      | inr a ↦ elim (Bool-cases (mixed (document_count items) (length items))) [
        | inl d ↦ (let wrong = rw (a, d) at h in cc)
        | inr d ↦ (refl, ((audio_mixed-Uniform items).0 a, (documents_mixed-Uniform items).0 d))
      ]
    ]

abbrev out_of_size : List InputMedia → Bool
out_of_size g = ltb (length g) 2 || ltb 10 (length g)

out_of_size_iff :
    (g : List InputMedia) → (out_of_size g ≡ false) ↔ ((2 ≤ length g) × (length g ≤ 10))
out_of_size_iff g = ground arith

build_sound : (g out : List InputMedia) → (build g).0 ≡ inr out → IsAlbum g
unfolding build
build_sound g out h = elim (Bool-cases (out_of_size g)) [
  | inl s ↦ (let wrong = rw s at h in cc)
  | inr s ↦
      (let filled : (build_filled g (fill_types g)).0 ≡ inr out = rw s at h in
        let (done, uniform) = build_filled_sound g (fill_types g).1 out (fill_types g).0 filled in
        ((out_of_size_iff g).0 s, (fill_types-done g done, uniform)))
]

build_complete : (g : List InputMedia) → IsAlbum g → (build g).0 ≡ inr (map with_type g)
unfolding build build_filled
build_complete g (size, (allowed, (audios, documents))) =
    rw
      (
        (out_of_size_iff g).1 size,
        fill_types-allowed g allowed,
        (audio_mixed-Uniform g).1 audios,
        (documents_mixed-Uniform g).1 documents,
      )
      refl

-- Build answers exactly where its items are an album that Telegram takes: 2 to 10 of the kinds of an
-- album, audio and documents only among themselves. The answer is then exactly the items with each
-- empty Type set to their kind's, in their order, and nothing else of them changed.
pub build-IsAlbum :
    (g : MediaGroup) (out : List InputMedia)
    → ((build g).0 ≡ inr out) ↔ (IsAlbum g × AreFilled g out)
build-IsAlbum g out = (
  λ h.
      let album = build_sound g out h in
      let both = sym (build_complete g album) ∙ h in
      let same : map with_type g ≡ out = cc in
      (album, rw same at (with_type-AreFilled g album.1.0)),
  λ (album, filled). build_complete g album ∙ ap inr (sym (AreFilled-with_type g out filled)),
)
