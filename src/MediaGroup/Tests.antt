-- ===== src/MediaGroup/Tests.antt =====
-- An album of a photo and a video, and what Build refuses.
use golagram.Base.{◌≡◌, ◌↔◌, inl, inr, refl, List, [], ◌∷◌, map, codes}
use golagram.MediaGroup.{
  InputMedia, MediaGroup, wrong_size, audio_mixed, new_media_group, add_photo, add_video, add_audio,
  with_type, build,
}
use golagram.MediaGroup.Album.{IsAlbum, AreFilled, build-IsAlbum}

abbrev two_items : MediaGroup
unfolding new_media_group add_photo add_video
two_items = add_video (add_photo new_media_group 4 (codes "first!" ∷ [])) 5 []

one_item : (build (add_photo new_media_group 4 [])).0 ≡ inl wrong_size
unfolding build add_photo new_media_group
one_item = refl

mixed_audio : (build (add_audio two_items 6 [])).0 ≡ inl audio_mixed
unfolding build add_audio two_items
mixed_audio = refl

-- two_items with their Types.
abbrev typed_items : List InputMedia
unfolding two_items
typed_items = map with_type two_items

typed_items_types :
    map (λ (i : InputMedia). i.type_text) typed_items ≡ codes "photo" ∷ codes "video" ∷ []
unfolding typed_items with_type
typed_items_types = refl

build-IsAlbum_example :
    ((build two_items).0 ≡ inr typed_items) ↔ (IsAlbum two_items × AreFilled two_items typed_items)
build-IsAlbum_example = build-IsAlbum two_items typed_items
