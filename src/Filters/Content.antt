-- ===== src/Filters/Content.antt =====
-- The filters on what a message carries.
use golagram.Base.{ℕ, Bool, true, false, not, ◌||◌, List, [], ◌∷◌, ◌==◌, text_eq}
use golagram.Update.{Dice}
use golagram.Update.Kinds.{is_set}
use golagram.Update.Context.{on}
use golagram.Filters.{Test, filter_message, any_text, any_id}

-- len(xs) > 0
abbrev pub is_filled {ℓ} : {A : Type ℓ} → List A → Bool
is_filled [] = false
is_filled (x ∷ xs) = true

unfoldable pub filter_photo : Test
unfolding filter_message
filter_photo = filter_message (λ m. is_filled m.content.photo)

unfoldable pub filter_is_ephemeral : Test
unfolding filter_message
filter_is_ephemeral = filter_message (λ m. not (m.ephemeral_message_id == 0))

unfoldable pub filter_is_topic_message : Test
unfolding filter_message
filter_is_topic_message = filter_message (λ m. m.is_topic_message)

unfoldable pub filter_media_group : Test
unfolding filter_message
filter_media_group = filter_message (λ m. not (text_eq m.media_group_id []))

unfoldable pub filter_new_chat_members : Test
unfolding filter_message
filter_new_chat_members = filter_message (λ m. is_filled m.content.new_chat_members)

unfoldable pub filter_dice_value : List ℕ → Test
unfolding filter_message
filter_dice_value values =
    filter_message (λ m. on m.content.dice (λ (d : Dice). any_id values d.value) false)

-- Whether an entity of the list has a type of the other.
abbrev pub has_any : List (List ℕ) → List (List ℕ) → Bool
has_any types [] = false
has_any types (e ∷ es) = any_text types e || has_any types es

unfoldable pub filter_has_entity : List (List ℕ) → Test
unfolding filter_message
filter_has_entity types =
    filter_message
      (λ m. has_any types m.content.entity_types || has_any types m.content.caption_entity_types)

unfoldable pub filter_is_forwarded : Test
unfolding filter_message
filter_is_forwarded = filter_message (λ m. is_set m.content.forward_origin)

unfoldable pub filter_is_reply : Test
unfolding filter_message
filter_is_reply = filter_message (λ m. is_set m.content.reply_to_message)

unfoldable pub filter_via_bot : Test
unfolding filter_message
filter_via_bot = filter_message (λ m. is_set m.content.via_bot)

unfoldable pub filter_document : Test
unfolding filter_message
filter_document = filter_message (λ m. is_set m.content.document)

unfoldable pub filter_sticker : Test
unfolding filter_message
filter_sticker = filter_message (λ m. is_set m.content.sticker)

unfoldable pub filter_voice : Test
unfolding filter_message
filter_voice = filter_message (λ m. is_set m.content.voice)

unfoldable pub filter_video : Test
unfolding filter_message
filter_video = filter_message (λ m. is_set m.content.video)

unfoldable pub filter_video_note : Test
unfolding filter_message
filter_video_note = filter_message (λ m. is_set m.content.video_note)

unfoldable pub filter_audio : Test
unfolding filter_message
filter_audio = filter_message (λ m. is_set m.content.audio)

unfoldable pub filter_animation : Test
unfolding filter_message
filter_animation = filter_message (λ m. is_set m.content.animation)

unfoldable pub filter_contact : Test
unfolding filter_message
filter_contact = filter_message (λ m. is_set m.content.contact)

unfoldable pub filter_location : Test
unfolding filter_message
filter_location = filter_message (λ m. is_set m.content.location)

unfoldable pub filter_venue : Test
unfolding filter_message
filter_venue = filter_message (λ m. is_set m.content.venue)

unfoldable pub filter_poll : Test
unfolding filter_message
filter_poll = filter_message (λ m. is_set m.content.poll)

unfoldable pub filter_dice : Test
unfolding filter_message
filter_dice = filter_message (λ m. is_set m.content.dice)

unfoldable pub filter_successful_payment : Test
unfolding filter_message
filter_successful_payment = filter_message (λ m. is_set m.content.successful_payment)

unfoldable pub filter_web_app_data : Test
unfolding filter_message
filter_web_app_data = filter_message (λ m. is_set m.content.web_app_data)

unfoldable pub filter_left_chat_member : Test
unfolding filter_message
filter_left_chat_member = filter_message (λ m. is_set m.content.left_chat_member)
