-- ===== src/Update/Kinds.antt =====
-- Update.Kind, and the payload that a registration asks for. Telegram sets one payload of an update;
-- `update_with` is an update with that one.
use golagram.Base.{
  arith, ℕ, ◌≡◌, refl, Bool, true, false, List, [], ◌∷◌, Option, none, some, if◌then◌else◌, codes,
  text_eq,
}
use golagram.Update.{
  Update, Message, CallbackQuery, BusinessConnection, MessageReactionUpdated, PollAnswer, Poll,
  OfChat, OfUser, OfChatUser, ChatMemberUpdated, empty_update,
}

abbrev pub is_set {ℓ} : {A : Type ℓ} → Option A → Bool
is_set none = false
is_set (some a) = true

-- The kinds of Router's registrations.
pub data UpdateKind : Type 0 where
  message_kind : UpdateKind
  edited_message_kind : UpdateKind
  channel_post_kind : UpdateKind
  edited_channel_post_kind : UpdateKind
  business_connection_kind : UpdateKind
  business_message_kind : UpdateKind
  edited_business_message_kind : UpdateKind
  deleted_business_messages_kind : UpdateKind
  guest_message_kind : UpdateKind
  message_reaction_kind : UpdateKind
  message_reaction_count_kind : UpdateKind
  inline_query_kind : UpdateKind
  chosen_inline_result_kind : UpdateKind
  callback_query_kind : UpdateKind
  shipping_query_kind : UpdateKind
  pre_checkout_query_kind : UpdateKind
  purchased_paid_media_kind : UpdateKind
  poll_kind : UpdateKind
  poll_answer_kind : UpdateKind
  my_chat_member_kind : UpdateKind
  chat_member_kind : UpdateKind
  chat_join_request_kind : UpdateKind
  chat_boost_kind : UpdateKind
  removed_chat_boost_kind : UpdateKind
  managed_bot_kind : UpdateKind
  subscription_kind : UpdateKind

-- The field name of a kind, the first argument of Router.register.
unfoldable pub kind_name : UpdateKind → List ℕ
kind_name message_kind = codes "message"
kind_name edited_message_kind = codes "edited_message"
kind_name channel_post_kind = codes "channel_post"
kind_name edited_channel_post_kind = codes "edited_channel_post"
kind_name business_connection_kind = codes "business_connection"
kind_name business_message_kind = codes "business_message"
kind_name edited_business_message_kind = codes "edited_business_message"
kind_name deleted_business_messages_kind = codes "deleted_business_messages"
kind_name guest_message_kind = codes "guest_message"
kind_name message_reaction_kind = codes "message_reaction"
kind_name message_reaction_count_kind = codes "message_reaction_count"
kind_name inline_query_kind = codes "inline_query"
kind_name chosen_inline_result_kind = codes "chosen_inline_result"
kind_name callback_query_kind = codes "callback_query"
kind_name shipping_query_kind = codes "shipping_query"
kind_name pre_checkout_query_kind = codes "pre_checkout_query"
kind_name purchased_paid_media_kind = codes "purchased_paid_media"
kind_name poll_kind = codes "poll"
kind_name poll_answer_kind = codes "poll_answer"
kind_name my_chat_member_kind = codes "my_chat_member"
kind_name chat_member_kind = codes "chat_member"
kind_name chat_join_request_kind = codes "chat_join_request"
kind_name chat_boost_kind = codes "chat_boost"
kind_name removed_chat_boost_kind = codes "removed_chat_boost"
kind_name managed_bot_kind = codes "managed_bot"
kind_name subscription_kind = codes "subscription"

-- The payload that a registration of a kind asks for, the second argument of Router.register.
unfoldable pub present : UpdateKind → Update → Bool
present message_kind u = is_set u.message
present edited_message_kind u = is_set u.edited_message
present channel_post_kind u = is_set u.channel_post
present edited_channel_post_kind u = is_set u.edited_channel_post
present business_connection_kind u = is_set u.business_connection
present business_message_kind u = is_set u.business_message
present edited_business_message_kind u = is_set u.edited_business_message
present deleted_business_messages_kind u = is_set u.deleted_business_messages
present guest_message_kind u = is_set u.guest_message
present message_reaction_kind u = is_set u.message_reaction
present message_reaction_count_kind u = is_set u.message_reaction_count
present inline_query_kind u = is_set u.inline_query
present chosen_inline_result_kind u = is_set u.chosen_inline_result
present callback_query_kind u = is_set u.callback_query
present shipping_query_kind u = is_set u.shipping_query
present pre_checkout_query_kind u = is_set u.pre_checkout_query
present purchased_paid_media_kind u = is_set u.purchased_paid_media
present poll_kind u = is_set u.poll
present poll_answer_kind u = is_set u.poll_answer
present my_chat_member_kind u = is_set u.my_chat_member
present chat_member_kind u = is_set u.chat_member
present chat_join_request_kind u = is_set u.chat_join_request
present chat_boost_kind u = is_set u.chat_boost
present removed_chat_boost_kind u = is_set u.removed_chat_boost
present managed_bot_kind u = is_set u.managed_bot
present subscription_kind u = is_set u.subscription

-- The switch of Kind: the first case that holds.
abbrev pub first_set : List (Bool × List ℕ) → List ℕ
first_set [] = []
first_set ((set, name) ∷ cases) = if set then name else first_set cases

unfoldable pub kind : Update → List ℕ
kind u = first_set (
    (is_set u.message, codes "message")
    ∷ (is_set u.edited_message, codes "edited_message")
    ∷ (is_set u.channel_post, codes "channel_post")
    ∷ (is_set u.edited_channel_post, codes "edited_channel_post")
    ∷ (is_set u.business_connection, codes "business_connection")
    ∷ (is_set u.business_message, codes "business_message")
    ∷ (is_set u.edited_business_message, codes "edited_business_message")
    ∷ (is_set u.deleted_business_messages, codes "deleted_business_messages")
    ∷ (is_set u.guest_message, codes "guest_message")
    ∷ (is_set u.message_reaction, codes "message_reaction")
    ∷ (is_set u.message_reaction_count, codes "message_reaction_count")
    ∷ (is_set u.inline_query, codes "inline_query")
    ∷ (is_set u.chosen_inline_result, codes "chosen_inline_result")
    ∷ (is_set u.callback_query, codes "callback_query")
    ∷ (is_set u.shipping_query, codes "shipping_query")
    ∷ (is_set u.pre_checkout_query, codes "pre_checkout_query")
    ∷ (is_set u.purchased_paid_media, codes "purchased_paid_media")
    ∷ (is_set u.poll, codes "poll")
    ∷ (is_set u.poll_answer, codes "poll_answer")
    ∷ (is_set u.my_chat_member, codes "my_chat_member")
    ∷ (is_set u.chat_member, codes "chat_member")
    ∷ (is_set u.chat_join_request, codes "chat_join_request")
    ∷ (is_set u.chat_boost, codes "chat_boost")
    ∷ (is_set u.removed_chat_boost, codes "removed_chat_boost")
    ∷ (is_set u.managed_bot, codes "managed_bot")
    ∷ (is_set u.subscription, codes "subscription")
    ∷ [])

pub data Payload : Type 0 where
  message_payload : Message → Payload
  edited_message_payload : Message → Payload
  channel_post_payload : Message → Payload
  edited_channel_post_payload : Message → Payload
  business_connection_payload : BusinessConnection → Payload
  business_message_payload : Message → Payload
  edited_business_message_payload : Message → Payload
  deleted_business_messages_payload : OfChat → Payload
  guest_message_payload : Message → Payload
  message_reaction_payload : MessageReactionUpdated → Payload
  message_reaction_count_payload : OfChat → Payload
  inline_query_payload : OfUser → Payload
  chosen_inline_result_payload : OfUser → Payload
  callback_query_payload : CallbackQuery → Payload
  shipping_query_payload : OfUser → Payload
  pre_checkout_query_payload : OfUser → Payload
  purchased_paid_media_payload : OfUser → Payload
  poll_payload : Poll → Payload
  poll_answer_payload : PollAnswer → Payload
  my_chat_member_payload : ChatMemberUpdated → Payload
  chat_member_payload : ChatMemberUpdated → Payload
  chat_join_request_payload : OfChatUser → Payload
  chat_boost_payload : OfChat → Payload
  removed_chat_boost_payload : OfChat → Payload
  managed_bot_payload : OfUser → Payload
  subscription_payload : OfUser → Payload

unfoldable pub update_with : ℕ → Payload → Update
update_with i (message_payload p) = record (empty_update i) { message = some p }
update_with i (edited_message_payload p) = record (empty_update i) { edited_message = some p }
update_with i (channel_post_payload p) = record (empty_update i) { channel_post = some p }
update_with i (edited_channel_post_payload p) = record (empty_update i) {
  edited_channel_post = some p;
}
update_with i (business_connection_payload p) = record (empty_update i) {
  business_connection = some p;
}
update_with i (business_message_payload p) = record (empty_update i) { business_message = some p }
update_with i (edited_business_message_payload p) = record (empty_update i) {
  edited_business_message = some p;
}
update_with i (deleted_business_messages_payload p) = record (empty_update i) {
  deleted_business_messages = some p;
}
update_with i (guest_message_payload p) = record (empty_update i) { guest_message = some p }
update_with i (message_reaction_payload p) = record (empty_update i) { message_reaction = some p }
update_with i (message_reaction_count_payload p) = record (empty_update i) {
  message_reaction_count = some p;
}
update_with i (inline_query_payload p) = record (empty_update i) { inline_query = some p }
update_with i (chosen_inline_result_payload p) = record (empty_update i) {
  chosen_inline_result = some p;
}
update_with i (callback_query_payload p) = record (empty_update i) { callback_query = some p }
update_with i (shipping_query_payload p) = record (empty_update i) { shipping_query = some p }
update_with i (pre_checkout_query_payload p) = record (empty_update i) {
  pre_checkout_query = some p;
}
update_with i (purchased_paid_media_payload p) = record (empty_update i) {
  purchased_paid_media = some p;
}
update_with i (poll_payload p) = record (empty_update i) { poll = some p }
update_with i (poll_answer_payload p) = record (empty_update i) { poll_answer = some p }
update_with i (my_chat_member_payload p) = record (empty_update i) { my_chat_member = some p }
update_with i (chat_member_payload p) = record (empty_update i) { chat_member = some p }
update_with i (chat_join_request_payload p) = record (empty_update i) { chat_join_request = some p }
update_with i (chat_boost_payload p) = record (empty_update i) { chat_boost = some p }
update_with i (removed_chat_boost_payload p) = record (empty_update i) {
  removed_chat_boost = some p;
}
update_with i (managed_bot_payload p) = record (empty_update i) { managed_bot = some p }
update_with i (subscription_payload p) = record (empty_update i) { subscription = some p }

unfoldable pub kind_of : Payload → UpdateKind
kind_of (message_payload p) = message_kind
kind_of (edited_message_payload p) = edited_message_kind
kind_of (channel_post_payload p) = channel_post_kind
kind_of (edited_channel_post_payload p) = edited_channel_post_kind
kind_of (business_connection_payload p) = business_connection_kind
kind_of (business_message_payload p) = business_message_kind
kind_of (edited_business_message_payload p) = edited_business_message_kind
kind_of (deleted_business_messages_payload p) = deleted_business_messages_kind
kind_of (guest_message_payload p) = guest_message_kind
kind_of (message_reaction_payload p) = message_reaction_kind
kind_of (message_reaction_count_payload p) = message_reaction_count_kind
kind_of (inline_query_payload p) = inline_query_kind
kind_of (chosen_inline_result_payload p) = chosen_inline_result_kind
kind_of (callback_query_payload p) = callback_query_kind
kind_of (shipping_query_payload p) = shipping_query_kind
kind_of (pre_checkout_query_payload p) = pre_checkout_query_kind
kind_of (purchased_paid_media_payload p) = purchased_paid_media_kind
kind_of (poll_payload p) = poll_kind
kind_of (poll_answer_payload p) = poll_answer_kind
kind_of (my_chat_member_payload p) = my_chat_member_kind
kind_of (chat_member_payload p) = chat_member_kind
kind_of (chat_join_request_payload p) = chat_join_request_kind
kind_of (chat_boost_payload p) = chat_boost_kind
kind_of (removed_chat_boost_payload p) = removed_chat_boost_kind
kind_of (managed_bot_payload p) = managed_bot_kind
kind_of (subscription_payload p) = subscription_kind

-- For an update with one payload: Kind is the name of the payload's kind, and a registration finds
-- its payload exactly when it is for the kind of that name.
pub kind-update_with :
    (i : ℕ) (p : Payload)
    → (kind (update_with i p) ≡ kind_name (kind_of p))
      × ((k : UpdateKind)
          → present k (update_with i p) ≡ text_eq (kind_name k) (kind_name (kind_of p)))
unfolding kind update_with kind_name kind_of present text_eq
kind-update_with i (message_payload p) = (refl, λ k. ground arith)
kind-update_with i (edited_message_payload p) = (refl, λ k. ground arith)
kind-update_with i (channel_post_payload p) = (refl, λ k. ground arith)
kind-update_with i (edited_channel_post_payload p) = (refl, λ k. ground arith)
kind-update_with i (business_connection_payload p) = (refl, λ k. ground arith)
kind-update_with i (business_message_payload p) = (refl, λ k. ground arith)
kind-update_with i (edited_business_message_payload p) = (refl, λ k. ground arith)
kind-update_with i (deleted_business_messages_payload p) = (refl, λ k. ground arith)
kind-update_with i (guest_message_payload p) = (refl, λ k. ground arith)
kind-update_with i (message_reaction_payload p) = (refl, λ k. ground arith)
kind-update_with i (message_reaction_count_payload p) = (refl, λ k. ground arith)
kind-update_with i (inline_query_payload p) = (refl, λ k. ground arith)
kind-update_with i (chosen_inline_result_payload p) = (refl, λ k. ground arith)
kind-update_with i (callback_query_payload p) = (refl, λ k. ground arith)
kind-update_with i (shipping_query_payload p) = (refl, λ k. ground arith)
kind-update_with i (pre_checkout_query_payload p) = (refl, λ k. ground arith)
kind-update_with i (purchased_paid_media_payload p) = (refl, λ k. ground arith)
kind-update_with i (poll_payload p) = (refl, λ k. ground arith)
kind-update_with i (poll_answer_payload p) = (refl, λ k. ground arith)
kind-update_with i (my_chat_member_payload p) = (refl, λ k. ground arith)
kind-update_with i (chat_member_payload p) = (refl, λ k. ground arith)
kind-update_with i (chat_join_request_payload p) = (refl, λ k. ground arith)
kind-update_with i (chat_boost_payload p) = (refl, λ k. ground arith)
kind-update_with i (removed_chat_boost_payload p) = (refl, λ k. ground arith)
kind-update_with i (managed_bot_payload p) = (refl, λ k. ground arith)
kind-update_with i (subscription_payload p) = (refl, λ k. ground arith)
