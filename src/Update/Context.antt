-- ===== src/Update/Context.antt =====
-- ctx.go: what a Ctx resolves from its update, one case for each payload: the message, the chat, the
-- user, and the identity that the conversation state is kept under.
use golagram.Base.{ℕ, List, [], ◌∷◌, Option, none, some, if◌then◌else◌}
use golagram.Update.{
  Update, Message, Chat, User, CallbackQuery, BusinessConnection, MessageReactionUpdated,
  PollAnswer, OfChat, OfUser, OfChatUser, ChatMemberUpdated,
}
use golagram.Commands.{CommandObject, parse_command}

-- `case p != nil: return f(p)`, and otherwise what the rest of the switch gives.
abbrev pub on {ℓ κ} : {A : Type ℓ} {B : Type κ} → Option A → (A → B) → B → B
on none f rest = rest
on (some a) f rest = f a

abbrev pub or_caption : List ℕ → List ℕ → List ℕ
or_caption [] caption = caption
or_caption (c ∷ text) caption = c ∷ text

unfoldable pub text_or_caption : Message → List ℕ
text_or_caption m = or_caption m.text m.caption

unfoldable pub any_message : Update → Option Message
any_message u = on u.message some (
    on u.edited_message some (
      on u.channel_post some (
        on u.edited_channel_post some (
          on u.business_message some (
            on u.edited_business_message some (
              on u.guest_message some
                (on u.callback_query (λ (q : CallbackQuery). q.message) none)))))))

unfoldable pub ctx_text : Update → List ℕ
unfolding any_message text_or_caption
ctx_text u = on (any_message u) text_or_caption []

unfoldable pub ctx_command : Update → Option CommandObject
unfolding any_message text_or_caption
ctx_command u = on (any_message u) (λ (m : Message). parse_command (text_or_caption m)) none

-- The switch of Chat behind the message.
unfoldable pub chat_of_payload : Update → Option Chat
chat_of_payload u =
    on u.deleted_business_messages (λ (p : OfChat). p.chat)
      (on u.message_reaction (λ (p : MessageReactionUpdated). p.chat)
        (on u.message_reaction_count (λ (p : OfChat). p.chat)
          (on u.poll_answer (λ (p : PollAnswer). p.voter_chat)
            (on u.my_chat_member (λ (p : ChatMemberUpdated). p.chat)
              (on u.chat_member (λ (p : ChatMemberUpdated). p.chat)
                (on u.chat_join_request (λ (p : OfChatUser). p.chat)
                  (on u.chat_boost (λ (p : OfChat). p.chat)
                    (on u.removed_chat_boost (λ (p : OfChat). p.chat) none))))))))

unfoldable pub ctx_chat : Update → Option Chat
unfolding any_message chat_of_payload
ctx_chat u = on (any_message u) (λ (m : Message). m.chat) (chat_of_payload u)

unfoldable pub ctx_from : Update → Option User
unfolding any_message
ctx_from u =
    on u.callback_query (λ (q : CallbackQuery). q.from)
      (on u.business_connection (λ (p : BusinessConnection). p.user)
        (on u.message_reaction (λ (p : MessageReactionUpdated). p.user)
          (on u.inline_query (λ (p : OfUser). p.user)
            (on u.chosen_inline_result (λ (p : OfUser). p.user)
              (on u.shipping_query (λ (p : OfUser). p.user)
                (on u.pre_checkout_query (λ (p : OfUser). p.user)
                  (on u.purchased_paid_media (λ (p : OfUser). p.user)
                    (on u.poll_answer (λ (p : PollAnswer). p.user)
                      (on u.my_chat_member (λ (p : ChatMemberUpdated). p.from)
                        (on u.chat_member (λ (p : ChatMemberUpdated). p.from)
                          (on u.chat_join_request (λ (p : OfChatUser). p.from)
                            (on u.managed_bot (λ (p : OfUser). p.user)
                              (on u.subscription (λ (p : OfUser). p.user)
                                (on (any_message u) (λ (m : Message). m.from) none))))))))))))))

abbrev pub chat_id : Option Chat → ℕ
chat_id none = 0
chat_id (some c) = c.id

abbrev pub user_id : Option User → ℕ
user_id none = 0
user_id (some u) = u.id

unfoldable pub thread_id : Message → ℕ
thread_id m = if m.is_topic_message then m.message_thread_id else 0

-- The chat of a callback's message, or the private chat with the user who clicked.
unfoldable pub callback_chat_id : CallbackQuery → ℕ
callback_chat_id q =
    on q.message (λ (m : Message). on m.chat (λ (c : Chat). c.id) (user_id q.from)) (user_id q.from)

unfoldable pub callback_thread_id : CallbackQuery → ℕ
unfolding thread_id
callback_thread_id q = on q.message thread_id 0

abbrev pub Triple : Type 0
Triple = ℕ × ℕ × ℕ

abbrev pub of_user : OfUser → Triple
of_user p = (0, user_id p.user, 0)

abbrev pub of_chat : OfChat → Triple
of_chat p = (chat_id p.chat, 0, 0)

abbrev pub of_member : ChatMemberUpdated → Triple
of_member p = (chat_id p.chat, user_id p.from, 0)

-- The switch of identityTriple.
unfoldable pub triple_of_payload : Update → Triple
unfolding callback_chat_id callback_thread_id
triple_of_payload u =
    on u.callback_query
      (λ (q : CallbackQuery). (callback_chat_id q, user_id q.from, callback_thread_id q))
      (on u.business_connection (λ (p : BusinessConnection). (p.user_chat_id, user_id p.user, 0))
        (on u.deleted_business_messages of_chat (
          on u.message_reaction
            (λ (p : MessageReactionUpdated). (chat_id p.chat, user_id p.user, 0))
            (on u.message_reaction_count of_chat (
              on u.inline_query of_user (
                on u.chosen_inline_result of_user (
                  on u.shipping_query of_user (
                    on u.pre_checkout_query of_user (
                      on u.purchased_paid_media of_user (
                        on u.poll_answer
                          (λ (p : PollAnswer). (chat_id p.voter_chat, user_id p.user, 0))
                          (on u.my_chat_member of_member (
                            on u.chat_member of_member (
                              on u.chat_join_request
                                (λ (p : OfChatUser). (chat_id p.chat, user_id p.from, 0))
                                (on u.chat_boost of_chat (
                                  on u.removed_chat_boost of_chat (
                                    on u.managed_bot of_user
                                      (on u.subscription of_user (0, 0, 0))))))))))))))))))

-- A message counts unless it is a callback's.
unfoldable pub own_message : Update → Option Message
unfolding any_message
own_message u = on u.callback_query (λ (q : CallbackQuery). none) (any_message u)

unfoldable pub identity_triple : Update → Triple
unfolding own_message thread_id triple_of_payload
identity_triple u =
    on (own_message u) (λ (m : Message). (chat_id m.chat, user_id m.from, thread_id m))
      (triple_of_payload u)
