-- ===== src/Update/Keys.antt =====
-- Message.FSM of message.go and CallbackQuery.FSM of callback_query.go: the keys that they keep the
-- conversation state under, next to the one of Ctx.FSM.
use golagram.Base.{ℕ, ◌≡◌, refl, true, false, some}
use golagram.Fsm.{StorageKey, KeyStrategy, apply}
use golagram.Update.{Message, CallbackQuery}
use golagram.Update.Kinds.{update_with}
use golagram.Update.Kinds
use golagram.Update.Context.{
  chat_id, user_id, thread_id, callback_chat_id, callback_thread_id, identity_triple,
}
use golagram.Update.Sender.{sender_of, sender_id}
use golagram.Update.Identity.{storage_key_of, identity_user}
use golagram.Update.Tests.{ban_message, group_chat}

unfoldable message_storage_key : KeyStrategy → Message → StorageKey
message_storage_key strategy m = apply strategy (chat_id m.chat) (user_id m.from) (thread_id m)

unfoldable callback_storage_key : KeyStrategy → CallbackQuery → StorageKey
callback_storage_key strategy q =
    apply strategy (callback_chat_id q) (user_id q.from) (callback_thread_id q)

-- Without the sender's identity the three name one conversation, for a message, an edited one and one
-- of a channel, and for a callback.
storage_keys_agree :
    (strategy : KeyStrategy) (i : ℕ) (m : Message) (q : CallbackQuery)
    → (storage_key_of strategy false (update_with i (Kinds.message_payload m))
        ≡ message_storage_key strategy m)
      × ((storage_key_of strategy false (update_with i (Kinds.edited_message_payload m))
            ≡ message_storage_key strategy m)
          × ((storage_key_of strategy false (update_with i (Kinds.channel_post_payload m))
                ≡ message_storage_key strategy m)
              × (storage_key_of strategy false (update_with i (Kinds.callback_query_payload q))
                  ≡ callback_storage_key strategy q)))
unfolding storage_key_of identity_user identity_triple update_with message_storage_key
    callback_storage_key
storage_keys_agree strategy i m q = (refl, (refl, (refl, refl)))

-- An anonymous admin writes as the group: with the sender's identity the two keys differ.
abbrev anonymous_message : Message
anonymous_message = record ban_message { sender_chat = some group_chat }

storage_keys_differ :
    (storage_key_of KeyStrategy.chat_user true
        (update_with 1 (Kinds.message_payload anonymous_message))).user_id
      ≡ 40
    × ((message_storage_key KeyStrategy.chat_user anonymous_message).user_id ≡ 7)
unfolding storage_key_of identity_user identity_triple update_with message_storage_key apply
    sender_of sender_id
storage_keys_differ = (refl, refl)
